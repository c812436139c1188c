-- ===== src/Lib.antt =====
-- Verification library of the Arduino sketches of a smart house.
--
-- The program. Each sketch is a node of a MySensors radio network. `setup` runs once, then the Arduino
-- core calls `loop` for ever, and the radio library calls `receive` for each message between two calls.
-- sketches/Kitchen drives RGB and white LED strips by a push button and by messages: Networking.cpp
-- receives, Parsing.cpp reads the text of a command, Storage.cpp keeps colours in the EEPROM, LEDs.cpp
-- fades and runs transitions, Kitchen.ino polls the button of libraries/NewButton, whose callbacks it
-- registers. LEDs are objects of libraries/LEDFader, which step to a level in `update`.
-- sketches/LightSwitchAC dims a lamp on the mains: an interrupt at each zero crossing and a timer switch
-- the triac, the main loop moves the level to its target, a button and messages set the target, and
-- Relay.cpp drives two relays, each with a button.
-- sketches/MotionLightWithRelay reports motion and light and drives a relay.
--
-- The files.
--   Base: names of the libraries, Boolean tests and lists over the native numbers.
--   NewButton: libraries/NewButton. `process` is one poll, with the pin's level and the readings of
--     millis() as input; the result lists the callbacks that it calls. Hold, Press, Lost and Gestures are
--     about one poll, a whole press, a press at reading 0, and any sequence of these.
--   LedFader: LEDFader.cpp, by its function names, with the readings of millis() as arguments; Curve is
--     Curve.cpp. Steps, Fade and Completion are about one update, one step of a fade and a whole fade;
--     Implements makes the faders the LEDs of Kitchen/Board, Turning is about transitions over them,
--     Resting, Settling and Pressing about fades until they are over, after a short release and after a
--     whole short press of the button, Commanded about those that a message asks for, and Wiring has the
--     globals of the Kitchen sketch with faders on their pins. Examples is about the sketches in the
--     library's directory examples.
--   Logging: Logging.cpp and the macros of Logging.h; `vsnprintf_P` is a parameter.
--   Kitchen/Types, State: Types.h and the globals of the sketch, as one record.
--   Kitchen/Parsing: Parsing.cpp; Parsing/Command has its second half. The other children are about it:
--     Scan and Split the tokenizer, Refine the whole parser, Text and Accept printed commands, Reject and
--     Errno what is refused, Fatal what it does not survive.
--   Kitchen/Board: LED faders and EEPROM, an interface with laws.
--   Kitchen/Leds, Store, Networking, Sketch: LEDs.cpp, Storage.cpp, Networking.cpp and Kitchen.ino, by
--     their function names; the callbacks are `short_release_handler` and `long_press_handler`.
--   Kitchen/History: messages and passes of the main loop in any order.
--   Kitchen/Passes, Outcomes, Polls, Loops, Holding: passes until a transition turns, one pass by the
--     calls of its poll, and passes over a whole press of the button.
--   Kitchen/Recorder, Memory: what the sketch remembers, apart from its LEDs.
--   Kitchen/Status, Honest: the status that the controller got, against the LEDs.
--   Kitchen/Synced, Aim, Turn, Arrival, Presses, Remote, Limits, Survival: the EEPROM, transitions, the button, the
--     messages, the runs that stay within the language.
--   LightSwitch/Relay, Node, Sketch: Relay.cpp and LightSwitchAC.ino, by their function names; an event of
--     the sketch is a message, a pass of the main loop, a zero crossing or a tick of the timer.
--   LightSwitch/Firing, Fading, Range, Saved, Toggling, Levels: the triac, the way of the level to its
--     target, the range of the levels, the EEPROM, the relays, the reported levels.
--   LightSwitch/Passes, Tapping, Holding, Switching: a pass of the main loop, and passes over a short and
--     over a long press of the button and after a message that switches the lamp.
--   LightSwitch/Actions, Parts, Interrupts, Executions: passes, callbacks and messages cut into what they
--     write and send, interrupts in between, and a step relation on the states of the node. Apart and
--     Undisturbed take the interrupts out of an execution, and so bring what is shown of passes and
--     messages alone to executions with interrupts.
--   Motion: MotionLightWithRelay.ino, by its function names; Reports is about the messages that the main
--     loop sends, View about the newest ones, Restart about the saved state of the relay. Shared cuts a
--     pass into the writes and sends between which the timer's interrupt can come, Timed and Preempted
--     are about the reports then.
--   Presentation, Hardware: `presentation` of each sketch, and how its `setup` sets up pins and timers.
--   Tests: concrete runs.
--
-- The choices. Bytes, words and readings of the clock are native numbers, with the width of the AVR
-- written out where a value can wrap: `unsigned long` has 32 bits. A run that leaves the language (a write
-- behind an array, a read through NULL) is `none`. Loops are structural recursion on their number of
-- passes, so no fuel can run out. Calls of `log` change nothing, except that the parser hands NULL to
-- `%s`: whether `vsnprintf_P` returns then is `prints_null`, and with the laws of the C library comes that
-- it does. `strtol`, `strtoul`, the LEDs and the EEPROM are parameters; their documented behaviour is in
-- `IsDocumented`, `IsBoard` and `IsRom`, and Tests/Samples has concrete ones.
-- So are the operations of `float` that the fader uses, with `IsFloat`. The two readings of millis() in
-- one `update` are apart in LedFader; over a board they are the reading of the pass.
--
-- Where the README of the Kitchen sketch says otherwise than its code, of the short and the long press and
-- of the numbers of the commands, the code is modelled.
--
-- Not modelled: where the sketches log, but for the dump of LightSwitchAC, the radio library and the
-- other copied libraries. The division of a light reading by 10.23 is a parameter.
pub mod Base
pub mod NewButton
pub mod LedFader
pub mod Logging
pub mod Kitchen
pub mod LightSwitch
pub mod Motion
pub mod Presentation
pub mod Hardware
pub mod Tests
