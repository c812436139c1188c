-- ===== src/Tests/ParsingTests.antt =====
-- Payloads of the sketch's unit tests and README.
use smarthouse_arduino.Base.{
  codes, ℕ, ◌≡◌, ◌≢◌, ◌⊎◌, ◌↔◌, refl, inl, inr, true, false, none, some, arith,
}
use smarthouse_arduino.Kitchen.Parsing.{
  CommandData, no_command, hex_to_byte, string_to_white, scan, parse_command_string,
}
use smarthouse_arduino.Kitchen.Parsing.Payloads.{limit_payload, transition_payload}
use smarthouse_arduino.Kitchen.Parsing.Accept.{
  parse_command-limit, parse_command-transition, overflow_disables_parser,
}
use smarthouse_arduino.Kitchen.Parsing.Command.{
  string_to_rgb, string_to_rgbw, parse_cmd_set_limit, dispatch_command, parse_command,
}
use smarthouse_arduino.Kitchen.Parsing.Errno.{parse_command_poisoned}
use smarthouse_arduino.Kitchen.Parsing.Reject.{IsWellFormed, parse_command-IsWellFormed}
use smarthouse_arduino.Kitchen.Parsing.Refine.{read_command, parse_command-read}
use smarthouse_arduino.Kitchen.Parsing.Scan.{split}
use smarthouse_arduino.Kitchen.Parsing.Split.{Overflows, parse_command_string-none}
use smarthouse_arduino.Kitchen.Parsing.Text.{shown, erange}
use smarthouse_arduino.Kitchen.Types.{color, white, no_color}
use smarthouse_arduino.Tests.Samples.{orange, teal, digits_stdlib, digits_stdlib-IsDocumented}

-- "0,54FF77" of ParsingTests.cpp.
parses_color_limit :
    parse_command digits_stdlib (some (codes "0,54FF77")) color 0
    ≡ some (
      record {
        command = b'0';
        transition = record {
          start = record { r = 0x54; g = 0xff; b = 0x77; w = 0 };
          stop = no_color;
          time = 0;
          is_loop = false;
        };
      },
      0,
    )
unfolding parse_command parse_command_string scan dispatch_command parse_cmd_set_limit
    string_to_rgbw string_to_rgb hex_to_byte
parses_color_limit = refl

-- "0,544" of ParsingTests.cpp, for the white LED.
rejects_long_white :
    parse_command digits_stdlib (some (codes "0,544")) white 0 ≡ some (no_command, 0)
unfolding parse_command parse_command_string scan dispatch_command parse_cmd_set_limit
    string_to_rgbw string_to_white
rejects_long_white = refl

-- Five fields do not fit.
overflows_fields : parse_command_string (some (codes "2,a,b,c,d,e")) ≡ none
unfolding parse_command_string scan
overflows_fields = refl

parse_command-read_example :
    parse_command digits_stdlib (some (codes "2,00ff00,0000ff,500")) color 0
    ≡ some (read_command digits_stdlib b'2' color (split (codes "00ff00,0000ff,500")) 0)
parse_command-read_example =
    parse_command-read digits_stdlib b'2' (codes "00ff00,0000ff,500") color 0 (omega arith)
      (omega arith) (omega arith) (omega arith)

parse_command-limit_example :
    parse_command digits_stdlib (some (limit_payload b'1' color orange)) color 0
    ≡ some (
      record {
        command = b'1';
        transition = record {
          start = shown color orange;
          stop = no_color;
          time = 0;
          is_loop = false;
        };
      },
      0,
    )
parse_command-limit_example =
    parse_command-limit digits_stdlib b'1' color orange digits_stdlib-IsDocumented (inr refl)
      (omega arith)

parse_command-transition_example :
    parse_command digits_stdlib
      (some (transition_payload b'3' color orange teal (codes "1500")))
      color
      0
    ≡ some (
      record {
        command = b'3';
        transition = record {
          start = shown color orange;
          stop = shown color teal;
          time = 1500;
          is_loop = true;
        };
      },
      0,
    )
parse_command-transition_example =
    parse_command-transition digits_stdlib b'3' true color orange teal (codes "1500")
      digits_stdlib-IsDocumented (inr (refl, refl)) (omega arith) (omega arith) (omega arith)
      (omega arith) (omega arith) (omega arith)

rejected_later :
    parse_command digits_stdlib (some (codes "0,54")) white erange ≡ some (no_command, erange)
unfolding parse_command parse_command_string scan dispatch_command parse_cmd_set_limit
    string_to_rgbw string_to_white hex_to_byte
rejected_later = refl

overflow_disables_parser_example :
    (parse_command digits_stdlib
        (some (transition_payload b'2' white orange teal (codes "4294967296")))
        white
        0
      ≡ some (no_command, erange))
    × (no_command ≡ no_command)
    × (erange ≢ 0)
overflow_disables_parser_example =
    overflow_disables_parser digits_stdlib b'2' false white orange teal (codes "4294967296")
      digits_stdlib-IsDocumented (inl (refl, refl)) (omega arith) (omega arith) (omega arith)
      (omega arith) (omega arith) (some (codes "0,54")) white (no_command, erange) rejected_later

parse_command_poisoned_example : (no_command ≡ no_command) × (erange ≢ 0)
parse_command_poisoned_example =
    parse_command_poisoned digits_stdlib (some (codes "0,54")) white erange
      {o = (no_command, erange)} digits_stdlib-IsDocumented.never_clears (omega arith)
      rejected_later

abbrev white_limit : CommandData
white_limit = record {
  command = b'1';
  transition = record {
    start = record { r = 0; g = 0; b = 0; w = 0x54 };
    stop = no_color;
    time = 0;
    is_loop = false;
  };
}

parses_white_limit :
    parse_command digits_stdlib (some (codes "1,54")) white 0 ≡ some (white_limit, 0)
unfolding parse_command parse_command_string scan dispatch_command parse_cmd_set_limit
    string_to_rgbw string_to_white hex_to_byte
parses_white_limit = refl

parse_command-IsWellFormed_example :
    (white_limit ≡ no_command) ⊎ (IsWellFormed white_limit × (◌≡◌ {A = ℕ} 0 0))
parse_command-IsWellFormed_example =
    parse_command-IsWellFormed digits_stdlib (some (codes "1,54")) white 0 0 white_limit
      parses_white_limit

parse_command_string-none_example :
    (parse_command_string (some (codes "2,a,b,c,d,e")) ≡ none) ↔ Overflows (codes "2,a,b,c,d,e")
parse_command_string-none_example = parse_command_string-none (codes "2,a,b,c,d,e")
