-- ===== src/Motion/Timed.antt =====
-- Reports of the MotionLightWithRelay sketch with the timer's interrupt in the middle of the passes.
use smarthouse_arduino.Base.{
  ℕ, ◌≡◌, ◌⊎◌, inl, inr, refl, sym, ap, ◌∙◌, subst, Bool, List, [], ◌∷◌, arith,
}
use smarthouse_arduino.Motion.{Platform, Inputs}
use smarthouse_arduino.Motion.Reports.{level}
use smarthouse_arduino.Motion.Shared.{
  Kind, of_motion, of_light, Action, set_motion, set_light, load, transmit, ask_relay, set_button,
  Step, Interleaved, over, act_next, tick_next, Shared, actions, act, acts, interrupt, run_steps,
}
use smarthouse_arduino.Motion.View.{newest_motion, newest_light}

-- What an action does for the reports of a kind.
pub data Role : Type 0 where
  sets loads sends other : Role

abbrev pub role : Kind → Action → Role
role of_motion (set_motion x) = sets
role of_light (set_light x) = sets
role of_motion (load of_motion) = loads
role of_light (load of_light) = loads
role of_motion (transmit of_motion) = sends
role of_light (transmit of_light) = sends
role _ _ = other

abbrev pub first_of : Role → Role → Role
first_of other r = r
first_of r _ = r

-- The role of the next action that has one.
abbrev pub next : Kind → List Action → Role
next k [] = other
next k (a ∷ todo) = first_of (role k a) (next k todo)

abbrev pub Follows : Role → Role → Type 0
Follows sets r = r ≡ loads
Follows loads r = r ≡ sends
Follows sends r = (r ≡ sets) ⊎ (r ≡ other)
Follows other r = Unit {0}

-- A variable that is set is loaded next, and then sent.
abbrev pub Paired : Kind → List Action → Type 0
Paired k [] = Unit {0}
Paired k (a ∷ todo) = Follows (role k a) (next k todo) × Paired k todo

abbrev pub Value : Kind → Type 0
Value of_motion = Bool
Value of_light = ℕ

-- The value a variable has after an action, and after all of them.
abbrev pub assign : (k : Kind) → Action → Value k → Value k
assign of_motion (set_motion x) _ = x
assign of_light (set_light x) _ = x
assign of_motion _ x = x
assign of_light _ x = x

abbrev pub assigned : (k : Kind) → List Action → Value k → Value k
assigned k [] x = x
assigned k (a ∷ todo) x = assigned k todo (assign k a x)

module _ {p : Platform} where
  -- The variable of a kind, the payload of its message, and its newest report.
  abbrev pub variable : (k : Kind) → Shared p → Value k
  variable of_motion s = s.node.movement_detected
  variable of_light s = s.node.light_level

  abbrev pub payload : (k : Kind) → Shared p → Value k
  payload of_motion s = s.msg_mot
  payload of_light s = s.msg_light

  abbrev pub reported : (k : Kind) → Shared p → Value k
  reported of_motion s = newest_motion s.node.sent
  reported of_light s = newest_light s.node.sent

  -- What holds before an action of a role, and at the end.
  abbrev pub Before : Kind → Role → Shared p → Type 0
  Before k sets s = reported k s ≡ variable k s
  Before k loads s = Unit {0}
  Before k sends s = payload k s ≡ variable k s
  Before k other s = reported k s ≡ variable k s

  abbrev Same : Kind → Shared p → Shared p → Type 0
  Same k s t =
      (reported k t ≡ reported k s) × ((variable k t ≡ variable k s) × (payload k t ≡ payload k s))

  -- What an action of a role does to a state `s` with the result `t`.
  abbrev Does : Kind → Role → Shared p → Shared p → Type 0
  Does k sets s t = Unit {0}
  Does k loads s t = payload k t ≡ variable k t
  Does k sends s t = payload k s ≡ variable k s → reported k t ≡ variable k t
  Does k other s t = Same k s t

  act-Does :
      (k : Kind) (a : Action) (s : Shared p)
      → Does k (role k a) s (act p a s) × (variable k (act p a s) ≡ assign k a (variable k s))
  unfolding act
  act-Does of_motion (set_motion x) s = (tt, refl)
  act-Does of_motion (set_light x) s = ((refl, (refl, refl)), refl)
  act-Does of_motion (load of_motion) s = (refl, refl)
  act-Does of_motion (load of_light) s = ((refl, (refl, refl)), refl)
  act-Does of_motion (transmit of_motion) s = (λ h. h, refl)
  act-Does of_motion (transmit of_light) s = ((refl, (refl, refl)), refl)
  act-Does of_motion ask_relay s = ((refl, (refl, refl)), refl)
  act-Does of_motion (set_button x) s = ((refl, (refl, refl)), refl)
  act-Does of_light (set_motion x) s = ((refl, (refl, refl)), refl)
  act-Does of_light (set_light x) s = (tt, refl)
  act-Does of_light (load of_motion) s = ((refl, (refl, refl)), refl)
  act-Does of_light (load of_light) s = (refl, refl)
  act-Does of_light (transmit of_motion) s = ((refl, (refl, refl)), refl)
  act-Does of_light (transmit of_light) s = (λ h. h, refl)
  act-Does of_light ask_relay s = ((refl, (refl, refl)), refl)
  act-Does of_light (set_button x) s = ((refl, (refl, refl)), refl)

  Same-Before : (k : Kind) (r : Role) (s t : Shared p) → Same k s t → Before k r s → Before k r t
  Same-Before k sets s t (x, (y, z)) h = cc (x, y, h)
  Same-Before k loads s t _ h = h
  Same-Before k sends s t (x, (y, z)) h = cc (z, y, h)
  Same-Before k other s t (x, (y, z)) h = cc (x, y, h)

  interrupt-Before : (k : Kind) (r : Role) (s : Shared p) → Before k r (interrupt p s)
  unfolding interrupt acts act
  interrupt-Before of_motion sets s = refl
  interrupt-Before of_light sets s = refl
  interrupt-Before k loads s = tt
  interrupt-Before of_motion sends s = refl
  interrupt-Before of_light sends s = refl
  interrupt-Before of_motion other s = refl
  interrupt-Before of_light other s = refl

  Does-Before :
      (k : Kind) (q r : Role) (s t : Shared p)
      → Does k q s t
      → Follows q r
      → Before k (first_of q r) s
      → Before k r t
  Does-Before k sets r s t d f h = subst (λ r'. Before k r' t) (sym f) tt
  Does-Before k loads r s t d f h = subst (λ r'. Before k r' t) (sym f) d
  Does-Before k sends r s t d (inl f) h = subst (λ r'. Before k r' t) (sym f) (d h)
  Does-Before k sends r s t d (inr f) h = subst (λ r'. Before k r' t) (sym f) (d h)
  Does-Before k other r s t d f h = Same-Before k r s t d h

  pub run_steps-Before :
      (k : Kind) {todo : List Action} {ss : List Step}
      → Interleaved todo ss
      → (s : Shared p) → Paired k todo
      → Before k (next k todo) s
      → Before k other (run_steps p ss s)
  unfolding run_steps
  run_steps-Before k over s o h = h
  run_steps-Before k (act_next {todo} a w) s (f, o) h =
      run_steps-Before k w (act p a s) o
        (Does-Before k (role k a) (next k todo) s (act p a s) (act-Does k a s).0 f h)
  run_steps-Before k {todo} (tick_next w) s o h =
      run_steps-Before k w (interrupt p s) o (interrupt-Before k (next k todo) s)

  pub run_steps-variable :
      (k : Kind) {todo : List Action} {ss : List Step}
      → Interleaved todo ss
      → (s : Shared p) → variable k (run_steps p ss s) ≡ assigned k todo (variable k s)
  unfolding run_steps interrupt acts act
  run_steps-variable k over s = refl
  run_steps-variable k (act_next {todo} a w) s =
      run_steps-variable k w (act p a s) ∙ ap (assigned k todo) (act-Does k a s).1
  run_steps-variable of_motion (tick_next w) s = run_steps-variable of_motion w (interrupt p s)
  run_steps-variable of_light (tick_next w) s = run_steps-variable of_light w (interrupt p s)

  pub actions-Paired : (k : Kind) (i : Inputs) (s : Shared p) → Paired k (actions p i s.node)
  unfolding actions
  actions-Paired of_motion i s = ground arith
  actions-Paired of_light i s = ground arith

  pub actions-Before :
      (k : Kind) (i : Inputs) (s : Shared p)
      → Before k other s
      → Before k (next k (actions p i s.node)) s
  unfolding actions
  actions-Before of_motion i s h = ground (arith, h)
  actions-Before of_light i s h = ground (arith, h)

  pub actions-motion :
      (i : Inputs) (s : Shared p)
      → assigned of_motion (actions p i s.node) s.node.movement_detected ≡ i.movement
  unfolding actions
  actions-motion i s = ground arith

  pub actions-light :
      (i : Inputs) (s : Shared p)
      → assigned of_light (actions p i s.node) s.node.light_level ≡ level p i
  unfolding actions
  actions-light i s = ground arith
