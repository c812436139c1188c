-- ===== src/Kitchen/Outcomes.antt =====
-- What passes of the Kitchen main loop do to its globals: nothing, a long press or a short one.
use smarthouse_arduino.Base.{◌≡◌, refl, ap, ◌∙◌, Bool, ◌++◌, if◌then◌else◌}
use smarthouse_arduino.Kitchen.Board.{Board, IsBoard}
use smarthouse_arduino.Kitchen.Presses.{Shows, AllAtRest, part_of, next, reports, switch_reports}
use smarthouse_arduino.Kitchen.State.{Kitchen}
use smarthouse_arduino.Kitchen.Types.{Rgbw, no_color}

module _ {b : Board} (doc : IsBoard b) where
  -- LEDs at rest at a colour, with no transition.
  pub record Settled (c : Rgbw) (s : Kitchen b) : Type 0 where
    pub shown : Shows doc c s
    pub at_rest : AllAtRest doc s

  -- What passes without calls keep.
  pub record Kept (s s' : Kitchen b) : Type 0 where
    pub shows : (c : Rgbw) → Shows doc c s → Shows doc c s'
    pub settled : (c : Rgbw) → Settled c s → Settled c s'
    pub same_mode : s'.button_mode ≡ s.button_mode
    pub same_storage : s'.storage ≡ s.storage
    pub same_sent : s'.sent ≡ s.sent

  pub Kept-refl : (s : Kitchen b) → Kept s s
  Kept-refl s = record {
    shows = λ c h. h;
    settled = λ c h. h;
    same_mode = refl;
    same_storage = refl;
    same_sent = refl;
  }

  pub Kept-trans : (s s' s'' : Kitchen b) → Kept s s' → Kept s' s'' → Kept s s''
  Kept-trans s s' s'' k k' = record {
    shows = λ c h. k'.shows c (k.shows c h);
    settled = λ c h. k'.settled c (k.settled c h);
    same_mode = k'.same_mode ∙ k.same_mode;
    same_storage = k'.same_storage ∙ k.same_storage;
    same_sent = k'.same_sent ∙ k.same_sent;
  }

  -- What a long press does: the part of the stored colour, the next mode, and what is told.
  pub record Cycled (s s' : Kitchen b) : Type 0 where
    pub cycled_shows : Shows doc (part_of s.button_mode s.storage.button_colors) s'
    pub cycled_mode : s'.button_mode ≡ next s.button_mode
    pub cycled_storage : s'.storage ≡ s.storage
    pub cycled_sent : s'.sent ≡ reports s.button_mode ++ s.sent

  -- What a short press does that switches all LEDs on or off.
  pub record Switched (on : Bool) (s s' : Kitchen b) : Type 0 where
    pub switched_shows : Shows doc (if on then s.storage.button_colors else no_color) s'
    pub switched_mode : s'.button_mode ≡ s.button_mode
    pub switched_storage : s'.storage ≡ s.storage
    pub switched_sent : s'.sent ≡ switch_reports on ++ s.sent

  pub Kept-Cycled : (s s' s'' : Kitchen b) → Kept s s' → Cycled s' s'' → Cycled s s''
  Kept-Cycled s s' s'' k d = record {
    cycled_shows = rw (← k.same_mode, ← k.same_storage) d.cycled_shows;
    cycled_mode = d.cycled_mode ∙ ap next k.same_mode;
    cycled_storage = d.cycled_storage ∙ k.same_storage;
    cycled_sent = rw (← k.same_mode, ← k.same_sent) d.cycled_sent;
  }

  pub Cycled-Kept : (s s' s'' : Kitchen b) → Cycled s s' → Kept s' s'' → Cycled s s''
  Cycled-Kept s s' s'' d k = record {
    cycled_shows = k.shows _ d.cycled_shows;
    cycled_mode = k.same_mode ∙ d.cycled_mode;
    cycled_storage = k.same_storage ∙ d.cycled_storage;
    cycled_sent = k.same_sent ∙ d.cycled_sent;
  }

  pub Kept-Switched :
      (on : Bool) (s s' s'' : Kitchen b) → Kept s s' → Switched on s' s'' → Switched on s s''
  Kept-Switched on s s' s'' k d = record {
    switched_shows = rw (← k.same_storage) d.switched_shows;
    switched_mode = d.switched_mode ∙ k.same_mode;
    switched_storage = d.switched_storage ∙ k.same_storage;
    switched_sent = rw (← k.same_sent) d.switched_sent;
  }

  pub Switched-Kept :
      (on : Bool) (s s' s'' : Kitchen b) → Switched on s s' → Kept s' s'' → Switched on s s''
  Switched-Kept on s s' s'' d k = record {
    switched_shows = k.shows _ d.switched_shows;
    switched_mode = k.same_mode ∙ d.switched_mode;
    switched_storage = k.same_storage ∙ d.switched_storage;
    switched_sent = k.same_sent ∙ d.switched_sent;
  }
