-- ===== src/Hls/Overlay.antt =====
-- internal/media/egress/hls/overlay.go: the text file of the current cue. A time is counted from the
-- overlay's anchor; a timer's function is one step, taken when it gets the lock. One that gets it after
-- Close finds the overlay closed and does nothing. `can_show` says which writes of the file succeed; one
-- that fails is logged and leaves the file as it was.
pub mod Stays
use prukka.Base.{
  ℕ, zero, suc, ◌+◌, ◌*◌, ◌≤◌, ◌<◌, ◌≡◌, ◌⊎◌, refl, sym, subst, ◌∙◌, Bool, true, false, ◌||◌, not,
  Option, none, some, List, [], ◌∷◌, ◌++◌, if◌then◌else◌, leb, ◌==◌, if-split, inl, inr, arith,
  Text, join_at, All, All-append, All-get, Option-cases, get_elem?, take, drop,
}
use prukka.Captions.{Cue}

pub record Timer : Type 0 where
  pub id : ℕ
  pub at : ℕ
  pub gen : ℕ
  pub text : Text

pub record LiveCue : Type 0 where
  pub timers : List Timer
  pub gen : ℕ
  pub closed : Bool
  pub file : Text

abbrev pub new_live_cue : LiveCue
new_live_cue = record { timers = []; gen = 0; closed = false; file = [] }

abbrev pub shown_text : Cue → Text
shown_text cue = join_at 10 cue.lines

module _ (can_show : Text → Bool) where
  unfoldable pub write : LiveCue → Text → LiveCue
  write c text = if can_show text then record c { file = text } else c

  -- Schedule, past its guards, for the generation that it starts.
  unfoldable pub arm : LiveCue → ℕ → Cue → ℕ → LiveCue
  unfolding write
  arm c now cue gen =
      let clear : Timer = record { id = gen * 2 + 1; at = cue.end; gen = gen; text = [] } in
      let show : Timer = record {
        id = gen * 2;
        at = cue.start;
        gen = gen;
        text = shown_text cue;
      } in
      if leb cue.start now
      then write (record c { gen = gen; timers = c.timers ++ (clear ∷ []) }) (shown_text cue)
      else record c { gen = gen; timers = c.timers ++ (show ∷ clear ∷ []) }

  unfoldable pub schedule : LiveCue → ℕ → Cue → LiveCue
  unfolding arm
  schedule c now cue = if c.closed || leb cue.end now then c else arm c now cue (c.gen + 1)

  unfoldable pub owned : LiveCue → ℕ → Text → LiveCue
  unfolding write
  owned c gen text = if c.closed || not (gen == c.gen) then c else write c text

  unfoldable pub fire_timer : LiveCue → ℕ → Option Timer → LiveCue
  unfolding owned
  fire_timer c i none = c
  fire_timer c i (some t) =
      owned (record c { timers = take i c.timers ++ drop (suc i) c.timers }) t.gen t.text

  -- The function of the timer at a place of the list, which removes it.
  unfoldable pub fire_at : LiveCue → ℕ → LiveCue
  unfolding fire_timer
  fire_at c i = fire_timer c i (get_elem? c.timers i)

unfoldable pub close : LiveCue → LiveCue
close c = record c { closed = true; timers = [] }

-- What happens between two calls of Schedule.
pub data Event : Type 0 where
  fired : ℕ → Event
  closing : Event

unfoldable pub after_events : (Text → Bool) → List Event → LiveCue → LiveCue
unfolding fire_at close
after_events can_show [] c = c
after_events can_show (fired i ∷ es) c = after_events can_show es (fire_at can_show c i)
after_events can_show (closing ∷ es) c = after_events can_show es (close c)
