-- ===== src/Hls/Overlay/Stays.antt =====
-- internal/media/egress/hls/overlay.go: what the timers of earlier cues do to the cue that is shown.
use prukka.Base.{ℕ, ◌+◌, ◌≤◌, ◌<◌, ◌≡◌, ◌⊎◌, List, [], ◌∷◌, if◌then◌else◌, ◌==◌, Text, All}
use prukka.Hls.Overlay.{Timer, LiveCue}

-- Every timer belongs to a generation that has begun.
abbrev pub IsArmed : LiveCue → Type 0
IsArmed c = All (λ (t : Timer). t.gen ≤ c.gen) c.timers

abbrev tick : ℕ → Timer → ℕ
tick g t = if t.gen == g then 1 else 0

-- How many timers a generation has left.
abbrev pub own : ℕ → List Timer → ℕ
own g [] = 0
own g (t ∷ ts) = tick g t + own g ts

-- The cue of a generation stays until its own clear: that is the only timer that the generation has.
pub record Held (g : ℕ) (text : Text) (c : LiveCue) : Type 0 where
  pub current : c.gen ≡ g
  pub clears : All (λ (t : Timer). (t.gen < g) ⊎ (t.text ≡ [])) c.timers
  pub single : own g c.timers ≤ 1
  pub file : (c.file ≡ text) ⊎ ((c.file ≡ []) × (own g c.timers ≡ 0))
