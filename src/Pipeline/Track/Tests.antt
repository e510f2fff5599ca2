-- ===== src/Pipeline/Track/Tests.antt =====
-- Appends to the track of internal/core/pipeline/track.go, and its theorems at concrete tracks.
use prukka.Base.{
  ℕ, ◌+◌, ◌*◌, ◌≤◌, ◌≡◌, refl, true, false, List, [], ◌∷◌, ◌++◌, arith, length, replicate,
}
use prukka.Base.Int.{pos}
use prukka.Pipeline.Units.{Sample, silence, duration_for, samples_for}
use prukka.Pipeline.Track.{Track, append, window, track_keep, track_slack}
use prukka.Pipeline.Track.Timeline.{Laid}
use prukka.Pipeline.Track.Append.{append-Laid}
use prukka.Pipeline.Track.Window.{window-append}
use prukka.Pipeline.Track.Trim.{append-bounded}

abbrev words : List Sample
words = pos 1 ∷ pos 2 ∷ pos 3 ∷ []

-- Three samples from the first millisecond on, of which one consumer has rendered two.
abbrev spoken : Track
spoken = record {
  anchored_at = 5;
  buf = words;
  base = 1000000;
  first = 1000000;
  floor = 1125000;
  delay = 0;
  consumers = 1;
  configured = true;
  finished = false;
}

abbrev idle : Track
idle = record spoken { consumers = 0 }

spoken-Laid : Laid spoken words 0
unfolding duration_for
spoken-Laid = record { within = omega arith; contents = refl; stamped = refl; alive = refl }

-- A take that overlaps what was laid moves to its end; a later one leaves a gap.
appended :
    append 9 1000000 (pos 4 ∷ []) spoken ≡ (record spoken { buf = words ++ (pos 4 ∷ []) }, 1187500)
unfolding append
appended = refl

append-Laid_example :
    (k' gap : ℕ) × Laid
      (append 9 1312500 (pos 4 ∷ []) spoken).0
      (words ++ (replicate gap silence ++ (pos 4 ∷ [])))
      k'
    × (0 ≤ k')
    × ((append 9 1312500 (pos 4 ∷ []) spoken).1
        ≡ (append 9 1312500 (pos 4 ∷ []) spoken).0.first + duration_for (length words + gap))
append-Laid_example = append-Laid 9 1312500 (pos 4 ∷ []) spoken words 0 spoken-Laid

-- The consumer's window starts and the floor stands between two samples.
abbrev off_grid : Track
off_grid = record spoken { floor = 1140000 }

off_grid-Laid : Laid off_grid words 0
unfolding duration_for
off_grid-Laid = record { within = omega arith; contents = refl; stamped = refl; alive = refl }

window-append_example :
    window 1070000 2 (append 9 1000000 (pos 4 ∷ []) off_grid).0 ≡ window 1070000 2 off_grid
unfolding append samples_for
window-append_example =
    window-append 9 1000000 (pos 4 ∷ []) off_grid words 0 1070000 2 off_grid-Laid refl (omega arith)
      (omega arith)

append-bounded_example :
    length (append 9 1000000 (pos 4 ∷ []) idle).0.buf * 62500 ≤ track_keep + track_slack + 0
append-bounded_example = append-bounded 9 1000000 (pos 4 ∷ []) idle refl
