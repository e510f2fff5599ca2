-- ===== src/Pipeline/Mixer/Tests.antt =====
-- Pulls of the mixer of internal/core/pipeline/mix.go, with whole numbers for its floats.
use prukka.Base.{◌≡◌, refl, Bool, false, List, [], ◌∷◌, ltb}
use prukka.Base.Int.{ℤ, pos, sub_ℕ, pos_part, neg_part}
use prukka.Pipeline.Units.{Sample, pull_ready, sample_rate, samples_for}
use prukka.Pipeline.Group.{new_group}
use prukka.Pipeline.Track.{Track}
use prukka.Pipeline.Mixer.{Floats, Mixer, new_cursor, next_into}
use prukka.Pipeline.Mixer.Pulls.{IsFresh, IsPull, next_into-IsPull}
use Prim.Native.Nat.{◌+◌, ◌*◌}

abbrev add_ℤ : ℤ → ℤ → ℤ
add_ℤ a b = sub_ℕ (pos_part a + pos_part b) (neg_part a + neg_part b)

abbrev neg_ℤ : ℤ → ℤ
neg_ℤ a = sub_ℕ (neg_part a) (pos_part a)

abbrev mul_ℤ : ℤ → ℤ → ℤ
mul_ℤ a b =
    sub_ℕ (pos_part a * pos_part b + neg_part a * neg_part b)
      (pos_part a * neg_part b + neg_part a * pos_part b)

abbrev lt_ℤ : ℤ → ℤ → Bool
lt_ℤ a b = ltb (pos_part a + neg_part b) (pos_part b + neg_part a)

-- Levels are whole: the bed is either at full level or silent.
abbrev whole : Floats
whole = record {
  F = ℤ;
  zero_f = pos 0;
  one_f = pos 1;
  of_sample = λ s. s;
  add = add_ℤ;
  sub = λ a b. add_ℤ a (neg_ℤ b);
  mul = mul_ℤ;
  above = λ a b. lt_ℤ b a;
  below = lt_ℤ;
  to_int16 = λ s. s;
}

abbrev track_of : List Sample → Track
track_of samples = record {
  anchored_at = 0;
  buf = samples;
  base = 0;
  first = 0;
  floor = 0;
  delay = 0;
  consumers = 0;
  configured = false;
  finished = false;
}

abbrev studio : Mixer whole
studio = record {
  bed = track_of (pos 100 ∷ pos 200 ∷ pos 32000 ∷ []);
  voice = track_of (pos 1 ∷ pos 400 ∷ pos 200 ∷ []);
  group = new_group;
  bed_gain = pos 0;
  attack = pos 1;
  release_coeff = pos 1;
  muted = false;
}

fresh : IsFresh whole (new_cursor whole)
fresh = record { at_rest = λ _. refl }

-- The bed is ducked under the second sample; the level follows at once.
first_window :
    ((next_into whole 7 3 studio (new_cursor whole)).2 ≡ record {
      samples = pos 101 ∷ pos 400 ∷ pos 32200 ∷ [];
      rate = sample_rate;
      ch = 1;
      pts = 0;
    })
    × ((next_into whole 7 3 studio (new_cursor whole)).0.voice.floor ≡ 187500)
unfolding next_into new_group samples_for
first_window = (refl, refl)

is_ready : (next_into whole 7 3 studio (new_cursor whole)).3 ≡ pull_ready
unfolding next_into new_group
is_ready = refl

next_into-IsPull_example :
    IsPull whole (new_cursor whole) (next_into whole 7 3 studio (new_cursor whole))
next_into-IsPull_example = next_into-IsPull whole 7 3 studio (new_cursor whole) fresh
