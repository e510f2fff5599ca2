-- ===== src/Pipeline/Units.antt =====
-- Samples, instants and their conversions: internal/core/pipeline/track.go (`samplesFor`,
-- `durationFor`), internal/core/pipeline/mix.go (`PullStatus`) and internal/core/media.go (`PCM`).
-- An instant is a whole number of nanoseconds from the start of the source clock.
use prukka.Base.{ℕ, ◌+◌, ◌-◌, ◌*◌, ◌/◌, ◌≤◌, ◌<◌, ◌^◌, ◌≡◌, List, [], arith}
use prukka.Base.Int.{ℤ, pos}

abbrev pub Sample : Type 0
Sample = ℤ

abbrev pub silence : Sample
silence = pos 0

-- core.SampleRate, in hertz.
abbrev pub sample_rate : ℕ
sample_rate = 16000

-- time.Second, in nanoseconds.
abbrev pub second : ℕ
second = 1000000000

-- A negative duration holds no sample; here the subtraction that makes it stops at 0.
unfoldable pub samples_for : ℕ → ℕ
samples_for d = d * sample_rate / second

unfoldable pub duration_for : ℕ → ℕ
duration_for n = n * second / sample_rate

-- A sample lasts 62500 ns exactly, so an instant built from a count loses nothing.
pub duration_for_lem : (n : ℕ) → duration_for n ≡ n * 62500
unfolding duration_for
duration_for_lem n = omega arith

pub samples_for-duration_for : (n : ℕ) → samples_for (duration_for n) ≡ n
unfolding samples_for duration_for
samples_for-duration_for n = omega arith

pub duration_for-samples_for-le : (d : ℕ) → duration_for (samples_for d) ≤ d
unfolding samples_for duration_for
duration_for-samples_for-le d = omega arith

pub samples_for-lt : (d : ℕ) → d < duration_for (samples_for d) + 62500
unfolding samples_for duration_for
samples_for-lt d = omega arith

pub samples_for_mono : (a b : ℕ) → a ≤ b → samples_for a ≤ samples_for b
unfolding samples_for
samples_for_mono a b h = omega arith

pub ruleset clock_laws = (arith, duration_for_lem)

-- The result of a pull: the window, and whether there is one.
pub data PullStatus : Type 0 where
  pull_pending pull_ready pull_eof : PullStatus

pub record Pcm : Type 0 where
  pub samples : List Sample
  pub rate : ℕ
  pub ch : ℕ
  pub pts : ℕ

abbrev pub no_pcm : Pcm
no_pcm = record { samples = []; rate = 0; ch = 0; pts = 0 }
