-- ===== src/Pipeline/Mixer.antt =====
-- internal/core/pipeline/mix.go: the broadcast playout. A cursor's method runs under its mutex and is one
-- step, although it locks each track anew for each of its reads, between which the source may append; the
-- tracks and the group, which it shares, are part of the state. The levels are floats, which the
-- language gives: their type and operations are the parameter `Floats`.
pub mod Pulls
mod Tests
use prukka.Base.{
  ℕ, ◌+◌, ◌-◌, ◌*◌, ◌≤◌, ◌<◌, ◌≡◌, refl, min, max, Bool, true, false, not, ◌&&◌, ◌||◌, Option, none,
  some, List, [], ◌∷◌, ◌++◌, arith, ltb, leb, ◌==◌, if◌then◌else◌, length,
}
use prukka.Base.Int.{ℤ, pos, negsuc, abs}
use prukka.Pipeline.Units.{
  Sample, sample_rate, duration_for, PullStatus, pull_pending, pull_ready, pull_eof, Pcm, no_pcm,
}
use prukka.Pipeline.Group.{PlayoutGroup, acquire, release, seal}
use prukka.Pipeline.Track.{Track, start, due_edge, end_of, ready, reserve, window}
use prukka.Pipeline.Track

-- `to_int16` is the conversion of a float whose integral part fits.
pub record Floats : Type 1 where
  pub F : Type 0
  pub zero_f : F
  pub one_f : F
  pub of_sample : Sample → F
  pub add : F → F → F
  pub sub : F → F → F
  pub mul : F → F → F
  pub above : F → ℤ → Bool
  pub below : F → ℤ → Bool
  pub to_int16 : F → Sample

abbrev pub max_int16 : Sample
max_int16 = pos 32767

abbrev pub min_int16 : Sample
min_int16 = negsuc 32767

abbrev pub duck_threshold_s16 : ℕ
duck_threshold_s16 = 328

-- `bed_gain`, `attack` and `release_coeff` are `math.Pow` and `math.Exp` of constants and of the
-- configured level; `muted` is the level -Inf.
pub record Mixer (f : Floats) : Type 0 where
  pub bed : Track
  pub voice : Track
  pub group : PlayoutGroup
  pub bed_gain : f.F
  pub attack : f.F
  pub release_coeff : f.F
  pub muted : Bool

pub record MixCursor (f : Floats) : Type 0 where
  pub clock : ℕ
  pub gain : f.F
  pub started : Bool
  pub registered : Bool
  pub accepted : Bool
  pub released : Bool

module _ (f : Floats) where
  abbrev pub new_cursor : MixCursor f
  new_cursor = record {
    clock = 0;
    gain = f.one_f;
    started = false;
    registered = false;
    accepted = false;
    released = false;
  }

  -- `beginLocked`: whether the cursor may play, with the mixer and the cursor after it.
  unfoldable pub begin_locked : Mixer f → MixCursor f → Bool × Mixer f × MixCursor f
  unfolding acquire Track.acquire_playout
  begin_locked m c =
      let (g, joined) = acquire m.group in
      let voice = if joined then Track.acquire_playout m.voice else m.voice in
      if c.registered then (c.accepted && not c.released, m, c) else (
        joined && not c.released,
        record m { group = g; voice = voice },
        record c { registered = true; accepted = joined },
      )

  unfoldable pub begin_playout : Mixer f → MixCursor f → Bool × Mixer f × MixCursor f
  unfolding begin_locked
  begin_playout m c = begin_locked m c

  -- `WaitPlayout`, until it waits on the channel.
  unfoldable pub wait_playout : Mixer f → Option (Mixer f)
  unfolding seal
  wait_playout m = elim (seal m.group) [ none ↦ none | some g ↦ some (record m { group = g }) ]

  -- `ReleasePlayout`; `none` is a panic on the group's channel.
  unfoldable pub release_playout : Mixer f → MixCursor f → Option (Mixer f × MixCursor f)
  unfolding release Track.release_playout
  release_playout m c =
      if not c.registered || not c.accepted || c.released
      then some (m, c)
      else (elim (release m.group) [
        | none ↦ none
        | some g ↦ some (
          record m { group = g; voice = Track.release_playout m.voice },
          record c { released = true },
        )
      ])

  -- The end of a timeline whose tracks are both finished.
  unfoldable pub finite_end : Mixer f → Option ℕ
  unfolding end_of
  finite_end m =
      if m.bed.finished && m.voice.finished
      then some (max (end_of m.bed) (end_of m.voice))
      else none

  unfoldable pub align_playout_clock : ℕ → ℕ → ℕ → Mixer f → MixCursor f → MixCursor f
  unfolding due_edge duration_for
  align_playout_clock now begin n m c =
      if c.started then record c { clock = max c.clock begin } else record c {
        clock = elim (due_edge now m.bed) [
          | none ↦ begin
          | some edge ↦ max begin (edge - duration_for n)
        ];
        started = true;
      }

  -- One sample of `mixInto`, and the gain after it.
  unfoldable pub mix_sample : Mixer f → f.F → Sample → Sample → Sample × f.F
  mix_sample m gain b v =
      let speaking = leb duck_threshold_s16 (abs v) in
      let target = if speaking then m.bed_gain else f.one_f in
      let coeff = if speaking then m.attack else m.release_coeff in
      let gain' = f.add gain (f.mul (f.sub target gain) coeff) in
      let mixed = f.add (f.mul (f.of_sample b) gain') (f.of_sample v) in
      (
        if f.above mixed max_int16
            then max_int16
            else (if f.below mixed min_int16 then min_int16 else f.to_int16 mixed),
        gain',
      )

  -- The loop of `mixInto`; the bed and the voice have the length of the window.
  unfoldable pub mix_loop : Mixer f → f.F → List Sample → List Sample → List Sample × f.F
  unfolding mix_sample
  mix_loop m gain bed [] = ([], gain)
  mix_loop m gain [] (v ∷ vox) = ([], gain)
  mix_loop m gain (b ∷ bed) (v ∷ vox) =
      let (s, gain') = mix_sample m gain b v in
      let (rest, last) = mix_loop m gain' bed vox in (s ∷ rest, last)

  unfoldable pub mix_into : Mixer f → f.F → List Sample → List Sample → List Sample × f.F
  unfolding mix_loop
  mix_into m gain bed vox = if m.muted then (vox, gain) else mix_loop m gain bed vox

  unfoldable pub render : ℕ → Mixer f → MixCursor f → Mixer f × MixCursor f × Pcm
  unfolding mix_into reserve window duration_for
  render n m c =
      let voice = reserve (c.clock + duration_for n) m.voice in
      let (out, gain) = mix_into m c.gain (window c.clock n m.bed) (window c.clock n voice) in
      (
        record m { voice = voice },
        record c { clock = c.clock + duration_for n; gain = gain },
        record { samples = out; rate = sample_rate; ch = 1; pts = c.clock },
      )

  -- `NextInto` of a cursor that may play, once the bed has a start.
  unfoldable pub pull_from :
      ℕ → ℕ → Mixer f → MixCursor f → Mixer f × MixCursor f × Pcm × PullStatus
  unfolding finite_end ready render end_of
  pull_from now n m c =
      let voice_end = if m.bed.finished then end_of m.voice else 0 in
      let over : Bool = elim (finite_end m) [ none ↦ false | some e ↦ leb e c.clock ] in
      let (m', c', pcm) = render n m c in
      if over
      then (m, c, no_pcm, pull_eof)
      else if not (ready now c.clock n voice_end m.bed)
      then (m, c, no_pcm, pull_pending)
      else (m', c', pcm, pull_ready)

  unfoldable pub pull_started :
      ℕ → ℕ → Mixer f → MixCursor f → Mixer f × MixCursor f × Pcm × PullStatus
  unfolding start align_playout_clock pull_from finite_end
  pull_started now n m c = elim (start m.bed) [
    | none ↦ (m, c, no_pcm, elim (finite_end m) [ none ↦ pull_pending | some _ ↦ pull_eof ])
    | some begin ↦ pull_from now n m (align_playout_clock now begin n m c)
  ]

  unfoldable pub next_into :
      ℕ → ℕ → Mixer f → MixCursor f → Mixer f × MixCursor f × Pcm × PullStatus
  unfolding begin_locked pull_started
  next_into now n m c =
      let (plays, m', c') = begin_locked m c in
      if plays then pull_started now n m' c' else (m', c', no_pcm, pull_eof)
