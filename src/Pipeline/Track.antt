-- ===== src/Pipeline/Track.antt =====
-- internal/core/pipeline/track.go: one language's audio on the source clock. Each method runs under the
-- track's mutex and is one step. The reading of the clock is an argument; instants are at least 0.
-- `t.buf == nil` is the empty buffer: a buffer that holds samples is never emptied again (`trim` keeps
-- thirty seconds at least).
pub mod Timeline
pub mod Append
pub mod Window
pub mod Trim
mod Tests
use prukka.Base.{
  ℕ, zero, suc, ◌+◌, ◌-◌, ◌*◌, ◌≤◌, ◌<◌, ◌≡◌, refl, min, max, Bool, true, false, not, ◌&&◌, ◌||◌,
  Option, none, some, List, [], ◌∷◌, ◌++◌, arith, ltb, leb, ◌==◌, if◌then◌else◌, length, take, drop,
  replicate, is_empty,
}
use prukka.Pipeline.Units.{Sample, silence, second, samples_for, duration_for}

abbrev pub track_keep : ℕ
track_keep = 30 * second

abbrev pub track_slack : ℕ
track_slack = 15 * second

-- 300 ms.
abbrev pub playout_cushion : ℕ
playout_cushion = 300000000

pub record Track : Type 0 where
  pub anchored_at : ℕ
  pub buf : List Sample
  pub base : ℕ
  pub first : ℕ
  pub floor : ℕ
  pub delay : ℕ
  pub consumers : ℕ
  pub configured : Bool
  pub finished : Bool

unfoldable pub new_track : Track
new_track = record {
  anchored_at = 0;
  buf = [];
  base = 0;
  first = 0;
  floor = 0;
  delay = 0;
  consumers = 0;
  configured = false;
  finished = false;
}

-- `keep` samples of the buffer stay.
unfoldable pub drop_to : ℕ → Track → Track
unfolding duration_for
drop_to keep t =
    let gone = length t.buf - keep in
    record t { base = t.base + duration_for gone; buf = drop gone t.buf }

-- Past the fence of a live consumer only what it has played may go.
unfoldable pub fenced_keep : ℕ → Track → ℕ
unfolding samples_for
fenced_keep keep t =
    if ltb 0 t.consumers && ltb 0 t.floor && leb t.base t.floor
    then max keep (length t.buf - samples_for (t.floor - t.base))
    else keep

unfoldable pub trim : Track → Track
unfolding samples_for drop_to fenced_keep
trim t =
    let keep = samples_for (track_keep + t.delay) in
    let kept = fenced_keep keep t in
    if leb (length t.buf) (keep + samples_for track_slack)
    then t
    else if leb (length t.buf) (kept + samples_for track_slack)
    then t
    else drop_to kept t

-- `copy(buf[offset:], samples)` where the samples fit.
abbrev pub copy_at : ℕ → List Sample → List Sample → List Sample
copy_at offset samples buf = take offset buf ++ (samples ++ drop (offset + length samples) buf)

unfoldable pub anchor_at : ℕ → ℕ → Track → Track
anchor_at now at t =
    if is_empty t.buf then record t { base = at; first = at; anchored_at = now } else t

unfoldable pub offset_for : ℕ → Track → ℕ
unfolding samples_for
offset_for at t = max (samples_for (at - t.base)) (length t.buf)

unfoldable pub place : ℕ → List Sample → Track → Track
place offset samples t =
    let grow = offset + length samples in
    let grown =
      if ltb (length t.buf) grow then t.buf ++ replicate (grow - length t.buf) silence else t.buf in
    record t { buf = copy_at offset samples grown }

-- The track after the append, and the instant of the first sample as it was placed.
unfoldable pub append : ℕ → ℕ → List Sample → Track → Track × ℕ
unfolding anchor_at offset_for place trim duration_for
append now at samples t =
    let at' = max at t.floor in
    let t₁ = anchor_at now at' t in
    let offset = offset_for at' t₁ in
    (trim (place offset samples t₁), t₁.base + duration_for offset)

unfoldable pub reserve : ℕ → Track → Track
reserve until t = record t { floor = max t.floor until }

unfoldable pub acquire_playout : Track → Track
acquire_playout t = record t { consumers = t.consumers + 1 }

-- A cursor releases only what it acquired, so the count is positive here.
unfoldable pub release_playout : Track → Track
release_playout t = record t { consumers = t.consumers - 1 }

-- The delay is `max(delay, 0)` of the source's signed duration.
unfoldable pub configure_playout : ℕ → Track → Track
configure_playout delay t = record t { delay = delay; configured = true }

unfoldable pub finish : Track → Track
finish t = record t { finished = true }

-- An edge before the start of the clock is 0; its one reader takes the later of it and an instant.
unfoldable pub due_edge : ℕ → Track → Option ℕ
due_edge now t =
    if is_empty t.buf || not t.configured
    then none
    else some (t.first + (now - t.anchored_at) - t.delay)

unfoldable pub end_of : Track → ℕ
unfolding duration_for
end_of t = if is_empty t.buf then 0 else t.base + duration_for (length t.buf)

-- `due` of the source is `anchored_at + delay + from - first`; both sides are moved by `first`.
unfoldable pub ready : ℕ → ℕ → ℕ → ℕ → Track → Bool
unfolding duration_for
ready now from samples tail_end t =
    let written = t.base + duration_for (length t.buf) in
    let end = if t.finished then max written tail_end else written in
    if is_empty t.buf
    then false
    else if not t.configured
    then true
    else if ltb (now + t.first) (t.anchored_at + t.delay + from)
    then false
    else if leb end from
    then false
    else not (not t.finished && ltb end (from + duration_for samples + max t.delay playout_cushion))

unfoldable pub start : Track → Option ℕ
start t = if is_empty t.buf then none else some t.base

-- What a `dst` of `n` cleared samples holds after `copy(dst, xs)`.
abbrev pub copy_into : ℕ → List Sample → List Sample
copy_into zero xs = []
copy_into (suc n) [] = silence ∷ copy_into n []
copy_into (suc n) (x ∷ xs) = x ∷ copy_into n xs

unfoldable pub window : ℕ → ℕ → Track → List Sample
window from n t =
    let offset = samples_for (from - t.base) in
    let lead = samples_for (t.base - from) in
    if is_empty t.buf
    then replicate n silence
    else if ltb from t.base
    then (if leb n lead
        then replicate n silence
        else replicate lead silence ++ copy_into (n - lead) t.buf)
    else if leb (length t.buf) offset
    then replicate n silence
    else copy_into n (drop offset t.buf)
