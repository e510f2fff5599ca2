-- ===== src/Realtime/Lane.antt =====
-- internal/core/realtime/lane.go and speak.go: one session's lane between its providers. The transcription
-- is the list of its updates, each with the instant that the source clock shows when it is received;
-- cancellation is a lane that receives no more of them.
pub mod Spans
pub mod Order
pub mod Runs
pub mod Takes
mod Tests
use prukka.Base.{
  ℕ, zero, suc, ◌+◌, ◌-◌, ◌*◌, ◌/◌, ◌^◌, ◌≤◌, max, Bool, true, false, not, ◌&&◌, ◌||◌, Option, none,
  some, List, [], ◌∷◌, ◌++◌, if◌then◌else◌, ltb, leb, ◌==◌, length, Text, codes, is_empty, text_eq,
  arith,
}
use prukka.Base.Int.{ℤ, pos, negsuc}
use prukka.Base.Utf8.{bytes}
use prukka.Base.Result.{Result, ok, err}
use prukka.Base.Unicode.{Unicode}
use prukka.Lang.{lang_auto, same_lang}
use prukka.Pivot.{Segment}
use prukka.Captions.{TranslatedSegment}
use prukka.Pipeline.Units.{Sample}
use prukka.Pipeline.Pcm.{peak_s16}
use prukka.Realtime.Commit.{Transcript, Committer, new_committer, commit, flush_hold}

-- What ends a lane. `panicked` stands for Go's panic, an index out of range.
pub data LaneError : Type 0 where
  panicked moved_backward terminal no_audio take_too_long : LaneError
  undetected unavailable untranslated : Text → LaneError

-- The committer's part of the transcript is `transcript`.
pub record Update : Type 0 where
  pub transcript : Transcript
  pub lang : Text
  pub source_end : ℤ
  pub has_source_end : Bool

pub record Cursor : Type 0 where
  pub lang : Text
  pub seg_start : ℕ
  pub last_source_end : ℕ
  pub has_source_end : Bool

abbrev pub speaks : Cursor → Text → Cursor
speaks c lang = if is_empty lang then c else record c { lang = lang }

-- transcriptCursor.advance where the update has a source end.
unfoldable pub advance_to : Cursor → ℤ → Result LaneError (ℕ × Cursor)
advance_to c (negsuc n) = err moved_backward
advance_to c (pos n) =
    if c.has_source_end && ltb n c.last_source_end
    then err moved_backward
    else ok (n, record c { last_source_end = n; has_source_end = true })

unfoldable pub advance : Cursor → Update → ℕ → Result LaneError (ℕ × Cursor)
unfolding advance_to
advance c u fallback =
    let c' = speaks c u.lang in
    if not u.has_source_end then ok (fallback, c') else advance_to c' u.source_end

unfoldable pub total_bytes : List Text → ℕ
total_bytes [] = 0
total_bytes (clause ∷ clauses) = bytes clause + total_bytes clauses

-- The loop of `emit`: `start` is where the last segment ended, `acc` the bytes so far.
unfoldable pub emit_loop : Text → ℕ → ℕ → ℕ → ℕ → ℕ → List Text → List Segment × ℕ
emit_loop lang base span total start acc [] = ([], start)
emit_loop lang base span total start acc (clause ∷ clauses) =
    let acc' = acc + bytes clause in
    let end = base + span * acc' / total in
    let (segments, last) = emit_loop lang base span total end acc' clauses in
    (record { text = clause; lang = lang; span = (start, end) } ∷ segments, last)

-- The segments that `emit` sends to every worker, and the new start of the next one.
unfoldable pub emit : Text → ℕ → ℕ → List Text → List Segment × ℕ
unfolding emit_loop total_bytes
emit lang seg_start now clauses =
    let total = total_bytes clauses in
    if total == 0
    then ([], seg_start)
    else emit_loop lang seg_start (now - seg_start) total seg_start 0 clauses

-- A target with what its worker has been sent.
pub record Worker : Type 0 where
  pub target : Text
  pub inbox : List Segment

unfoldable pub fanout : List Worker → List Segment → List Worker
fanout [] segments = []
fanout (w ∷ ws) segments = record w { inbox = w.inbox ++ segments } ∷ fanout ws segments

pub record LaneState : Type 0 where
  pub committer : Committer
  pub cursor : Cursor
  pub workers : List Worker

module _ (u : Unicode) (supports : Text → Text → Bool) where
  -- The targets in their sorted order.
  unfoldable pub validate_translation_targets : Text → List Text → Option LaneError
  validate_translation_targets source [] = none
  validate_translation_targets source (target ∷ targets) =
      let rest = validate_translation_targets source targets in
      if not (text_eq source lang_auto) && same_lang u source target
      then rest
      else if text_eq source lang_auto
      then some (undetected target)
      else if not (supports source target)
      then some (unavailable target)
      else rest

  unfoldable pub validated : List Text → Text → List Text → Option LaneError
  unfolding validate_translation_targets
  validated clauses lang targets =
      if is_empty clauses then none else validate_translation_targets lang targets

  -- emitValidated, on the lane's workers and the cursor's start.
  unfoldable pub emit_validated :
      List Text → List Text → Cursor → ℕ → List Worker → Result LaneError (List Worker × ℕ)
  unfolding validated emit fanout
  emit_validated targets clauses c now workers = elim (validated clauses c.lang targets) [
    | some e ↦ err e
    | none ↦
        let (segments, start) = emit c.lang c.seg_start now clauses in
        ok (fanout workers segments, start)
  ]

  -- What follows the commit in one round of `consume`.
  unfoldable pub deliver :
      List Text
      → Bool
      → ℕ
      → Cursor
      → List Worker
      → List Text × Committer
      → Result LaneError LaneState
  unfolding emit_validated
  deliver targets final now c workers (clauses, committer) =
      elim (emit_validated targets clauses c now workers) [
        | err e ↦ err e
        | ok (workers', start) ↦ ok (record {
          committer = committer;
          cursor = record c { seg_start = if final then now else start };
          workers = workers';
        })
      ]

  unfoldable pub committed :
      List Text → Update → LaneState → ℕ × Cursor → Result LaneError LaneState
  unfolding commit deliver
  committed targets up s (now, c) = elim (commit u up.transcript s.committer) [
    | none ↦ err panicked
    | some out ↦ deliver targets up.transcript.final now c s.workers out
  ]

  -- One round of `consume`; the clock shows `clock`.
  unfoldable pub consume_one : List Text → Update → ℕ → LaneState → Result LaneError LaneState
  unfolding advance committed
  consume_one targets up clock s = elim (advance s.cursor up clock) [
    | err e ↦ err e
    | ok r ↦ committed targets up s r
  ]

  unfoldable pub consume_all :
      List Text → List (Update × ℕ) → LaneState → Result LaneError LaneState
  unfolding consume_one
  consume_all targets [] s = ok s
  consume_all targets ((up, clock) ∷ ups) s = elim (consume_one targets up clock s) [
    | err e ↦ err e
    | ok s' ↦ consume_all targets ups s'
  ]

  -- The end of `consume`: the transcription's terminal error, or the words held back.
  unfoldable pub finish_consume : List Text → Bool → ℕ → LaneState → Result LaneError LaneState
  unfolding flush_hold deliver
  finish_consume targets failed clock s =
      if failed then err terminal else elim (flush_hold s.committer) [
        | none ↦ err panicked
        | some out ↦ deliver targets false clock s.cursor s.workers out
      ]

  unfoldable pub consume :
      List Text → List (Update × ℕ) → Bool → ℕ → LaneState → Result LaneError LaneState
  unfolding consume_all finish_consume
  consume targets ups failed clock s = elim (consume_all targets ups s) [
    | err e ↦ err e
    | ok s' ↦ finish_consume targets failed clock s'
  ]

abbrev pub opened : List Text → List Worker
opened [] = []
opened (t ∷ ts) = record { target = t; inbox = [] } ∷ opened ts

-- What `consume` starts from.
unfoldable pub lane_start : Text → Bool → List Text → LaneState
unfolding new_committer
lane_start source fast_turn targets = record {
  committer = new_committer fast_turn;
  cursor = record { lang = source; seg_start = 0; last_source_end = 0; has_source_end = false };
  workers = opened targets;
}

module _ (u : Unicode) (provider : Segment → Text → Option Text) (delay : ℕ) where
  unfoldable pub translate : Segment → Text → Result LaneError Text
  translate segment target =
      if not (text_eq segment.lang lang_auto) && same_lang u segment.lang target
      then ok segment.text
      else elim (provider segment target) [ none ↦ err (untranslated target) | some text ↦ ok text ]

  abbrev pub span_duration : ℕ × ℕ → ℤ
  span_duration (start, end) = if leb start end then pos (end - start) else negsuc (start - end - 1)

  -- What `caption` ships to the sink.
  unfoldable pub caption : Text → Segment → Result LaneError TranslatedSegment
  unfolding translate
  caption target segment = elim (translate segment target) [
    | err e ↦ err e
    | ok text ↦ ok (record {
      text = text;
      schedule_at = segment.span.0 + delay;
      duration = span_duration segment.span;
    })
  ]

  -- captionOnly: what the sink has when the source ends or a segment fails, and that failure.
  unfoldable pub caption_only : Text → List Segment → List TranslatedSegment × Option LaneError
  unfolding caption
  caption_only target [] = ([], none)
  caption_only target (segment ∷ segments) =
      let (rest, failed) = caption_only target segments in
      elim (caption target segment) [ err e ↦ ([], some e) | ok out ↦ (out ∷ rest, failed) ]

unfoldable pub max_voice_take_samples : ℕ
max_voice_take_samples = 64 * 2 ^ 20 / 2

-- collectVoiceTake, over the chunks of the provider and its terminal error.
unfoldable pub collect_chunks :
    List Sample → ℕ → List (List Sample) → Result LaneError (List Sample × ℕ)
unfolding max_voice_take_samples
collect_chunks take peak [] = ok (take, peak)
collect_chunks take peak (chunk ∷ chunks) =
    let skipped = collect_chunks take peak chunks in
    let taken = collect_chunks (take ++ chunk) (max peak (peak_s16 chunk)) chunks in
    if is_empty chunk
    then skipped
    else if ltb (max_voice_take_samples - length take) (length chunk)
    then err take_too_long
    else taken

unfoldable pub collect_voice_take : List (List Sample) → Bool → Result LaneError (List Sample × ℕ)
unfolding collect_chunks
collect_voice_take chunks failed = elim (collect_chunks [] 0 chunks) [
  | err e ↦ err e
  | ok (take, peak) ↦
      if failed then err terminal else if is_empty take then err no_audio else ok (take, peak)
]

-- speak, onto a voice sink with the given `append`; it returns the sink and where the take was placed.
unfoldable pub speak :
    {A : Type 0}
    → (A → ℕ → List Sample → A × ℕ)
    → A
    → ℕ
    → List (List Sample)
    → Bool
    → Result LaneError (A × ℕ)
unfolding collect_voice_take
speak append track at chunks failed = elim (collect_voice_take chunks failed) [
  | err e ↦ err e
  | ok (take, peak) ↦ ok (append track at take)
]
