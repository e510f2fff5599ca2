-- ===== src/Realtime/Lane/Tests.antt =====
-- internal/core/realtime/lane.go at concrete values.
use prukka.Base.{ℕ, ◌≡◌, refl, Bool, true, false, List, [], ◌∷◌, Text, codes, map}
use prukka.Base.Unicode.{ascii}
use prukka.Base.Int.{pos, negsuc}
use prukka.Lang.{same_lang}
use prukka.Base.Result.{Result, ok, err}
use prukka.Base.Flatten.{flatten}
use prukka.Pipeline.Units.{Sample}
use prukka.Pipeline.Pcm.{peak_s16}
use prukka.Pivot.{Segment}
use prukka.Realtime.Lane.{
  LaneError, LaneState, Worker, Update, advance, moved_backward, emit, consume, lane_start,
  collect_voice_take,
}
use prukka.Realtime.Lane.Spans.{Emits, emit-Emits}
use prukka.Realtime.Lane.Runs.{Settles, Ordered, consume-Ordered}
use prukka.Realtime.Lane.Takes.{take_answer, collect_voice_take-take_answer}

abbrev word_at : Text → Bool → ℕ → Update
word_at text final n = record {
  transcript = record { text = text; stable = final; final = final };
  lang = codes "it";
  source_end = pos n;
  has_source_end = true;
}

abbrev ups : List (Update × ℕ)
ups =
    (word_at (codes "ciao a tutti voi") false 1_000, 1_500)
    ∷ (word_at (codes "ciao a tutti voi, bella gente.") true 2_000, 2_500)
    ∷ (word_at (codes "e poi basta.") true 4_000, 4_100)
    ∷ []

abbrev any_model : Text → Text → Bool
any_model from to = true

abbrev ran : Result LaneError LaneState
ran =
    consume ascii any_model (codes "en" ∷ []) ups false 5_000
      (lane_start ([]) false (codes "en" ∷ []))

abbrev spans_of : List Segment → List (ℕ × ℕ)
spans_of [] = []
spans_of (s ∷ ss) = s.span ∷ spans_of ss

abbrev sent : Result LaneError LaneState → List (List (ℕ × ℕ))
sent (err e) = []
sent (ok s) = map (λ (w : Worker). spans_of w.inbox) s.workers

backward :
    advance
      (record { lang = []; seg_start = 5; last_source_end = 9; has_source_end = true })
      (word_at [] false 8)
      20
    ≡ err moved_backward
unfolding advance
backward = refl

consume_runs : sent ran ≡ ((0, 1_172) ∷ (1_172, 2_000) ∷ (2_000, 4_000) ∷ []) ∷ []
unfolding consume lane_start same_lang
consume_runs = refl

emit_runs : (emit (codes "it") 10 20 (codes "ab" ∷ codes "c" ∷ [])).1 ≡ 20
unfolding emit
emit_runs = refl

emit-Emits_example :
    Emits
      (codes "it")
      10
      20
      (codes "ab" ∷ codes "c" ∷ [])
      (emit (codes "it") 10 20 (codes "ab" ∷ codes "c" ∷ []))
emit-Emits_example = emit-Emits (codes "it") 10 20 (codes "ab" ∷ codes "c" ∷ [])

consume-Ordered_example : Settles Ordered ran
consume-Ordered_example =
    consume-Ordered ascii any_model ([]) false (codes "en" ∷ []) ups false 5_000
      (refl, (refl, (refl, tt)))

abbrev chunks : List (List Sample)
chunks = (pos 3 ∷ negsuc 8 ∷ []) ∷ [] ∷ (pos 1 ∷ []) ∷ []

take_runs : collect_voice_take chunks false ≡ ok (pos 3 ∷ negsuc 8 ∷ pos 1 ∷ [], 9)
unfolding collect_voice_take peak_s16
take_runs = refl

collect_voice_take-take_answer_example :
    collect_voice_take chunks false ≡ take_answer (flatten chunks) false
collect_voice_take-take_answer_example = collect_voice_take-take_answer chunks false
