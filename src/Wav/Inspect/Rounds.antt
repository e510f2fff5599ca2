-- ===== src/Wav/Inspect/Rounds.antt =====
-- internal/media/ingest/file/wav.go: the rounds of the loop over the chunks and the limit of chunks.
use prukka.Base.{
  ℕ, zero, suc, ◌+◌, ◌≤◌, ◌≡◌, refl, sym, ap, true, List, if◌then◌else◌, ltb, leb, arith,
}
use prukka.Base.Result.{Result, ok, err}
use prukka.Wav.Inspect.Guards.{On}
use prukka.Wav.Inspect.{
  InspectError, WavInspection, consume_next, inspect_all, too_many_chunks, max_riff_chunks,
}
use prukka.Wav.Inspect.Steps.{Inv, consume_next-On}

consume_next-full :
    (raw : List ℕ) (s : WavInspection)
    → max_riff_chunks ≤ s.chunks
    → consume_next raw s ≡ err too_many_chunks
unfolding consume_next
consume_next-full raw s h =
    let full : leb max_riff_chunks s.chunks ≡ true = ground arith in rw (full) refl

module _ (raw : List ℕ) (end : ℕ) where
  go_on : ℕ → Result InspectError WavInspection → Result InspectError WavInspection
  go_on rounds r = elim r [ err e ↦ err e | ok s ↦ inspect_all rounds raw s ]

  same_rest :
      (a b n : ℕ)
      → ((s : WavInspection) → Inv n raw end s → inspect_all a raw s ≡ inspect_all b raw s)
      → (r : Result InspectError WavInspection) → On (Inv n raw end) r
      → go_on a r ≡ go_on b r
  unfolding go_on
  same_rest a b n more (err e) h = refl
  same_rest a b n more (ok s) h = more s h

  one_round :
      ℕ → WavInspection → Result InspectError WavInspection → Result InspectError WavInspection
  unfolding go_on
  one_round rounds s r = if ltb s.offset s.end then go_on rounds r else ok s

  spent :
      (rounds n : ℕ) (s : WavInspection)
      → Inv n raw end s
      → max_riff_chunks ≤ n
      → inspect_all (suc rounds) raw s ≡ inspect_all zero raw s
  unfolding inspect_all one_round
  spent rounds n s i h =
      ap (one_round rounds s) (consume_next-full raw s (omega (arith, i.counted)))

  -- Any two numbers of rounds that reach the limit of chunks give the same result.
  pub inspect_all-rounds :
      (a b n : ℕ) (s : WavInspection)
      → Inv n raw end s
      → max_riff_chunks ≤ a + n
      → max_riff_chunks ≤ b + n
      → inspect_all a raw s ≡ inspect_all b raw s
  unfolding inspect_all go_on
  inspect_all-rounds zero zero n s i ha hb = refl
  inspect_all-rounds (suc a) zero n s i ha hb = spent a n s i (omega arith)
  inspect_all-rounds zero (suc b) n s i ha hb = sym (spent b n s i (omega arith))
  inspect_all-rounds (suc a) (suc b) n s i ha hb =
      ap (λ r. if ltb s.offset s.end then r else ok s)
        (same_rest a b (n + 1)
          (λ s' i'. inspect_all-rounds a b (n + 1) s' i' (omega arith) (omega arith))
          (consume_next raw s) (consume_next-On n raw end s i))
