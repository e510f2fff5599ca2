-- ===== src/Realtime/Lane/Spans.antt =====
-- internal/core/realtime/lane.go: the spans of the segments of one `emit`.
use prukka.Base.{
  ℕ, ◌+◌, ◌-◌, ◌*◌, ◌/◌, ◌≤◌, ◌<◌, ◌≡◌, refl, sym, ap, subst, ◌∙◌, max, List, [], ◌∷◌,
  if◌then◌else◌, ◌==◌, Bool-cases, inl, inr, arith, Text,
}
use native.Mathlib.Nat.{le-div_iff_mul-le, div-mul-le_self, mul-div_cancel, mul-zero, zero-div}
use prukka.Base.Utf8.{bytes}
use prukka.Pivot.{Segment}
use prukka.Realtime.Lane.{total_bytes, emit_loop, emit}

-- The segments run from `start` to `stop`, each one from where the one before it ends, none backward.
abbrev pub Abuts : ℕ → ℕ → List Segment → Type 0
Abuts start stop [] = start ≡ stop
Abuts start stop (s ∷ ss) = (s.span.0 ≡ start) × (start ≤ s.span.1) × Abuts s.span.1 stop ss

abbrev pub texts : List Segment → List Text
texts [] = []
texts (s ∷ ss) = s.text ∷ texts ss

div_mono : (a b k : ℕ) → 0 < k → a ≤ b → a / k ≤ b / k
div_mono a b k p h = (le-div_iff_mul-le p).1 (omega (arith, div-mul-le_self a k))

share_mono : (span a b k : ℕ) → 0 < k → span * a / k ≤ span * (a + b) / k
share_mono span a b k p = div_mono (span * a) (span * (a + b)) k p (grind arith)

module _ (lang : Text) (base span total : ℕ) where
  emit_loop-texts :
      (start acc : ℕ) (clauses : List Text)
      → texts (emit_loop lang base span total start acc clauses).0 ≡ clauses
  unfolding emit_loop
  emit_loop-texts start acc [] = refl
  emit_loop-texts start acc (c ∷ cs) =
      ap (◌∷◌ c) (emit_loop-texts (base + span * (acc + bytes c) / total) (acc + bytes c) cs)

  emit_loop-Abuts :
      (start acc : ℕ) (clauses : List Text)
      → 0 < total
      → acc + total_bytes clauses ≡ total
      → start ≡ base + span * acc / total
      → Abuts start (base + span) (emit_loop lang base span total start acc clauses).0
        × ((emit_loop lang base span total start acc clauses).1 ≡ base + span)
  unfolding emit_loop total_bytes
  emit_loop-Abuts start acc [] p e s = (at_end, at_end)
    where
      whole : acc ≡ total
      whole = omega arith

      at_end : start ≡ base + span
      at_end =
          s ∙ ap (λ n. base + span * n / total) whole ∙ ap (λ n. base + n) (mul-div_cancel span p)
  emit_loop-Abuts start acc (c ∷ cs) p e s =
      let end = base + span * (acc + bytes c) / total in
      let (rest, last) = emit_loop-Abuts end (acc + bytes c) cs p (omega arith) refl in
      ((refl, omega (arith, share_mono span acc (bytes c) total p), rest), last)

-- What one `emit` sends.
pub record Emits (lang : Text) (seg_start now : ℕ) (clauses : List Text) (out : List Segment × ℕ)
    : Type 0 where
  pub abuts : Abuts seg_start out.1 out.0
  pub stop : out.1 ≡ (if total_bytes clauses == 0 then seg_start else max seg_start now)
  pub said : texts out.0 ≡ (if total_bytes clauses == 0 then [] else clauses)

-- The clauses of one commit become one segment each, in order. Their spans abut: the first one starts where the last commit's
-- ended, none runs backward, and the last one ends at the instant `now`, or has no length where `now` has
-- passed already. Clauses without a single byte send nothing and leave the start where it is.
pub emit-Emits :
    (lang : Text) (seg_start now : ℕ) (clauses : List Text)
    → Emits lang seg_start now clauses (emit lang seg_start now clauses)
unfolding emit
emit-Emits lang seg_start now clauses = elim (Bool-cases (total_bytes clauses == 0)) [
  | inl e ↦ rw e (record { abuts = refl; stop = rw e refl; said = rw e refl })
  | inr e ↦
      let total = total_bytes clauses in
      let (abuts, last) =
        emit_loop-Abuts lang seg_start (now - seg_start) total seg_start 0 clauses (ground arith)
          (omega arith) (start_lem total) in
      rw e (record {
        abuts =
            subst
              (λ stop.
                Abuts seg_start stop
                  (emit_loop lang seg_start (now - seg_start) total seg_start 0 clauses).0)
              (sym last) abuts;
        stop = rw e (last ∙ omega arith);
        said = rw e (emit_loop-texts lang seg_start (now - seg_start) total seg_start 0 clauses);
      })
]
  where
    start_lem : (total : ℕ) → seg_start ≡ seg_start + (now - seg_start) * 0 / total
    start_lem total = rw (mul-zero, zero-div) (omega arith)
