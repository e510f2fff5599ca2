-- ===== src/Hls/Parts.antt =====
-- internal/media/egress/hls/segmenter.go: in which parts a cue lands, and what stays as it was.
use prukka.Base.{
  ℕ, zero, suc, ◌+◌, ◌-◌, ◌*◌, ◌<◌, ◌≡◌, ◌⊎◌, refl, sym, ap, ◌∙◌, max, Bool, true, false, ◌&&◌,
  ◌||◌, none, some, List, [], ◌∷◌, ◌++◌, if◌then◌else◌, ltb, leb, ◌==◌, Bool-cases, inl, inr, arith,
  append_assoc, append-nil, Text,
}
use prukka.Captions.{Cue, millisecond, second}
use prukka.Hls.{
  overlaid, segment_length, Segmenter, update, first_part, last_part, add_rounds, add_cues,
  part_text,
}

-- A cue is seen in a part if it starts before the part ends, and ends at least a millisecond after the part starts.
abbrev pub overlaps : ℕ → Cue → Bool
overlaps idx cue =
    ltb cue.start ((idx + 1) * segment_length) && leb (idx * segment_length) (cue.end - millisecond)

abbrev pub landed : ℕ → List Cue → List Cue
landed idx [] = []
landed idx (cue ∷ cues) = if overlaps idx cue then cue ∷ landed idx cues else landed idx cues

abbrev pub landed_in : Segmenter → ℕ → Cue → Segmenter
landed_in s idx cue = record s {
  cues = update s.cues idx (s.cues idx ++ (cue ∷ []));
  next = max s.next (idx + 1);
}

-- One cue, over the parts from `idx` on.
add_rounds-cues :
    (n idx : ℕ) (cue : Cue) (s : Segmenter) (touched : List ℕ) (j : ℕ)
    → (add_rounds n idx cue (s, touched)).0.cues j
      ≡ s.cues j ++ (if leb idx j && ltb j (idx + n) then cue ∷ [] else [])
unfolding add_rounds
add_rounds-cues zero idx cue s touched j =
    let out : (leb idx j && ltb j (idx + 0)) ≡ false = ground arith in rw (out, append-nil) refl
add_rounds-cues (suc n) idx cue s touched j = elim (Bool-cases (idx == j)) [
  | inl e ↦
      let same : idx ≡ j = ground arith in
      let past : (leb (idx + 1) j && ltb j (idx + 1 + n)) ≡ false = ground arith in
      let inside : (leb idx j && ltb j (idx + suc n)) ≡ true = ground arith in
      add_rounds-cues n (idx + 1) cue (landed_in s idx cue) (idx ∷ touched) j
      ∙ rw (e, past, inside, append-nil) (ap (λ i. s.cues i ++ (cue ∷ [])) same)
  | inr e ↦
      let step : (leb (idx + 1) j && ltb j (idx + 1 + n)) ≡ (leb idx j && ltb j (idx + suc n)) =
        ground arith in
      add_rounds-cues n (idx + 1) cue (landed_in s idx cue) (idx ∷ touched) j ∙ rw (e, step) refl
]

part_range :
    (cue : Cue) (j : ℕ)
    → (leb (first_part cue) j && ltb j (first_part cue + (last_part cue + 1 - first_part cue)))
      ≡ overlaps j cue
unfolding first_part last_part segment_length second millisecond
part_range cue j = ground arith

landed-cons :
    (j : ℕ) (cue : Cue) (cues : List Cue)
    → (if overlaps j cue then cue ∷ [] else []) ++ landed j cues ≡ landed j (cue ∷ cues)
landed-cons j cue cues = elim (Bool-cases (overlaps j cue)) [
  | inl e ↦ rw (e) refl
  | inr e ↦ rw (e) refl
]

pub add_cues-cues :
    (can_show : Text → Bool) (clock : ℕ → ℕ) (cues : List Cue) (st : Segmenter × List ℕ) (j : ℕ)
    → (add_cues can_show clock cues st).0.cues j ≡ st.0.cues j ++ landed j cues
unfolding add_cues
add_cues-cues can_show clock [] st j = sym (append-nil _)
add_cues-cues can_show clock (cue ∷ cues) st j =
    add_cues-cues can_show (λ n. clock (n + 1)) cues
      (add_rounds (last_part cue + 1 - first_part cue) (first_part cue) cue
        (overlaid can_show (clock 0) cue st))
      j
    ∙ ap (λ now. now ++ landed j cues)
        (add_rounds-cues (last_part cue + 1 - first_part cue) (first_part cue) cue
            (overlaid can_show (clock 0) cue st).0 st.1 j
          ∙ ap (λ b. st.0.cues j ++ (if b then cue ∷ [] else [])) (part_range cue j))
    ∙ append_assoc (st.0.cues j) (if overlaps j cue then cue ∷ [] else []) (landed j cues)
    ∙ ap (◌++◌ (st.0.cues j)) (landed-cons j cue cues)

abbrev pub among : ℕ → List ℕ → Bool
among j [] = false
among j (i ∷ is) = i == j || among j is

-- Nothing is known of a part, or it is listed and its file holds its cues.
abbrev pub Empty : Segmenter → ℕ → Type 0
Empty s j = (s.parts j ≡ false) × (s.files j ≡ none) × (s.cues j ≡ [])

abbrev pub Full : Segmenter → ℕ → Type 0
Full s j = (s.parts j ≡ true) × (s.files j ≡ some (part_text (s.cues j)))

abbrev pub Good : Segmenter → ℕ → Type 0
Good s j = Empty s j ⊎ ((j < s.next) × Full s j)

-- Every part that is not good is among the touched ones.
abbrev pub Pending : Segmenter × List ℕ → ℕ → Type 0
Pending (s, touched) j =
    ((among j touched ≡ true) × (j < s.next)) ⊎ ((among j touched ≡ false) × Good s j)

landed_in-Pending :
    (s : Segmenter) (touched : List ℕ) (idx : ℕ) (cue : Cue) (j : ℕ)
    → Pending (s, touched) j
    → Pending (landed_in s idx cue, idx ∷ touched) j
landed_in-Pending s touched idx cue j h = elim (Bool-cases (idx == j)) [
  | inl e ↦ rw e (inl (refl, ground arith))
  | inr e ↦ rw e (elim h [
    | inl (m, l) ↦ inl (m, omega arith)
    | inr (m, inl empty) ↦ inr (m, inl empty)
    | inr (m, inr (l, full)) ↦ inr (m, inr (omega arith, full))
  ])
]

add_rounds-Pending :
    (n idx : ℕ) (cue : Cue) (st : Segmenter × List ℕ) (j : ℕ)
    → Pending st j
    → Pending (add_rounds n idx cue st) j
unfolding add_rounds
add_rounds-Pending zero idx cue st j h = h
add_rounds-Pending (suc n) idx cue (s, touched) j h =
    add_rounds-Pending n (idx + 1) cue (landed_in s idx cue, idx ∷ touched) j
      (landed_in-Pending s touched idx cue j h)

pub add_cues-Pending :
    (can_show : Text → Bool) (clock : ℕ → ℕ) (cues : List Cue) (st : Segmenter × List ℕ) (j : ℕ)
    → Pending st j
    → Pending (add_cues can_show clock cues st) j
unfolding add_cues
add_cues-Pending can_show clock [] st j h = h
add_cues-Pending can_show clock (cue ∷ cues) st j h =
    add_cues-Pending can_show (λ n. clock (n + 1)) cues
      (add_rounds (last_part cue + 1 - first_part cue) (first_part cue) cue
        (overlaid can_show (clock 0) cue st))
      j
      (add_rounds-Pending (last_part cue + 1 - first_part cue) (first_part cue) cue
        (overlaid can_show (clock 0) cue st) j h)
