-- ===== src/Session/Store/Langs.antt =====
-- What `mergeLangs` and `retain` compute: the languages in force and those added, without those removed,
-- each once and in the order in which they were first enabled.
use prukka.Base.{
  ◌≡◌, refl, ap, true, not, ◌&&◌, ◌||◌, List, [], ◌∷◌, ◌++◌, inl, inr, arith, if◌then◌else◌, Text,
  contains, text_eq, text_eq_sound, Bool-cases,
}
use prukka.Base.Distinct.{IsDistinct, Apart, Apart-uncons, Apart-cons, Apart-nil, contains-append}
use prukka.Session.Store.{merge_from, merge_langs}
use prukka.Session.Flags.{named_in}

-- A list without what stands in another.
abbrev pub minus : List Text → List Text → List Text
minus drop [] = []
minus drop (l ∷ ls) = let rest = minus drop ls in if contains l drop then rest else l ∷ rest

contains_of_eq : (x l : Text) (ls : List Text) → text_eq l x ≡ true → contains l ls ≡ contains x ls
contains_of_eq x l ls e = ap (λ t. contains t ls) (text_eq_sound l x e)

contains-merge_from :
    (x : Text) (drop seen ls : List Text)
    → contains x (merge_from drop seen ls)
      ≡ (contains x ls && (not (contains x drop) && not (contains x seen)))
contains-merge_from x drop seen [] = refl
contains-merge_from x drop seen (l ∷ ls) = elim (Bool-cases (contains l drop || contains l seen)) [
  | inl e ↦ elim (Bool-cases (text_eq l x)) [
    | inl q ↦
        rw (e, q)
          (ground (
            arith,
            contains-merge_from x drop seen ls,
            contains_of_eq x l drop q,
            contains_of_eq x l seen q,
          ))
    | inr q ↦ rw (e, q) (contains-merge_from x drop seen ls)
  ]
  | inr e ↦ elim (Bool-cases (text_eq l x)) [
    | inl q ↦ rw (e, q) (ground (arith, contains_of_eq x l drop q, contains_of_eq x l seen q))
    | inr q ↦ rw (e, q) (ground (arith, contains-merge_from x drop (l ∷ seen) ls))
  ]
]

Apart-merge_from : (drop seen ls : List Text) → Apart seen (merge_from drop seen ls)
Apart-merge_from drop seen [] = tt
Apart-merge_from drop seen (l ∷ ls) = elim (Bool-cases (contains l drop || contains l seen)) [
  | inl e ↦ rw e (Apart-merge_from drop seen ls)
  | inr e ↦ rw e (
    ground arith,
    (Apart-uncons l seen (merge_from drop (l ∷ seen) ls) (Apart-merge_from drop (l ∷ seen) ls)).1,
  )
]

IsDistinct-merge_from : (drop seen ls : List Text) → IsDistinct (merge_from drop seen ls)
IsDistinct-merge_from drop seen [] = tt
IsDistinct-merge_from drop seen (l ∷ ls) = elim (Bool-cases (contains l drop || contains l seen)) [
  | inl e ↦ rw e (IsDistinct-merge_from drop seen ls)
  | inr e ↦ rw e (
    (Apart-uncons l seen (merge_from drop (l ∷ seen) ls) (Apart-merge_from drop (l ∷ seen) ls)).0,
    IsDistinct-merge_from drop (l ∷ seen) ls,
  )
]

-- The languages of a list that are distinct and not yet seen all pass, but for those removed.
merge_from-append :
    (drop seen current add : List Text)
    → IsDistinct current
    → Apart seen current
    → (rest : List Text) × (merge_from drop seen (current ++ add) ≡ minus drop current ++ rest)
merge_from-append drop seen [] add d a = (merge_from drop seen add, refl)
merge_from-append drop seen (l ∷ ls) add d a = elim (Bool-cases (contains l drop)) [
  | inl e ↦ let (rest, h) = merge_from-append drop seen ls add d.1 a.1 in (rest, rw e h)
  | inr e ↦
      let (rest, h) = merge_from-append drop (l ∷ seen) ls add d.1 (Apart-cons l seen ls d.0 a.1) in
      (rest, rw (e, a.0) (ap (◌∷◌ l) h))
]

-- The merged languages: each once, exactly those in force or added and not removed; those that stay in
-- force keep their order and come first.
pub record Merges (current add remove merged : List Text) : Type 0 where
  pub distinct : IsDistinct merged
  pub exact :
      (x : Text)
      → contains x merged ≡ ((contains x current || contains x add) && not (contains x remove))
  pub in_order : (rest : List Text) × (merged ≡ minus remove current ++ rest)

-- Merging languages that are distinct keeps each language in force or added and not removed, once; those
-- in force keep their order and come before those added.
pub merge_langs-Merges :
    (current add remove : List Text)
    → IsDistinct current
    → Merges current add remove (merge_langs current add remove)
unfolding merge_langs
merge_langs-Merges current add remove d = record {
  distinct = IsDistinct-merge_from remove [] (current ++ add);
  exact = λ x.
      ground
        (arith, contains-merge_from x remove [] (current ++ add), contains-append x current add);
  in_order = merge_from-append remove [] current add d (Apart-nil current);
}

pub contains-named_in :
    (x : Text) (named ls : List Text)
    → contains x (named_in named ls) ≡ (contains x ls && contains x named)
contains-named_in x named [] = refl
contains-named_in x named (l ∷ ls) = elim (Bool-cases (contains l named)) [
  | inl e ↦ rw e (elim (Bool-cases (text_eq l x)) [
    | inl q ↦ rw q (ground (arith, contains_of_eq x l named q))
    | inr q ↦ rw q (contains-named_in x named ls)
  ])
  | inr e ↦ rw e (elim (Bool-cases (text_eq l x)) [
    | inl q ↦ rw q (ground (arith, contains_of_eq x l named q, contains-named_in x named ls))
    | inr q ↦ rw q (contains-named_in x named ls)
  ])
]

pub IsDistinct-named_in : (named ls : List Text) → IsDistinct ls → IsDistinct (named_in named ls)
IsDistinct-named_in named [] d = tt
IsDistinct-named_in named (l ∷ ls) d = elim (Bool-cases (contains l named)) [
  | inl e ↦
      rw e (ground (arith, contains-named_in l named ls, d.0), IsDistinct-named_in named ls d.1)
  | inr e ↦ rw e (IsDistinct-named_in named ls d.1)
]
