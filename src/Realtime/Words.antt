-- ===== src/Realtime/Words.antt =====
-- internal/core/realtime/commit.go: when two decoded words agree, and which words close a clause. The
-- tables and folds of Go's `unicode` and `strings` packages are the parameter `Unicode`.
use prukka.Base.{
  ℕ, suc, ◌≤◌, ◌≡◌, refl, ap, inl, inr, Bool, true, false, ◌||◌, List, [], ◌∷◌, ◌++◌, arith,
  if◌then◌else◌, length, Text, codes, is_empty, text_eq, text_eq_refl, contains_rune, trim_func,
  fields_from, reverse, Bool-cases,
}
use prukka.Base.Unicode.{Unicode}

abbrev pub clause_ends : Text
clause_ends = codes ".,;:!?…"

abbrev pub clause_trailers : Text
clause_trailers = codes ")]'”’»" ++ b'"' ∷ []

-- The loop of `isClauseEnd` over the code points from the last to the first.
unfoldable pub ends_clause : Text → Bool
ends_clause [] = false
ends_clause (r ∷ rs) =
    if contains_rune clause_trailers r then ends_clause rs else contains_rune clause_ends r

unfoldable pub is_clause_end : Text → Bool
unfolding ends_clause
is_clause_end word = ends_clause (reverse word)

module _ (u : Unicode) where
  -- strings.Fields.
  unfoldable pub fields : Text → List Text
  fields = fields_from u.is_space []

  unfoldable pub agreement_word : Text → Text
  agreement_word word = u.to_lower (trim_func u.is_punct word)

  unfoldable pub words_agree : Text → Text → Bool
  unfolding agreement_word
  words_agree a b =
      let normal_a = agreement_word a in
      let normal_b = agreement_word b in
      if is_empty normal_a || is_empty normal_b then u.equal_fold a b else text_eq normal_a normal_b

  -- The loop ends at the shorter slice, or at the first pair that does not agree.
  unfoldable pub lcp : List Text → List Text → ℕ
  unfolding words_agree
  lcp [] bs = 0
  lcp (a ∷ as') [] = 0
  lcp (a ∷ as') (b ∷ bs) = if words_agree a b then suc (lcp as' bs) else 0

  pub words_agree_refl : (a : Text) → words_agree a a ≡ true
  unfolding words_agree
  words_agree_refl a =
      elim (Bool-cases (is_empty (agreement_word a) || is_empty (agreement_word a))) [
        | inl e ↦ rw e (u.equal_fold_refl a)
        | inr e ↦ rw e (text_eq_refl (agreement_word a))
      ]

  pub lcp-le-left : (as' bs : List Text) → lcp as' bs ≤ length as'
  unfolding lcp
  lcp-le-left [] bs = omega arith
  lcp-le-left (a ∷ as') [] = omega arith
  lcp-le-left (a ∷ as') (b ∷ bs) = ground (arith, lcp-le-left as' bs)

  pub lcp-le-right : (as' bs : List Text) → lcp as' bs ≤ length bs
  unfolding lcp
  lcp-le-right [] bs = omega arith
  lcp-le-right (a ∷ as') [] = omega arith
  lcp-le-right (a ∷ as') (b ∷ bs) = ground (arith, lcp-le-right as' bs)

  -- A list agrees with each of its extensions as far as it goes.
  pub lcp-append : (as' bs : List Text) → lcp as' (as' ++ bs) ≡ length as'
  unfolding lcp
  lcp-append [] bs = refl
  lcp-append (a ∷ as') bs = rw (words_agree_refl a) (ap suc (lcp-append as' bs))
