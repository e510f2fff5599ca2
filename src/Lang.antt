-- ===== src/Lang.antt =====
-- internal/core/lang.go and internal/core/lang/lang.go: language tags, their registry and their parsing.
-- A tag is its text. Every refusal wraps `ErrUnknown`, which is `none`; the wording of the hint that the
-- error carries is not modelled.
pub mod Laws
pub mod RoundTrip
mod Tests
use prukka.Base.{
  ℕ, zero, suc, ◌+◌, ◌-◌, ◌≤◌, ◌<◌, ◌≡◌, refl, Bool, true, false, not, ◌&&◌, ◌||◌, Option, none,
  some, List, [], ◌∷◌, ◌++◌, map, arith, ltb, leb, ◌==◌, if◌then◌else◌, length, Text, codes,
  is_empty, text_eq, contains, trim_func, cut_at, split_at, replace_rune,
}
use prukka.Base.Unicode.{Unicode}
use Prim.Native.Nat.{bit_or}

-- core.LangAuto.
abbrev pub lang_auto : Text
lang_auto = []

abbrev pub hyphen : ℕ
hyphen = b'-'

unfoldable pub base_of : Text → Text
base_of l = (cut_at hyphen l).0

unfoldable pub same_lang : Unicode → Text → Text → Bool
unfolding base_of
same_lang u a b = u.equal_fold (base_of a) (base_of b)

-- The tags of the registry, in its order.
unfoldable pub registry : List Text
registry =
    codes "ar"
    ∷ codes "bg"
    ∷ codes "ca"
    ∷ codes "zh"
    ∷ codes "hr"
    ∷ codes "cs"
    ∷ codes "da"
    ∷ codes "nl"
    ∷ codes "en"
    ∷ codes "et"
    ∷ codes "fi"
    ∷ codes "fr"
    ∷ codes "de"
    ∷ codes "el"
    ∷ codes "he"
    ∷ codes "hi"
    ∷ codes "hu"
    ∷ codes "is"
    ∷ codes "id"
    ∷ codes "it"
    ∷ codes "ja"
    ∷ codes "ko"
    ∷ codes "lv"
    ∷ codes "lt"
    ∷ codes "ms"
    ∷ codes "no"
    ∷ codes "fa"
    ∷ codes "pl"
    ∷ codes "pt"
    ∷ codes "ro"
    ∷ codes "ru"
    ∷ codes "sr"
    ∷ codes "sk"
    ∷ codes "sl"
    ∷ codes "es"
    ∷ codes "sw"
    ∷ codes "sv"
    ∷ codes "th"
    ∷ codes "tr"
    ∷ codes "uk"
    ∷ codes "vi"
    ∷ []

-- `s[i] | 0x20` lies between `a` and `z`.
unfoldable pub is_letter : ℕ → Bool
is_letter r = let lower = bit_or r 32 in leb b'a' lower && leb lower b'z'

-- Two bytes, each an ASCII letter. A code point outside ASCII is no letter, so that the count of bytes
-- is that of the code points wherever the answer is yes.
unfoldable pub alpha2 : Text → Bool
unfolding is_letter
alpha2 [] = false
alpha2 (a ∷ []) = false
alpha2 (a ∷ b ∷ []) = is_letter a && is_letter b
alpha2 (a ∷ b ∷ c ∷ rest) = false

unfoldable pub lookup : Text → Option Text
lookup base = if contains base registry then some base else none

module _ (u : Unicode) where
  -- The base and the region of a tag with at most one hyphen; no region is the empty text.
  unfoldable pub parts_of : List Text → Option (Text × Text)
  unfolding alpha2
  parts_of [] = none
  parts_of (base ∷ []) = let b = u.to_lower base in if alpha2 b then some (b, []) else none
  parts_of (base ∷ region ∷ []) =
      let b = u.to_lower base in
      let r = u.to_upper region in
      if alpha2 b then (if alpha2 r then some (b, r) else none) else none
  parts_of (base ∷ region ∷ more ∷ rest) = none

  unfoldable pub split : Text → Option (Text × Text)
  unfolding parts_of
  split input =
      if is_empty input then none else parts_of (split_at hyphen (replace_rune b'_' hyphen input))

  unfoldable pub tag_of : Text × Text → Option Text
  unfolding lookup
  tag_of (base, region) = elim (lookup base) [
    | none ↦ none
    | some tag ↦ some (if is_empty region then tag else tag ++ (hyphen ∷ region))
  ]

  unfoldable pub parse : Text → Option Text
  unfolding split tag_of
  parse input =
      let trimmed = trim_func u.is_space input in
      if u.equal_fold trimmed (codes "auto")
      then some lang_auto
      else (elim (split trimmed) [ none ↦ none | some p ↦ tag_of p ])

  -- The loop of `ParseList`; `out` is also the set of the tags seen.
  unfoldable pub parse_items : List Text → List Text → Option (List Text)
  parse_items out [] = some out
  parse_items out (item ∷ items) =
      let skipped = parse_items out items in
      if is_empty (trim_func u.is_space item) then skipped else (elim (parse item) [
        | none ↦ none
        | some tag ↦
            let rest = parse_items (if contains tag out then out else out ++ tag ∷ []) items in
            if is_empty tag then none else rest
      ])

  unfoldable pub parse_list : Text → Option (List Text)
  unfolding parse_items
  parse_list csv = parse_items [] (split_at b',' csv)
