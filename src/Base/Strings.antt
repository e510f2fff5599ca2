-- ===== src/Base/Strings.antt =====
-- Text as a list of code points, and what the source uses of Go's `strings` and `unicode` packages.
use Prim.Native.Nat.{ℕ}
use Prim.Native.Char.{code}
use Prim.Native.String.{String}
use mathlib.Core.Path.{◌≡◌, refl, ap, sym, ◌∙◌}
use mathlib.Core.Bool.{Bool, true, false, ◌&&◌, ◌||◌}
use mathlib.Core.Option.{Option, none, some}
use mathlib.Core.List.{List, [], ◌∷◌, ◌++◌, append_assoc, append-nil, reverse}
use native.Mathlib.Omega.{arith}
use prukka.Base.Lists.{length}
use prukka.Base.Tests.{◌==◌, if◌then◌else◌}

abbrev pub Text : Type 0
Text = List ℕ

abbrev pub codes : String → Text
codes String.[] = []
codes (String.◌∷◌ c s) = code c ∷ codes s

abbrev pub is_empty {ℓ} : {A : Type ℓ} → List A → Bool
is_empty [] = true
is_empty (x ∷ xs) = false

pub empty-length {ℓ} : {A : Type ℓ} (xs : List A) → is_empty xs ≡ true → length xs ≡ 0
empty-length [] e = refl
empty-length (x ∷ xs) e = cc

abbrev pub text_eq : Text → Text → Bool
text_eq [] [] = true
text_eq [] (y ∷ ys) = false
text_eq (x ∷ xs) [] = false
text_eq (x ∷ xs) (y ∷ ys) = x == y && text_eq xs ys

pub text_eq_sound : (a b : Text) → text_eq a b ≡ true → a ≡ b
text_eq_sound [] [] h = refl
text_eq_sound [] (y ∷ ys) h = cc
text_eq_sound (x ∷ xs) [] h = cc
text_eq_sound (x ∷ xs) (y ∷ ys) h = ground (arith, text_eq_sound xs ys)

pub text_eq_refl : (a : Text) → text_eq a a ≡ true
text_eq_refl [] = refl
text_eq_refl (x ∷ xs) = ground (arith, text_eq_refl xs)

-- strings.ContainsRune.
abbrev pub contains_rune : Text → ℕ → Bool
contains_rune [] r = false
contains_rune (c ∷ cs) r = c == r || contains_rune cs r

abbrev pub drop_while : (ℕ → Bool) → Text → Text
drop_while p [] = []
drop_while p (c ∷ cs) = if p c then drop_while p cs else c ∷ cs

-- strings.TrimFunc.
abbrev pub trim_func : (ℕ → Bool) → Text → Text
trim_func p s = reverse (drop_while p (reverse (drop_while p s)))

-- strings.FieldsFunc: the maximal runs of code points that are no space; `word` is the run so far,
-- in reverse.
abbrev pub fields_from : (ℕ → Bool) → Text → Text → List Text
fields_from p word [] = if is_empty word then [] else reverse word ∷ []
fields_from p word (c ∷ cs) =
    let rest = fields_from p [] cs in
    let longer = fields_from p (c ∷ word) cs in
    if p c then (if is_empty word then rest else reverse word ∷ rest) else longer

abbrev pub space : ℕ
space = 32

-- Each text with a space before it.
abbrev pub spoken : List Text → Text
spoken [] = []
spoken (w ∷ ws) = space ∷ w ++ spoken ws

-- strings.Join(ws, " ").
abbrev pub join : List Text → Text
join [] = []
join (w ∷ ws) = w ++ spoken ws

pub spoken-append : (xs ys : List Text) → spoken (xs ++ ys) ≡ spoken xs ++ spoken ys
spoken-append [] ys = refl
spoken-append (x ∷ xs) ys =
    ap (λ t. space ∷ t)
      (ap (◌++◌ x) (spoken-append xs ys) ∙ sym (append_assoc x (spoken xs) (spoken ys)))

pub spoken-join : (w : Text) (ws : List Text) → spoken (join (w ∷ ws) ∷ []) ≡ spoken (w ∷ ws)
spoken-join w ws = simp (append-nil)

pub codes-join : join (codes "ab" ∷ codes "c" ∷ []) ≡ codes "ab c"
codes-join = refl

-- strings.Cut at one code point: what stands before it, what stands after, and whether it is there.
abbrev pub cut_at : ℕ → Text → Text × Text × Bool
cut_at sep [] = ([], [], false)
cut_at sep (c ∷ cs) =
    let (before, after, found) = cut_at sep cs in
    if c == sep then ([], cs, true) else (c ∷ before, after, found)

abbrev pub prepend : ℕ → List Text → List Text
prepend c [] = (c ∷ []) ∷ []
prepend c (w ∷ ws) = (c ∷ w) ∷ ws

-- strings.Split at one code point.
abbrev pub split_at : ℕ → Text → List Text
split_at sep [] = [] ∷ []
split_at sep (c ∷ cs) = let rest = split_at sep cs in if c == sep then [] ∷ rest else prepend c rest

-- strings.ReplaceAll of one code point by another.
abbrev pub replace_rune : ℕ → ℕ → Text → Text
replace_rune old new [] = []
replace_rune old new (c ∷ cs) = (if c == old then new else c) ∷ replace_rune old new cs

abbrev pub contains : Text → List Text → Bool
contains x [] = false
contains x (y ∷ ys) = text_eq y x || contains x ys

abbrev pub any_rune : (ℕ → Bool) → Text → Bool
any_rune p [] = false
any_rune p (c ∷ cs) = p c || any_rune p cs

-- strings.HasPrefix: what follows the prefix, where it is one.
abbrev pub after_prefix : Text → Text → Option Text
after_prefix [] s = some s
after_prefix (x ∷ xs) [] = none
after_prefix (x ∷ xs) (c ∷ cs) = if x == c then after_prefix xs cs else none

-- strings.Cut.
abbrev pub cut_text : Text → Text → Text × Text × Bool
cut_text sep [] = ([], [], is_empty sep)
cut_text sep (c ∷ cs) =
    let (before, after, found) = cut_text sep cs in
    elim (after_prefix sep (c ∷ cs)) [
      | some rest ↦ ([], rest, true)
      | none ↦ (c ∷ before, after, found)
    ]

-- strings.TrimSuffix.
abbrev pub trim_suffix : Text → Text → Text
trim_suffix suffix s = elim (after_prefix (reverse suffix) (reverse s)) [
  | none ↦ s
  | some rest ↦ reverse rest
]

-- Each text with the code point before it.
abbrev pub each_after : ℕ → List Text → Text
each_after sep [] = []
each_after sep (w ∷ ws) = sep ∷ (w ++ each_after sep ws)

-- strings.Join at one code point.
abbrev pub join_at : ℕ → List Text → Text
join_at sep [] = []
join_at sep (w ∷ ws) = w ++ each_after sep ws

-- A text without the separator is one piece, also before a separator.
pub split_at-piece : (sep : ℕ) (w : Text) → contains_rune w sep ≡ false → split_at sep w ≡ w ∷ []
split_at-piece sep [] h = refl
split_at-piece sep (c ∷ cs) h =
    let e : (c == sep) ≡ false = ground arith in rw (e, split_at-piece sep cs (ground arith)) refl

pub split_at-append :
    (sep : ℕ) (w rest : Text)
    → contains_rune w sep ≡ false
    → split_at sep (w ++ (sep ∷ rest)) ≡ w ∷ split_at sep rest
split_at-append sep [] rest h = ground arith
split_at-append sep (c ∷ cs) rest h =
    let e : (c == sep) ≡ false = ground arith in
    rw (e, split_at-append sep cs rest (ground arith)) refl

pub cut_at-append :
    (sep : ℕ) (w rest : Text)
    → contains_rune w sep ≡ false
    → cut_at sep (w ++ (sep ∷ rest)) ≡ (w, rest, true)
cut_at-append sep [] rest h = let e : (sep == sep) ≡ true = ground arith in rw e refl
cut_at-append sep (c ∷ cs) rest h =
    let e : (c == sep) ≡ false = ground arith in
    rw (e, cut_at-append sep cs rest (ground arith)) refl
