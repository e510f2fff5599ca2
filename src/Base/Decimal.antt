-- ===== src/Base/Decimal.antt =====
-- Decimal digits as Go's `fmt` and `strconv` print them, and the number that a text of digits stands for.
use Prim.Native.Nat.{ℕ, zero, suc, ◌+◌, ◌-◌, ◌*◌, ◌/◌, ◌%◌, ◌≤◌}
use mathlib.Core.Path.{◌≡◌, refl}
use mathlib.Core.Logic.{inl, inr}
use mathlib.Core.Bool.{Bool, false, ◌&&◌, ◌||◌}
use mathlib.Core.List.{[], ◌∷◌, ◌++◌}
use native.Mathlib.Nat.{div-add-mod}
use native.Mathlib.Omega.{arith}
use prukka.Base.Tests.{ltb, leb, if◌then◌else◌, Bool-cases}
use prukka.Base.Lists.{length, replicate}
use prukka.Base.Strings.{Text, contains_rune}

abbrev pub is_digit : ℕ → Bool
is_digit c = leb b'0' c && leb c b'9'

abbrev pub digit : ℕ → ℕ
digit n = b'0' + n % 10

-- The digits of a number, the last one added at the end; the rounds are counted by the number itself.
unfoldable pub digits_from : ℕ → ℕ → Text
digits_from zero n = digit n ∷ []
digits_from (suc k) n =
    let front = digits_from k (n / 10) in if ltb n 10 then digit n ∷ [] else front ++ (digit n ∷ [])

unfoldable pub digits : ℕ → Text
digits n = digits_from n n

-- The verb %0wd of a number from 0 on.
unfoldable pub padded : ℕ → ℕ → Text
padded w n = replicate (w - length (digits n)) b'0' ++ digits n

unfoldable pub value_from : ℕ → Text → ℕ
value_from acc [] = acc
value_from acc (c ∷ cs) = value_from (acc * 10 + (c - b'0')) cs

abbrev pub value : Text → ℕ
value = value_from 0

pub value_from-append :
    (acc : ℕ) (a b : Text) → value_from acc (a ++ b) ≡ value_from (value_from acc a) b
unfolding value_from
value_from-append acc [] b = refl
value_from-append acc (c ∷ cs) b = value_from-append (acc * 10 + (c - b'0')) cs b

value-last : (front : Text) (n : ℕ) → value (front ++ (digit n ∷ [])) ≡ value front * 10 + n % 10
unfolding value_from
value-last front n = rw (value_from-append 0 front (digit n ∷ [])) (omega arith)

value-digits_from : (k n : ℕ) → n ≤ k → value (digits_from k n) ≡ n
unfolding digits_from value_from
value-digits_from zero n h = omega arith
value-digits_from (suc k) n h = elim (Bool-cases (ltb n 10)) [
  | inl e ↦ rw e (ground arith)
  | inr e ↦ rw (e, value-last) (ground (arith, value-digits_from k (n / 10), div-add-mod n 10))
]

value_from-zeros : (k : ℕ) → value_from 0 (replicate k b'0') ≡ 0
unfolding value_from
value_from-zeros zero = refl
value_from-zeros (suc k) = value_from-zeros k

-- Reading back what was printed gives the number, padded or not.
pub value-digits : (n : ℕ) → value (digits n) ≡ n
unfolding digits
value-digits n = value-digits_from n n (omega arith)

pub value-padded : (w n : ℕ) → value (padded w n) ≡ n
unfolding padded
value-padded w n = rw (value_from-append, value_from-zeros, value-digits n)

contains_rune-append :
    (a b : Text) (sep : ℕ)
    → contains_rune (a ++ b) sep ≡ (contains_rune a sep || contains_rune b sep)
contains_rune-append [] b sep = refl
contains_rune-append (c ∷ cs) b sep = ground (arith, contains_rune-append cs b sep)

last_without : (n sep : ℕ) → is_digit sep ≡ false → contains_rune (digit n ∷ []) sep ≡ false
last_without n sep h = ground arith

zeros_without : (k sep : ℕ) → is_digit sep ≡ false → contains_rune (replicate k b'0') sep ≡ false
zeros_without zero sep h = refl
zeros_without (suc k) sep h = ground (arith, zeros_without k sep h)

digits_from-without :
    (k n sep : ℕ) → (is_digit sep) ≡ false → contains_rune (digits_from k n) sep ≡ false
unfolding digits_from
digits_from-without zero n sep h = ground (arith, last_without n sep h)
digits_from-without (suc k) n sep h = elim (Bool-cases (ltb n 10)) [
  | inl e ↦ rw e (last_without n sep h)
  | inr e ↦
      rw (e, contains_rune-append)
        (ground (arith, last_without n sep h, digits_from-without k (n / 10) sep h))
]

-- A printed number holds only digits.
pub padded-without : (w n sep : ℕ) → is_digit sep ≡ false → contains_rune (padded w n) sep ≡ false
unfolding padded digits
padded-without w n sep h =
    rw contains_rune-append
      (ground (arith, zeros_without (w - length (digits n)) sep h, digits_from-without n n sep h))
