-- ===== src/Base/Unicode.antt =====
-- Go's tables and folds of code points (packages `unicode` and `strings`), as a parameter of the code
-- that uses them, and a concrete one for ASCII.
use Prim.Native.Nat.{ℕ, ◌+◌, ◌-◌}
use mathlib.Core.Path.{◌≡◌}
use mathlib.Core.Bool.{Bool, true, ◌&&◌, ◌||◌}
use mathlib.Core.List.{map}
use prukka.Base.Tests.{ltb, leb, ◌==◌, if◌then◌else◌}
use prukka.Base.Strings.{Text, codes, text_eq, text_eq_refl, contains_rune}

-- A text is equal to itself under folding; nothing else is asked of the tables here.
pub record Unicode : Type 0 where
  pub is_space : ℕ → Bool
  pub is_punct : ℕ → Bool
  pub is_control : ℕ → Bool
  pub is_print : ℕ → Bool
  pub to_lower : Text → Text
  pub to_upper : Text → Text
  pub equal_fold : Text → Text → Bool
  pub equal_fold_refl : (a : Text) → equal_fold a a ≡ true

abbrev pub lower_ascii : ℕ → ℕ
lower_ascii c = if leb b'A' c && leb c b'Z' then c + 32 else c

abbrev pub upper_ascii : ℕ → ℕ
upper_ascii c = if leb b'a' c && leb c b'z' then c - 32 else c

abbrev pub fold_eq : Text → Text → Bool
fold_eq a b = text_eq (map lower_ascii a) (map lower_ascii b)

pub fold_eq_refl : (a : Text) → fold_eq a a ≡ true
fold_eq_refl a = text_eq_refl (map lower_ascii a)

abbrev pub ascii : Unicode
ascii = record {
  is_space = λ c. c == 32 || c == 9 || c == 10;
  is_punct = λ c. contains_rune (codes ".,;:!?") c;
  is_control = λ c. ltb c 32 || c == 127;
  is_print = λ c. leb 32 c && ltb c 127;
  to_lower = map lower_ascii;
  to_upper = map upper_ascii;
  equal_fold = fold_eq;
  equal_fold_refl = fold_eq_refl;
}
