-- ===== src/Session/Validate/Languages.antt =====
-- What the checks of a session's languages accept, without their loops: targets that are each written as
-- they parse and stand once, and dubbed languages that are targets and stand once.
use prukka.Base.{◌≡◌, refl, true, none, List, [], ◌∷◌, arith, Text, contains, All}
use prukka.Base.Distinct.{IsDistinct, Apart, Apart-uncons, Apart-cons}
use prukka.Session.Model.{Platform}
use prukka.Session.Flags.{names_ok}
use prukka.Session.Validate.{target_ok, targets_ok}

module _ (p : Platform) where
  abbrev pub IsTarget : Text → Type 0
  IsTarget l = target_ok p l ≡ true

  pub targets_ok_sound :
      (seen ls : List Text)
      → targets_ok p seen ls ≡ none
      → All IsTarget ls × IsDistinct ls × Apart seen ls
  unfolding targets_ok
  targets_ok_sound seen [] h = (tt, tt, tt)
  targets_ok_sound seen (l ∷ ls) h =
      let (ok', distinct, apart) = targets_ok_sound (l ∷ seen) ls (ground arith) in
      let (c, rest) = Apart-uncons l seen ls apart in
      ((ground arith, ok'), (c, distinct), (ground arith, rest))

  pub targets_ok_complete :
      (seen ls : List Text)
      → All IsTarget ls
      → IsDistinct ls
      → Apart seen ls
      → targets_ok p seen ls ≡ none
  unfolding targets_ok
  targets_ok_complete seen [] o d a = refl
  targets_ok_complete seen (l ∷ ls) o d a =
      rw (o.0, a.0) (targets_ok_complete (l ∷ seen) ls o.1 d.1 (Apart-cons l seen ls d.0 a.1))

abbrev pub AllIn : List Text → List Text → Type 0
AllIn targets ls = All (λ l. contains l targets ≡ true) ls

pub names_ok_sound :
    (targets seen ls : List Text)
    → names_ok targets seen ls ≡ true
    → AllIn targets ls × IsDistinct ls × Apart seen ls
names_ok_sound targets seen [] h = (tt, tt, tt)
names_ok_sound targets seen (l ∷ ls) h =
    let (members, distinct, apart) = names_ok_sound targets (l ∷ seen) ls (ground arith) in
    let (c, rest) = Apart-uncons l seen ls apart in
    ((ground arith, members), (c, distinct), (ground arith, rest))

pub names_ok_complete :
    (targets seen ls : List Text)
    → AllIn targets ls
    → IsDistinct ls
    → Apart seen ls
    → names_ok targets seen ls ≡ true
names_ok_complete targets seen [] o d a = refl
names_ok_complete targets seen (l ∷ ls) o d a =
    rw (o.0, a.0) (names_ok_complete targets (l ∷ seen) ls o.1 d.1 (Apart-cons l seen ls d.0 a.1))
