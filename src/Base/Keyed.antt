-- ===== src/Base/Keyed.antt =====
-- Go's maps with text keys, as association lists: an entry is written where its key stands, or at the
-- end. The order of the entries is not observed by what reads them here.
use Prim.Native.Nat.{suc, ◌+◌, ◌≤◌}
use mathlib.Core.Path.{◌≡◌, refl, sym, ap, subst}
use mathlib.Core.Logic.{◌⊎◌, inl, inr}
use mathlib.Core.Bool.{true, false, ◌||◌}
use mathlib.Core.Option.{Option, none, some}
use mathlib.Core.List.{List, [], ◌∷◌}
use native.Mathlib.Omega.{arith}
use prukka.Base.Tests.{if◌then◌else◌, Bool-cases}
use prukka.Base.Lists.{length, All}
use prukka.Base.Strings.{Text, text_eq, text_eq_sound, text_eq_refl, contains}
use prukka.Base.Distinct.{IsDistinct, text_eq_comm}

pub text_eq_ne : (l k j : Text) → text_eq l k ≡ true → text_eq k j ≡ false → text_eq l j ≡ false
text_eq_ne l k j e n = subst (λ x. text_eq x j ≡ false) (sym (text_eq_sound l k e)) n

module _ {ℓ} {A : Type ℓ} where
  abbrev pub find : Text → List (Text × A) → Option A
  find k [] = none
  find k ((l, a) ∷ m) = if text_eq l k then some a else find k m

  abbrev pub put : Text → A → List (Text × A) → List (Text × A)
  put k v [] = (k, v) ∷ []
  put k v ((l, a) ∷ m) = let rest = put k v m in if text_eq l k then (l, v) ∷ m else (l, a) ∷ rest

  abbrev pub erase : Text → List (Text × A) → List (Text × A)
  erase k [] = []
  erase k ((l, a) ∷ m) = let rest = erase k m in if text_eq l k then rest else (l, a) ∷ rest

  abbrev pub keys : List (Text × A) → List Text
  keys [] = []
  keys ((l, a) ∷ m) = l ∷ keys m

  pub find-put : (k : Text) (v : A) (m : List (Text × A)) → find k (put k v m) ≡ some v
  find-put k v [] = ground (arith, text_eq_refl k)
  find-put k v ((l, a) ∷ m) = elim (Bool-cases (text_eq l k)) [
    | inl e ↦ rw (e, e) refl
    | inr e ↦ rw (e, e) (find-put k v m)
  ]

  pub find-put_other :
      (j k : Text) (v : A) (m : List (Text × A))
      → text_eq k j ≡ false
      → find j (put k v m) ≡ find j m
  find-put_other j k v [] n = rw n refl
  find-put_other j k v ((l, a) ∷ m) n = elim (Bool-cases (text_eq l k)) [
    | inl e ↦ rw (e, text_eq_ne l k j e n) refl
    | inr e ↦ elim (Bool-cases (text_eq l j)) [
      | inl f ↦ rw (e, f) refl
      | inr f ↦ rw (e, f) (find-put_other j k v m n)
    ]
  ]

  pub find-erase : (k : Text) (m : List (Text × A)) → find k (erase k m) ≡ none
  find-erase k [] = refl
  find-erase k ((l, a) ∷ m) = elim (Bool-cases (text_eq l k)) [
    | inl e ↦ rw e (find-erase k m)
    | inr e ↦ rw (e, e) (find-erase k m)
  ]

  pub find-erase_other :
      (j k : Text) (m : List (Text × A)) → text_eq k j ≡ false → find j (erase k m) ≡ find j m
  find-erase_other j k [] n = refl
  find-erase_other j k ((l, a) ∷ m) n = elim (Bool-cases (text_eq l k)) [
    | inl e ↦ rw (e, text_eq_ne l k j e n) (find-erase_other j k m n)
    | inr e ↦ elim (Bool-cases (text_eq l j)) [
      | inl f ↦ rw (e, f) refl
      | inr f ↦ rw (e, f) (find-erase_other j k m n)
    ]
  ]

  -- A read after a write, where the keys are the same or not.
  pub find-put_cases :
      (j k : Text) (v : A) (m : List (Text × A))
      → ((k ≡ j) × (find j (put k v m) ≡ some v))
        ⊎ ((text_eq k j ≡ false) × (find j (put k v m) ≡ find j m))
  find-put_cases j k v m = elim (Bool-cases (text_eq k j)) [
    | inl e ↦
        let same = text_eq_sound k j e in
        inl (same, subst (λ x. find x (put k v m) ≡ some v) same (find-put k v m))
    | inr e ↦ inr (e, find-put_other j k v m e)
  ]

  pub find-erase_cases :
      (j k : Text) (m : List (Text × A))
      → ((k ≡ j) × (find j (erase k m) ≡ none))
        ⊎ ((text_eq k j ≡ false) × (find j (erase k m) ≡ find j m))
  find-erase_cases j k m = elim (Bool-cases (text_eq k j)) [
    | inl e ↦
        let same = text_eq_sound k j e in
        inl (same, subst (λ x. find x (erase k m) ≡ none) same (find-erase k m))
    | inr e ↦ inr (e, find-erase_other j k m e)
  ]

  contains-keys-put :
      (j k : Text) (v : A) (m : List (Text × A))
      → contains j (keys (put k v m)) ≡ (text_eq k j || contains j (keys m))
  contains-keys-put j k v [] = refl
  contains-keys-put j k v ((l, a) ∷ m) = elim (Bool-cases (text_eq l k)) [
    | inl e ↦
        let same : text_eq l j ≡ text_eq k j = ap (λ x. text_eq x j) (text_eq_sound l k e) in
        rw e (ground (arith, same))
    | inr e ↦ rw e (ground (arith, contains-keys-put j k v m))
  ]

  contains-keys-erase :
      (j k : Text) (m : List (Text × A))
      → contains j (keys m) ≡ false
      → contains j (keys (erase k m)) ≡ false
  contains-keys-erase j k [] n = refl
  contains-keys-erase j k ((l, a) ∷ m) n = ground (arith, contains-keys-erase j k m)

  pub IsDistinct-put :
      (k : Text) (v : A) (m : List (Text × A)) → IsDistinct (keys m) → IsDistinct (keys (put k v m))
  IsDistinct-put k v [] d = (refl, tt)
  IsDistinct-put k v ((l, a) ∷ m) d = elim (Bool-cases (text_eq l k)) [
    | inl e ↦ rw e d
    | inr e ↦
        rw e (
          ground (arith, contains-keys-put l k v m, text_eq_comm l k, d.0),
          IsDistinct-put k v m d.1,
        )
  ]

  pub IsDistinct-erase :
      (k : Text) (m : List (Text × A)) → IsDistinct (keys m) → IsDistinct (keys (erase k m))
  IsDistinct-erase k [] d = tt
  IsDistinct-erase k ((l, a) ∷ m) d = elim (Bool-cases (text_eq l k)) [
    | inl e ↦ rw e (IsDistinct-erase k m d.1)
    | inr e ↦ rw e (contains-keys-erase l k m d.0, IsDistinct-erase k m d.1)
  ]

  -- A write to a key that is there keeps the count; to one that is not adds one.
  pub length-put :
      (k : Text) (v : A) (m : List (Text × A))
      → ((a : A) → find k m ≡ some a → length (put k v m) ≡ length m)
        × (find k m ≡ none → length (put k v m) ≡ length m + 1)
  length-put k v [] = (λ a e. cc, λ e. refl)
  length-put k v ((l, a) ∷ m) = elim (Bool-cases (text_eq l k)) [
    | inl e ↦ rw e (λ b h. refl, λ h. cc)
    | inr e ↦
        let (there, absent) = length-put k v m in
        rw e (λ b h. ap suc (there b h), λ h. omega (arith, absent h))
  ]

  pub length-erase-le : (k : Text) (m : List (Text × A)) → length (erase k m) ≤ length m
  length-erase-le k [] = omega arith
  length-erase-le k ((l, a) ∷ m) = ground (arith, length-erase-le k m)

module _ {ℓ κ} {A : Type ℓ} (P : Text × A → Type κ) where
  pub All-put : (k : Text) (v : A) (m : List (Text × A)) → All P m → P (k, v) → All P (put k v m)
  All-put k v [] h p = (p, tt)
  All-put k v ((l, a) ∷ m) h p = elim (Bool-cases (text_eq l k)) [
    | inl e ↦ rw e (subst (λ x. P (x, v)) (sym (text_eq_sound l k e)) p, h.1)
    | inr e ↦ rw e (h.0, All-put k v m h.1 p)
  ]

  pub All-erase : (k : Text) (m : List (Text × A)) → All P m → All P (erase k m)
  All-erase k [] h = tt
  All-erase k ((l, a) ∷ m) h = elim (Bool-cases (text_eq l k)) [
    | inl e ↦ rw e (All-erase k m h.1)
    | inr e ↦ rw e (h.0, All-erase k m h.1)
  ]

  pub All-find : (k : Text) (a : A) (m : List (Text × A)) → All P m → find k m ≡ some a → P (k, a)
  All-find k a [] h e = cc
  All-find k a ((l, b) ∷ m) h e = elim (Bool-cases (text_eq l k)) [
    | inl s ↦
        let same : b ≡ a = ground arith in
        subst (λ x. P (k, x)) same (subst (λ x. P (x, b)) (text_eq_sound l k s) h.0)
    | inr s ↦ All-find k a m h.1 (rw s at e)
  ]
