-- ===== src/Session/Status/Bounds.antt =====
-- The length of a published failure, in bytes.
use prukka.Base.{
  ℕ, ◌+◌, ◌-◌, ◌≤◌, ◌≡◌, refl, ap, Bool, Option, none, some, [], ◌∷◌, ◌++◌, map, inl, inr, arith,
  leb, Text, reverse, drop_while, trim_func, fields_from, join, Bool-cases,
}
use mathlib.Core.List.{reverse-cons}
use prukka.Base.Utf8.{rune_bytes, bytes}
use prukka.Base.Unicode.{Unicode}
use prukka.Session.Status.{
  max_runtime_error_bytes, runtime_error_ellipsis, fit, truncate_utf8, LaneError,
  sanitize_runtime_error, redact_untrusted, printable_runtime_rune,
}

bytes-append : (xs ys : Text) → bytes (xs ++ ys) ≡ bytes xs + bytes ys
bytes-append [] ys = omega arith
bytes-append (x ∷ xs) ys = omega (arith, bytes-append xs ys)

bytes-reverse : (xs : Text) → bytes (reverse xs) ≡ bytes xs
bytes-reverse [] = refl
bytes-reverse (x ∷ xs) =
    omega
      (arith, bytes-reverse xs, ap bytes (reverse-cons x xs), bytes-append (reverse xs) (x ∷ []))

bytes-drop_while : (p : ℕ → Bool) (xs : Text) → bytes (drop_while p xs) ≤ bytes xs
bytes-drop_while p [] = omega arith
bytes-drop_while p (x ∷ xs) = ground (arith, bytes-drop_while p xs)

bytes-trim_func : (p : ℕ → Bool) (xs : Text) → bytes (trim_func p xs) ≤ bytes xs
bytes-trim_func p xs =
    let left = drop_while p xs in
    omega (
      arith,
      bytes-reverse (drop_while p (reverse left)),
      bytes-drop_while p (reverse left),
      bytes-reverse left,
      bytes-drop_while p xs,
    )

bytes-fit : (n : ℕ) (xs : Text) → bytes (fit n xs) ≤ n
unfolding fit
bytes-fit n [] = omega arith
bytes-fit n (x ∷ xs) = ground (arith, bytes-fit (n - rune_bytes x) xs)

bytes-truncate_utf8 :
    (u : Unicode) (value : Text) (limit : ℕ)
    → 3 ≤ limit
    → bytes (truncate_utf8 u value limit) ≤ limit
unfolding truncate_utf8
bytes-truncate_utf8 u value limit h = elim (Bool-cases (leb (bytes value) limit)) [
  | inl e ↦ ground arith
  | inr e ↦
      let cut = trim_func u.is_space (fit (limit - 3) value) in
      rw e (
        omega (
          arith,
          bytes-append cut runtime_error_ellipsis,
          bytes-trim_func u.is_space (fit (limit - 3) value),
          bytes-fit (limit - 3) value,
        ))
]

-- A published failure is at most 512 bytes long, whatever the error says and however it is redacted.
pub bytes-sanitize_runtime_error :
    (u : Unicode) (e : Option LaneError) → bytes (sanitize_runtime_error u e) ≤ 512
unfolding sanitize_runtime_error
bytes-sanitize_runtime_error u none = omega arith
bytes-sanitize_runtime_error u (some e) =
    bytes-truncate_utf8 u
      (join (
        fields_from u.is_space []
          (redact_untrusted (map (printable_runtime_rune u) e.message) e.spans)))
      max_runtime_error_bytes (omega arith)
