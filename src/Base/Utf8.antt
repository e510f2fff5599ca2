-- ===== src/Base/Utf8.antt =====
-- The length of a text in bytes, as Go's `len` counts a string in UTF-8.
use Prim.Native.Nat.{ℕ, ◌+◌}
use mathlib.Core.List.{[], ◌∷◌}
use prukka.Base.Tests.{ltb, if◌then◌else◌}
use prukka.Base.Strings.{Text}

abbrev pub rune_bytes : ℕ → ℕ
rune_bytes r = if ltb r 128 then 1 else (if ltb r 2048 then 2 else (if ltb r 65536 then 3 else 4))

abbrev pub bytes : Text → ℕ
bytes [] = 0
bytes (r ∷ rs) = rune_bytes r + bytes rs
