-- ===== src/Wav/Inspect/Guards.antt =====
-- internal/media/ingest/file/wav.go: what its guards and its reads leave of a result.
use prukka.Base.{ℕ, ◌+◌, ◌≡◌, Bool, false, List, if◌then◌else◌, ltb, length, take, drop, if-split}
use prukka.Base.Result.{Result, ok, err}
use prukka.Wav.Inspect.{InspectError, short_read, read_at}

-- What holds of a result where there is one.
abbrev pub On : {A : Type 0} → (A → Type 0) → Result InspectError A → Type 0
On P (ok a) = P a
On P (err e) = Unit

-- A guard that turns to an error leaves what follows it.
pub guarded :
    {A : Type 0} (P : A → Type 0) (b : Bool) (e : InspectError) (r : Result InspectError A)
    → (b ≡ false → On P r)
    → On P (if b then err e else r)
guarded P b e r h = if-split (On P) b (err e) r (λ _. tt) h

pub read_at-On :
    {A : Type 0} (P : A → Type 0) (raw : List ℕ) (n offset : ℕ) (f : List ℕ → Result InspectError A)
    → On P (f (take n (drop offset raw)))
    → On P (read_at raw n offset f)
unfolding read_at
read_at-On P raw n offset f h =
    guarded P (ltb (length raw) (offset + n)) short_read (f (take n (drop offset raw))) (λ _. h)
