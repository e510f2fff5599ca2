-- ===== src/Wav/Inspect/Region.antt =====
-- internal/media/ingest/file/wav.go: where the samples of an accepted source lie.
use prukka.Base.{ℕ, ◌≤◌, List}
use prukka.Base.Result.{Result}
use prukka.Wav.Inspect.{WavSpec, WavInspection}
use prukka.Wav.Inspect.Steps.{IsRegion, Inv}

abbrev pub Valid : List ℕ → ℕ → WavInspection → Type 0
Valid raw end s = Inv s.chunks raw end s

unfoldable Found : List ℕ → ℕ → WavSpec → Type 0
Found raw file_size spec = (end : ℕ) × (end ≤ file_size) × IsRegion raw end spec
