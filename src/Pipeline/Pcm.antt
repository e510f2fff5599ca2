-- ===== src/Pipeline/Pcm.antt =====
-- internal/core/pipeline/pcm.go: 16-bit PCM and its little-endian bytes. A byte is a number below 256, and
-- the fields that the source joins with `|` have no bit in common, so that joining adds.
use prukka.Base.{
  ℕ, zero, suc, ◌+◌, ◌-◌, ◌*◌, ◌/◌, ◌%◌, ◌^◌, ◌≤◌, ◌<◌, min, max, ◌≡◌, refl, sym, ap, ◌∙◌, Bool,
  true, false, List, [], ◌∷◌, ◌++◌, Option, none, some, arith, if◌then◌else◌, ltb, leb, ◌==◌, ◌||◌,
  not, length, take, drop, replicate,
}
use prukka.Base.Int.{ℤ, pos, negsuc, abs}
use prukka.Pipeline.Units.{Sample, silence, sample_rate, second}
pub mod Codec
mod Tests

unfoldable pub sample_period : ℕ
sample_period = second / sample_rate

-- `none` is the panic. A duration is an int64, so that the count of its samples fits in 63 bits, and `int`
-- holds it on the targets, where it has 64.
unfoldable pub samples_in_quantum : ℤ → Option ℕ
unfolding sample_period
samples_in_quantum (pos d) =
    if d == 0 || not (d % sample_period == 0) then none else some (d / sample_period)
samples_in_quantum (negsuc d) = none

unfoldable pub peak_from : ℕ → List Sample → ℕ
peak_from peak [] = peak
peak_from peak (s ∷ ss) = peak_from (max peak (abs s)) ss

unfoldable pub peak_s16 : List Sample → ℕ
unfolding peak_from
peak_s16 = peak_from 0

-- The conversions uint16(s) and int16(u).
unfoldable pub to_uint16 : Sample → ℕ
to_uint16 (pos n) = n % 2 ^ 16
to_uint16 (negsuc n) = 2 ^ 16 - 1 - n % 2 ^ 16

unfoldable pub of_uint16 : ℕ → Sample
of_uint16 u = if ltb u (2 ^ 15) then pos u else negsuc (2 ^ 16 - 1 - u)

-- The rounds of the decoding loop: one sample of `dst` from two bytes of `src` in each.
unfoldable pub decode_rounds : ℕ → List Sample → List ℕ → List Sample
unfolding of_uint16
decode_rounds zero dst src = dst
decode_rounds (suc n) (d ∷ dst) (lo ∷ hi ∷ src) =
    of_uint16 (lo + hi * 2 ^ 8) ∷ decode_rounds n dst src
decode_rounds (suc n) [] src = []
decode_rounds (suc n) (d ∷ dst) [] = d ∷ dst
decode_rounds (suc n) (d ∷ dst) (lo ∷ []) = d ∷ dst

-- DecodeS16LE: what it leaves in `dst`, and the count that it returns.
unfoldable pub decode_s16_le : List Sample → List ℕ → List Sample × ℕ
unfolding decode_rounds
decode_s16_le dst src = let n = min (length src / 2) (length dst) in (decode_rounds n dst src, n)

-- binary.LittleEndian.PutUint64 and PutUint16: the first bytes of a number.
unfoldable pub little_endian : ℕ → ℕ → List ℕ
little_endian zero v = []
little_endian (suc n) v = v % 2 ^ 8 ∷ little_endian n (v / 2 ^ 8)

-- A store at an offset of a slice; `none` is the panic of a slice that is too short.
unfoldable pub put_bytes : List ℕ → ℕ → List ℕ → Option (List ℕ)
put_bytes dst at bytes =
    if leb (at + length bytes) (length dst)
    then some (take at dst ++ bytes ++ drop (at + length bytes) dst)
    else none

unfoldable pub packed : Sample → Sample → Sample → Sample → ℕ
unfolding to_uint16
packed a b c d = to_uint16 a + to_uint16 b * 2 ^ 16 + to_uint16 c * 2 ^ 32 + to_uint16 d * 2 ^ 48

infixl 5 ◌>>=◌
abbrev ◌>>=◌ : Option (List ℕ) → (List ℕ → Option (List ℕ)) → Option (List ℕ)
none >>= k = none
some a >>= k = k a

-- The second loop, from the sample with index `i` on.
unfoldable pub encode_rest : List ℕ → ℕ → List Sample → Option (List ℕ)
unfolding put_bytes little_endian to_uint16
encode_rest dst i [] = some dst
encode_rest dst i (s ∷ ss) =
    put_bytes dst (i * 2) (little_endian 2 (to_uint16 s)) >>= (λ next. encode_rest next (i + 1) ss)

-- The first loop, four samples to a store, and then the second.
unfoldable pub encode_fours : List ℕ → ℕ → List Sample → Option (List ℕ)
unfolding put_bytes little_endian packed encode_rest
encode_fours dst i (a ∷ b ∷ c ∷ d ∷ ss) =
    put_bytes dst (i * 2) (little_endian 8 (packed a b c d))
    >>= (λ next. encode_fours next (i + 4) ss)
encode_fours dst i [] = encode_rest dst i []
encode_fours dst i (a ∷ []) = encode_rest dst i (a ∷ [])
encode_fours dst i (a ∷ b ∷ []) = encode_rest dst i (a ∷ b ∷ [])
encode_fours dst i (a ∷ b ∷ c ∷ []) = encode_rest dst i (a ∷ b ∷ c ∷ [])

unfoldable pub encode_into : List ℕ → List Sample → Option (List ℕ)
unfolding encode_fours
encode_into dst samples = encode_fours dst 0 samples

unfoldable pub encode_s16_le : List Sample → Option (List ℕ)
unfolding encode_into
encode_s16_le samples = encode_into (replicate (length samples * 2) 0) samples

-- AppendS16LE; `spare` is what the slice's capacity holds behind its length.
unfoldable pub append_s16_le : List ℕ → List ℕ → List Sample → Option (List ℕ)
unfolding encode_into
append_s16_le dst spare samples =
    let encoded_len = length samples * 2 in
    let tail =
      if ltb (length spare) encoded_len then replicate encoded_len 0 else take encoded_len spare in
    encode_into tail samples >>= (λ bytes. some (dst ++ bytes))
