-- ===== src/Pipeline/Pcm/Codec.antt =====
-- internal/core/pipeline/pcm.go: the encoder against one that writes a byte at a time, and the decoder
-- against the encoder.
use prukka.Base.{
  ℕ, ◌+◌, ◌*◌, ◌/◌, ◌%◌, ◌^◌, ◌≤◌, ◌<◌, min, ◌≡◌, refl, sym, ap, ap₂, ◌∙◌, true, List, [], ◌∷◌,
  ◌++◌, some, arith, if◌then◌else◌, ltb, leb, length, take, drop, replicate, All, inl, inr,
  Bool-cases, length-append, length-take, length-replicate, take-length-append, append_assoc,
  drop-append, drop-drop, drop-all, length-drop,
}
use mathlib.Core.Option
use prukka.Base.Int.{pos, negsuc}
use prukka.Pipeline.Units.{Sample}
use prukka.Pipeline.Pcm.{
  to_uint16, of_uint16, decode_rounds, decode_s16_le, little_endian, put_bytes, packed, encode_rest,
  encode_fours, encode_into, ◌>>=◌, encode_s16_le, append_s16_le,
}

-- The reference: the low byte and the high byte of each sample, one sample after the other.
unfoldable pub bytes_of : List Sample → List ℕ
bytes_of [] = []
bytes_of (s ∷ ss) = to_uint16 s % 256 ∷ to_uint16 s / 256 % 256 ∷ bytes_of ss

length-bytes_of : (ss : List Sample) → length (bytes_of ss) ≡ length ss * 2
unfolding bytes_of
length-bytes_of [] = refl
length-bytes_of (s ∷ ss) = omega (arith, length-bytes_of ss)

-- A store right behind what is done takes the next bytes and no others.
put_bytes-next :
    (done todo bytes : List ℕ) (at : ℕ)
    → length done ≡ at
    → length bytes ≤ length todo
    → put_bytes (done ++ todo) at bytes ≡ some (done ++ bytes ++ drop (length bytes) todo)
unfolding put_bytes
put_bytes-next done todo bytes at e h =
    let enough : leb (length done + length bytes) (length (done ++ todo)) ≡ true =
      ground (arith, length-append done todo) in
    rw (← e, enough, take-length-append done todo, behind (length bytes)) refl
  where
    front_dropped : drop (length done) (done ++ todo) ≡ todo
    front_dropped =
        drop-append (length done) done todo (omega arith)
        ∙ rw (drop-all (length done) done (omega arith)) refl

    behind : (n : ℕ) → drop (length done + n) (done ++ todo) ≡ drop n todo
    behind n = sym (drop-drop n (length done) (done ++ todo)) ∙ ap (drop n) front_dropped

pub to_uint16-lt : (s : Sample) → to_uint16 s < 65536
unfolding to_uint16
to_uint16-lt (pos n) = omega arith
to_uint16-lt (negsuc n) = omega arith

little_endian-two : (s : Sample) → little_endian 2 (to_uint16 s) ≡ bytes_of (s ∷ [])
unfolding little_endian bytes_of
little_endian-two s = refl

little_endian-packed :
    (a b c d : Sample) → little_endian 8 (packed a b c d) ≡ bytes_of (a ∷ b ∷ c ∷ d ∷ [])
unfolding little_endian bytes_of packed
little_endian-packed a b c d =
    ground (arith, to_uint16-lt a, to_uint16-lt b, to_uint16-lt c, to_uint16-lt d)

bytes_of-append : (xs ys : List Sample) → bytes_of (xs ++ ys) ≡ bytes_of xs ++ bytes_of ys
unfolding bytes_of
bytes_of-append [] ys = refl
bytes_of-append (x ∷ xs) ys =
    ap (λ rest. to_uint16 x % 256 ∷ to_uint16 x / 256 % 256 ∷ rest) (bytes_of-append xs ys)

-- One store of the group `ss`, from where the samples before it end.
store-next :
    (done todo : List ℕ) (i : ℕ) (ss rest : List Sample)
    → length done ≡ i * 2
    → length todo ≡ length (ss ++ rest) * 2
    → (put_bytes (done ++ todo) (i * 2) (bytes_of ss)
        ≡ some (done ++ bytes_of ss ++ drop (length ss * 2) todo))
      × (length (done ++ bytes_of ss) ≡ (i + length ss) * 2)
      × (length (drop (length ss * 2) todo) ≡ length rest * 2)
store-next done todo i ss rest hd ht = (
  put_bytes-next done todo (bytes_of ss) (i * 2) hd (omega (arith, length-bytes_of ss, both))
      ∙ rw (length-bytes_of ss) refl,
  omega (arith, length-append done (bytes_of ss), length-bytes_of ss),
  omega (arith, length-drop (length ss * 2) todo, both),
)
  where
    both : length (ss ++ rest) ≡ length ss + length rest
    both = length-append ss rest

encode_rest-bytes_of :
    (ss : List Sample) (done todo : List ℕ) (i : ℕ)
    → length done ≡ i * 2
    → length todo ≡ length ss * 2
    → encode_rest (done ++ todo) i ss ≡ some (done ++ bytes_of ss)
unfolding encode_rest bytes_of
encode_rest-bytes_of [] done [] i hd ht = refl
encode_rest-bytes_of [] done (b ∷ todo) i hd ht = absurd (omega arith)
encode_rest-bytes_of (s ∷ ss) done todo i hd ht =
    let (stored, hd', ht') = store-next done todo i (s ∷ []) ss hd ht in
    ap (λ o. o >>= (λ next. encode_rest next (i + 1) ss)) stored
    ∙ encode_rest-bytes_of ss (done ++ bytes_of (s ∷ [])) (drop 2 todo) (i + 1) hd' ht'
    ∙ ap some (append_assoc done (bytes_of (s ∷ [])) (bytes_of ss))

encode_fours-bytes_of :
    (ss : List Sample) (done todo : List ℕ) (i : ℕ)
    → length done ≡ i * 2
    → length todo ≡ length ss * 2
    → encode_fours (done ++ todo) i ss ≡ some (done ++ bytes_of ss)
unfolding encode_fours
encode_fours-bytes_of [] done todo i hd ht = encode_rest-bytes_of [] done todo i hd ht
encode_fours-bytes_of (a ∷ []) done todo i hd ht = encode_rest-bytes_of (a ∷ []) done todo i hd ht
encode_fours-bytes_of (a ∷ b ∷ []) done todo i hd ht =
    encode_rest-bytes_of (a ∷ b ∷ []) done todo i hd ht
encode_fours-bytes_of (a ∷ b ∷ c ∷ []) done todo i hd ht =
    encode_rest-bytes_of (a ∷ b ∷ c ∷ []) done todo i hd ht
encode_fours-bytes_of (a ∷ b ∷ c ∷ d ∷ ss) done todo i hd ht =
    let four = a ∷ b ∷ c ∷ d ∷ [] in
    let (stored, hd', ht') = store-next done todo i four ss hd ht in
    ap (λ bytes. put_bytes (done ++ todo) (i * 2) bytes >>= (λ next. encode_fours next (i + 4) ss))
      (little_endian-packed a b c d)
    ∙ ap (λ o. o >>= (λ next. encode_fours next (i + 4) ss)) stored
    ∙ encode_fours-bytes_of ss (done ++ bytes_of four) (drop 8 todo) (i + 4) hd' ht'
    ∙ ap some (
        append_assoc done (bytes_of four) (bytes_of ss)
        ∙ ap (◌++◌ done) (sym (bytes_of-append four ss)))

encode_into-bytes_of :
    (dst : List ℕ) (ss : List Sample)
    → length dst ≡ length ss * 2
    → encode_into dst ss ≡ some (bytes_of ss)
unfolding encode_into
encode_into-bytes_of dst ss h = encode_fours-bytes_of ss [] dst 0 refl h

-- The encoder that stores four samples at a time never writes out of range, and writes exactly the bytes
-- that a loop over single bytes would; appending to a slice adds them behind it, whatever its capacity
-- held.
pub encode_s16_le-bytes_of :
    (ss : List Sample) (dst spare : List ℕ)
    → (encode_s16_le ss ≡ some (bytes_of ss))
      × (append_s16_le dst spare ss ≡ some (dst ++ bytes_of ss))
unfolding encode_s16_le append_s16_le
encode_s16_le-bytes_of ss dst spare = (
  encode_into-bytes_of (replicate (length ss * 2) 0) ss (length-replicate (length ss * 2) 0),
  ap (λ o. o >>= (λ bytes. some (dst ++ bytes))) (encode_into-bytes_of _ ss long),
)
  where
    long :
        length (
          if ltb (length spare) (length ss * 2)
          then replicate (length ss * 2) 0
          else take (length ss * 2) spare)
        ≡ length ss * 2
    long = elim (Bool-cases (ltb (length spare) (length ss * 2))) [
      | inl e ↦ rw e (length-replicate (length ss * 2) 0)
      | inr e ↦ rw e (ground (arith, length-take (length ss * 2) spare))
    ]

-- A 16-bit sample.
abbrev pub IsS16 : Sample → Type 0
IsS16 (pos n) = n < 2 ^ 15
IsS16 (negsuc n) = n < 2 ^ 15

pub of_uint16-to_uint16 : (s : Sample) → IsS16 s → of_uint16 (to_uint16 s) ≡ s
unfolding of_uint16 to_uint16
of_uint16-to_uint16 (pos n) h = ground arith
of_uint16-to_uint16 (negsuc n) h = ground arith

decode_rounds-bytes_of :
    (ss dst : List Sample)
    → All IsS16 ss
    → length ss ≤ length dst
    → decode_rounds (length ss) dst (bytes_of ss) ≡ ss ++ drop (length ss) dst
unfolding decode_rounds bytes_of
decode_rounds-bytes_of [] dst h l = refl
decode_rounds-bytes_of (s ∷ ss) [] h l = absurd (omega arith)
decode_rounds-bytes_of (s ∷ ss) (d ∷ dst) h l =
    ap₂ ◌∷◌ (ap of_uint16 joined ∙ of_uint16-to_uint16 s h.0)
      (decode_rounds-bytes_of ss dst h.1 (omega arith))
  where
    joined : to_uint16 s % 256 + to_uint16 s / 256 % 256 * 2 ^ 8 ≡ to_uint16 s
    joined = omega (arith, to_uint16-lt s)

decode_s16_le-bytes_of :
    (ss dst : List Sample)
    → All IsS16 ss
    → length ss ≤ length dst
    → decode_s16_le dst (bytes_of ss) ≡ (ss ++ drop (length ss) dst, length ss)
unfolding decode_s16_le
decode_s16_le-bytes_of ss dst h l =
    let n : min (length (bytes_of ss) / 2) (length dst) ≡ length ss =
      omega (arith, length-bytes_of ss) in
    rw (n, decode_rounds-bytes_of ss dst h l) refl

-- Encoding 16-bit samples succeeds, and decoding the result into a buffer with room for them gives the samples back, leaves the
-- rest of the buffer alone and reports their count.
pub decode_s16_le-encode_s16_le :
    (ss dst : List Sample)
    → All IsS16 ss
    → length ss ≤ length dst
    → Option.map (decode_s16_le dst) (encode_s16_le ss)
      ≡ some (ss ++ drop (length ss) dst, length ss)
decode_s16_le-encode_s16_le ss dst h l =
    rw (encode_s16_le-bytes_of ss [] []).0 (ap some (decode_s16_le-bytes_of ss dst h l))
