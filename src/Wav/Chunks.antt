-- ===== src/Wav/Chunks.antt =====
-- internal/speechengine/wav.go: the fields and the chunks, as the writer writes and the reader reads them.
use prukka.Base.{
  ℕ, zero, suc, ◌+◌, ◌/◌, ◌%◌, ◌^◌, ◌<◌, ◌≡◌, refl, sym, ap, ◌∙◌, false, List, [], ◌∷◌, ◌++◌, ltb,
  length, take, drop, take-length-append, drop-drop, length-append, append_assoc, arith, Text,
}
use prukka.Base.Result.{ok}
use prukka.Pipeline.Pcm.{little_endian}
use prukka.Wav.{value_le, field, chunk_from, read_wav_chunk, chunk_bytes}

module _ {A : Type 0} where
  drop-length-append : (xs ys : List A) → drop (length xs) (xs ++ ys) ≡ ys
  drop-length-append [] ys = refl
  drop-length-append (x ∷ xs) ys = drop-length-append xs ys

  pub take-front : (n : ℕ) (xs ys : List A) → length xs ≡ n → take n (xs ++ ys) ≡ xs
  take-front n xs ys e = rw (← e) (take-length-append xs ys)

  pub drop-front : (n : ℕ) (xs ys : List A) → length xs ≡ n → drop n (xs ++ ys) ≡ ys
  drop-front n xs ys e = rw (← e) (drop-length-append xs ys)

pub length-little_endian : (n v : ℕ) → length (little_endian n v) ≡ n
unfolding little_endian
length-little_endian zero v = refl
length-little_endian (suc n) v = ap suc (length-little_endian n (v / 2 ^ 8))

pub value_le-two : (v : ℕ) → v < 2 ^ 16 → value_le (little_endian 2 v) ≡ v
unfolding value_le little_endian
value_le-two v h = omega arith

pub value_le-four : (v : ℕ) → v < 2 ^ 32 → value_le (little_endian 4 v) ≡ v
unfolding value_le little_endian
value_le-four v h = omega arith

chunk_from-even :
    (id : Text) (body rest : List ℕ)
    → length body % 2 ≡ 0
    → chunk_from id (length body) (body ++ rest) ≡ ok (record { id = id; body = body; next = rest })
unfolding chunk_from
chunk_from-even id body rest even =
    let whole : ltb (length (body ++ rest)) (length body) ≡ false =
      ground (arith, length-append body rest) in
    let size : length body + length body % 2 ≡ length body = omega arith in
    rw (size, whole, take-length-append body rest, drop-length-append body rest) refl

-- A chunk with an even body is read as it was written, and what follows it is left.
pub read_wav_chunk-chunk_bytes :
    (id : Text) (body rest : List ℕ)
    → length id ≡ 4
    → length body < 2 ^ 32
    → length body % 2 ≡ 0
    → read_wav_chunk (chunk_bytes id body ++ rest)
      ≡ ok (record { id = id; body = body; next = rest })
read_wav_chunk-chunk_bytes id body rest hi hb even = ap read_wav_chunk laid ∙ reads
  where
    size : List ℕ
    size = little_endian 4 (length body % 2 ^ 32)

    whole : List ℕ
    whole = id ++ (size ++ (body ++ rest))

    laid : chunk_bytes id body ++ rest ≡ whole
    laid =
        unfold chunk_bytes in
        (append_assoc id (little_endian 4 (length body % 2 ^ 32) ++ body) rest
          ∙ ap (◌++◌ id) (append_assoc (little_endian 4 (length body % 2 ^ 32)) body rest))

    four : length size ≡ 4
    four = length-little_endian 4 (length body % 2 ^ 32)

    behind_id : drop 4 whole ≡ size ++ (body ++ rest)
    behind_id = drop-front 4 id (size ++ (body ++ rest)) hi

    behind_size : drop 8 whole ≡ body ++ rest
    behind_size =
        sym (drop-drop 4 4 whole) ∙ ap (drop 4) behind_id ∙ drop-front 4 size (body ++ rest) four

    size_read : field 4 4 whole ≡ length body
    size_read =
        ap (λ bs. value_le (take 4 bs)) behind_id
        ∙ ap value_le (take-front 4 size (body ++ rest) four)
        ∙ value_le-four (length body % 2 ^ 32) (omega arith)
        ∙ omega arith

    long : ltb (length whole) 8 ≡ false
    long = ground (
      arith,
      length-append id (size ++ (body ++ rest)),
      length-append size (body ++ rest),
      hi,
      four,
    )

    reads : read_wav_chunk whole ≡ ok (record { id = id; body = body; next = rest })
    reads =
        unfold read_wav_chunk in
        rw (long, take-front 4 id (size ++ (body ++ rest)) hi, size_read, behind_size)
          (chunk_from-even id body rest even)
