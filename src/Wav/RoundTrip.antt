-- ===== src/Wav/RoundTrip.antt =====
-- internal/speechengine/wav.go: what `decode_pcm16_wav` reads of a file that `encode_wav` wrote.
use prukka.Base.{
  ℕ, zero, suc, ◌+◌, ◌*◌, ◌/◌, ◌%◌, ◌^◌, ◌≤◌, ◌<◌, ◌≡◌, refl, sym, ap, ap₂, subst, ◌∙◌, true, false,
  none, some, List, [], ◌∷◌, ◌++◌, ltb, length, take, drop, All, append-nil, arith, Text, codes,
}
use prukka.Base.Result.{ok}
use prukka.Pipeline.Units.{Sample}
use prukka.Pipeline.Pcm.{to_uint16, of_uint16, little_endian}
use prukka.Pipeline.Pcm.Codec.{IsS16, of_uint16-to_uint16, to_uint16-lt}
use prukka.Wav.{
  value_le, check_riff_envelope, validate_envelope, WavChunk, read_wav_chunk, parse_format,
  Pcm16WavChunks, no_chunks, add_format, add_data, add_chunk, with_next, take_chunk, scan_chunks,
  bytes_to_int16, int16_to_bytes, decoded, decode_chunks, decode_checked, decode_pcm16_wav,
  format_body, chunk_bytes, encode_wav,
}
use prukka.Wav.Chunks.{value_le-four, read_wav_chunk-chunk_bytes}

length-int16_to_bytes : (ss : List Sample) → length (int16_to_bytes ss) ≡ length ss * 2
unfolding int16_to_bytes
length-int16_to_bytes [] = refl
length-int16_to_bytes (s ∷ ss) = unfold little_endian in omega (arith, length-int16_to_bytes ss)

bytes_to_int16-int16_to_bytes :
    (ss : List Sample) → All IsS16 ss → bytes_to_int16 (int16_to_bytes ss) ≡ ss
unfolding bytes_to_int16 int16_to_bytes little_endian
bytes_to_int16-int16_to_bytes [] h = refl
bytes_to_int16-int16_to_bytes (s ∷ ss) h =
    ap₂ ◌∷◌ (ap of_uint16 joined ∙ of_uint16-to_uint16 s h.0) (bytes_to_int16-int16_to_bytes ss h.1)
  where
    joined : to_uint16 s % 256 + 256 * (to_uint16 s / 256 % 256) ≡ to_uint16 s
    joined = omega (arith, to_uint16-lt s)

scan_one :
    (n b : ℕ) (bs : List ℕ) (chunk : WavChunk) (c c' : Pcm16WavChunks)
    → read_wav_chunk (b ∷ bs) ≡ ok chunk
    → add_chunk c chunk.id chunk.body ≡ ok c'
    → scan_chunks (suc n) (b ∷ bs) c ≡ scan_chunks n chunk.next c'
unfolding scan_chunks take_chunk
scan_one n b bs chunk c c' r a = rw (r, take_chunk, a, with_next, scan_chunks) refl

scan_chunks-chunk_bytes :
    (n i : ℕ) (id : Text) (body rest : List ℕ) (c c' : Pcm16WavChunks)
    → length (i ∷ id) ≡ 4
    → length body < 2 ^ 32
    → length body % 2 ≡ 0
    → add_chunk c (i ∷ id) body ≡ ok c'
    → scan_chunks (suc n) (chunk_bytes (i ∷ id) body ++ rest) c ≡ scan_chunks n rest c'
scan_chunks-chunk_bytes n i id body rest c c' hi hb even added =
    unfold chunk_bytes in
    scan_one n i (id ++ (little_endian 4 (length body % 2 ^ 32) ++ body) ++ rest)
      (record { id = i ∷ id; body = body; next = rest }) c c'
      (read_wav_chunk-chunk_bytes (i ∷ id) body rest hi hb even) added

parse_format-format_body :
    (rate : ℕ) → 0 < rate → rate ≤ 384000 → parse_format (format_body rate) ≡ ok rate
unfolding parse_format format_body
parse_format-format_body rate p l = rw (as_rate, as_bytes) (ground arith)
  where
    as_rate : value_le (little_endian 4 (rate % 2 ^ 32)) ≡ rate
    as_rate = value_le-four (rate % 2 ^ 32) (omega arith) ∙ omega arith

    as_bytes : value_le (little_endian 4 (rate * 2 % 2 ^ 32)) ≡ rate * 2
    as_bytes = value_le-four (rate * 2 % 2 ^ 32) (omega arith) ∙ omega arith

length-encode_wav :
    (pcm : List Sample) (rate : ℕ) → length (encode_wav pcm rate) ≡ 44 + length pcm * 2
unfolding encode_wav
length-encode_wav pcm rate = omega (arith, length-int16_to_bytes pcm)

accepts :
    (pcm : List Sample) (rate : ℕ)
    → 36 + length pcm * 2 < 2 ^ 32
    → validate_envelope (encode_wav pcm rate) ≡ none
unfolding validate_envelope
accepts pcm rate h = rw (long, length-encode_wav pcm rate) enveloped
  where
    long : ltb (length (encode_wav pcm rate)) 12 ≡ false
    long = ground (arith, length-encode_wav pcm rate)

    sized : value_le (little_endian 4 ((36 + length pcm * 2) % 2 ^ 32)) ≡ 36 + length pcm * 2
    sized = value_le-four ((36 + length pcm * 2) % 2 ^ 32) (omega arith) ∙ omega arith

    enveloped : check_riff_envelope (take 12 (encode_wav pcm rate)) (44 + length pcm * 2) ≡ none
    enveloped = unfold check_riff_envelope encode_wav in rw (sized) (ground arith)

format_added :
    (rate : ℕ)
    → 0 < rate
    → rate ≤ 384000
    → add_chunk no_chunks (codes "fmt ") (format_body rate)
      ≡ ok (record { payload = none; rate = rate; format_seen = true })
unfolding add_chunk add_format
format_added rate p l = rw (parse_format-format_body rate p l) refl

data_added :
    (c : Pcm16WavChunks) (s : Sample) (ss : List Sample)
    → c.payload ≡ none
    → add_chunk c (codes "data") (int16_to_bytes (s ∷ ss))
      ≡ ok (record c { payload = some (int16_to_bytes (s ∷ ss)) })
unfolding add_chunk add_data
data_added c s ss e = rw (e, add_data) (unfold int16_to_bytes little_endian in refl)

scan_chunks-end : (n : ℕ) (c : Pcm16WavChunks) → scan_chunks n [] c ≡ ok c
unfolding scan_chunks
scan_chunks-end zero c = refl
scan_chunks-end (suc n) c = refl

-- The chunks behind the envelope, read in two rounds out of any larger number.
scan_chunks-encode_wav :
    (n : ℕ) (s : Sample) (ss : List Sample) (rate : ℕ)
    → 0 < rate
    → rate ≤ 384000
    → length (s ∷ ss) * 2 < 2 ^ 32
    → scan_chunks (suc (suc n)) (drop 12 (encode_wav (s ∷ ss) rate)) no_chunks
      ≡ ok (record { payload = some (int16_to_bytes (s ∷ ss)); rate = rate; format_seen = true })
scan_chunks-encode_wav n s ss rate p l h =
    unfold encode_wav in
    scan_chunks-chunk_bytes (suc n) 102 (109 ∷ 116 ∷ 32 ∷ []) (format_body rate) sound no_chunks
      formatted refl (omega arith) refl (format_added rate p l)
    ∙ ap (λ bs. scan_chunks (suc n) bs formatted) (sym (append-nil sound))
    ∙ scan_chunks-chunk_bytes n 100 (97 ∷ 116 ∷ 97 ∷ []) (int16_to_bytes (s ∷ ss)) [] formatted
        complete refl (subst (λ m. m < 2 ^ 32) (sym (length-int16_to_bytes (s ∷ ss))) h)
        (omega (arith, length-int16_to_bytes (s ∷ ss))) (data_added formatted s ss refl)
    ∙ scan_chunks-end n complete
  where
    formatted : Pcm16WavChunks
    formatted = record { payload = none; rate = rate; format_seen = true }

    complete : Pcm16WavChunks
    complete = record { payload = some (int16_to_bytes (s ∷ ss)); rate = rate; format_seen = true }

    sound : List ℕ
    sound = chunk_bytes (codes "data") (int16_to_bytes (s ∷ ss))

-- A file that the writer makes of samples, at a rate that the reader takes and short enough for the sizes in
-- it, is read as those samples at that rate.
pub decode_pcm16_wav-encode_wav :
    (s : Sample) (ss : List Sample) (rate : ℕ)
    → All IsS16 (s ∷ ss)
    → 0 < rate
    → rate ≤ 384000
    → 36 + length (s ∷ ss) * 2 < 2 ^ 32
    → decode_pcm16_wav (encode_wav (s ∷ ss) rate) ≡ ok (s ∷ ss, rate)
unfolding decode_pcm16_wav
decode_pcm16_wav-encode_wav s ss rate h p l small =
    ap (λ e. decode_checked e file) (accepts (s ∷ ss) rate small)
    ∙ (unfold decode_checked in ap decode_chunks scanned)
    ∙ (unfold decode_chunks in whole)
  where
    read : Pcm16WavChunks
    read = record { payload = some (int16_to_bytes (s ∷ ss)); rate = rate; format_seen = true }

    file : List ℕ
    file = encode_wav (s ∷ ss) rate

    rounds : length file ≡ suc (suc (42 + length (s ∷ ss) * 2))
    rounds = length-encode_wav (s ∷ ss) rate ∙ omega arith

    scanned : scan_chunks (length file) (drop 12 file) no_chunks ≡ ok read
    scanned =
        ap (λ n. scan_chunks n (drop 12 file) no_chunks) rounds
        ∙ scan_chunks-encode_wav (42 + length (s ∷ ss) * 2) s ss rate p l (omega arith)

    even : length (int16_to_bytes (s ∷ ss)) % 2 ≡ 0
    even = omega (arith, length-int16_to_bytes (s ∷ ss))

    whole : decoded read (some (int16_to_bytes (s ∷ ss))) ≡ ok (s ∷ ss, rate)
    whole = unfold decoded in rw (even, bytes_to_int16-int16_to_bytes (s ∷ ss) h) refl
