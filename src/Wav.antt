-- ===== src/Wav.antt =====
-- internal/speechengine/wav.go: the WAV container that the engines exchange takes in. A file is the list
-- of its bytes, and an offset into it is what is left from there on.
pub mod Chunks
pub mod RoundTrip
pub mod Inspect
mod Tests
use prukka.Base.{
  ℕ, zero, suc, ◌+◌, ◌-◌, ◌*◌, ◌/◌, ◌%◌, ◌^◌, ◌≤◌, ◌<◌, ◌≡◌, refl, Bool, true, false, ◌&&◌, ◌||◌,
  not, Option, none, some, List, [], ◌∷◌, ◌++◌, if◌then◌else◌, ltb, leb, ◌==◌, length, take, drop,
  Text, codes, text_eq, is_empty,
}
use prukka.Base.Result.{Result, ok, err}
use prukka.Pipeline.Units.{Sample}
use prukka.Pipeline.Pcm.{to_uint16, of_uint16, little_endian}

pub data WavError : Type 0 where
  incomplete bad_signature size_mismatch truncated_header missing_padding : WavError
  duplicate_fmt short_fmt bad_format duplicate_data empty_data missing_chunks odd_data : WavError

-- binary.LittleEndian.Uint16 and Uint32 of a slice of two or four bytes.
unfoldable pub value_le : List ℕ → ℕ
value_le [] = 0
value_le (b ∷ bs) = b + 256 * value_le bs

abbrev pub field : ℕ → ℕ → List ℕ → ℕ
field at n raw = value_le (take n (drop at raw))

-- checkRIFFEnvelope, on the file with its total size.
unfoldable pub check_riff_envelope : List ℕ → ℕ → Option WavError
unfolding value_le
check_riff_envelope header total =
    let want = field 4 4 header + 8 in
    if not
      (text_eq (take 4 header) (codes "RIFF") && text_eq (take 4 (drop 8 header)) (codes "WAVE"))
    then some bad_signature
    else if ltb total want
    then some incomplete
    else if not (want == total)
    then some size_mismatch
    else none

unfoldable pub validate_envelope : List ℕ → Option WavError
unfolding check_riff_envelope
validate_envelope raw =
    if ltb (length raw) 12 then some incomplete else check_riff_envelope (take 12 raw) (length raw)

pub record WavChunk : Type 0 where
  pub id : Text
  pub body : List ℕ
  pub next : List ℕ

-- readWAVChunk, on what is left of the file: its identifier, its size, and what follows the header.
unfoldable pub chunk_from : Text → ℕ → List ℕ → Result WavError WavChunk
chunk_from id size left =
    if ltb (length left) size
    then err incomplete
    else if ltb (length left) (size + size % 2)
    then err missing_padding
    else ok (record { id = id; body = take size left; next = drop (size + size % 2) left })

unfoldable pub read_wav_chunk : List ℕ → Result WavError WavChunk
unfolding chunk_from value_le
read_wav_chunk rest =
    if ltb (length rest) 8
    then err truncated_header
    else chunk_from (take 4 rest) (field 4 4 rest) (drop 8 rest)

unfoldable pub parse_format : List ℕ → Result WavError ℕ
unfolding value_le
parse_format chunk =
    let rate = field 4 4 chunk in
    if ltb (length chunk) 16
    then err short_fmt
    else if not (field 0 2 chunk == 1)
        || (not (field 2 2 chunk == 1)
            || (not (field 14 2 chunk == 16)
                || (not (field 12 2 chunk == 2)
                    || (rate == 0
                        || (ltb 384000 rate || not (field 8 4 chunk == rate * 2 % 2 ^ 32))))))
    then err bad_format
    else ok rate

pub record Pcm16WavChunks : Type 0 where
  pub payload : Option (List ℕ)
  pub rate : ℕ
  pub format_seen : Bool

abbrev pub no_chunks : Pcm16WavChunks
no_chunks = record { payload = none; rate = 0; format_seen = false }

unfoldable pub add_format : Pcm16WavChunks → Result WavError ℕ → Result WavError Pcm16WavChunks
add_format c (err e) = err e
add_format c (ok rate) = ok (record c { rate = rate; format_seen = true })

unfoldable pub add_data : Pcm16WavChunks → Option (List ℕ) → List ℕ → Result WavError Pcm16WavChunks
add_data c (some old) chunk = err duplicate_data
add_data c none chunk =
    if is_empty chunk then err empty_data else ok (record c { payload = some chunk })

unfoldable pub add_chunk : Pcm16WavChunks → Text → List ℕ → Result WavError Pcm16WavChunks
unfolding add_format add_data parse_format
add_chunk c id chunk =
    if text_eq id (codes "fmt ")
    then (if c.format_seen then err duplicate_fmt else add_format c (parse_format chunk))
    else if text_eq id (codes "data")
    then add_data c c.payload chunk
    else ok c

-- One round of scanPCM16WAVChunks: what is left of the file, and the chunks seen.
unfoldable pub with_next :
    List ℕ → Result WavError Pcm16WavChunks → Result WavError (List ℕ × Pcm16WavChunks)
with_next next (err e) = err e
with_next next (ok c) = ok (next, c)

unfoldable pub take_chunk :
    Result WavError WavChunk → Pcm16WavChunks → Result WavError (List ℕ × Pcm16WavChunks)
unfolding add_chunk with_next
take_chunk (err e) c = err e
take_chunk (ok chunk) c = with_next chunk.next (add_chunk c chunk.id chunk.body)

-- The loop, on rounds: each one goes on by at least the eight bytes of a header.
unfoldable pub scan_chunks : ℕ → List ℕ → Pcm16WavChunks → Result WavError Pcm16WavChunks
unfolding read_wav_chunk take_chunk
scan_chunks rounds [] c = ok c
scan_chunks zero (b ∷ rest) c = err incomplete
scan_chunks (suc rounds) (b ∷ rest) c = elim (take_chunk (read_wav_chunk (b ∷ rest)) c) [
  | err e ↦ err e
  | ok (next, c') ↦ scan_chunks rounds next c'
]

unfoldable pub bytes_to_int16 : List ℕ → List Sample
unfolding of_uint16
bytes_to_int16 [] = []
bytes_to_int16 (lo ∷ []) = []
bytes_to_int16 (lo ∷ hi ∷ bs) = of_uint16 (lo + 256 * hi) ∷ bytes_to_int16 bs

unfoldable pub int16_to_bytes : List Sample → List ℕ
unfolding to_uint16 little_endian
int16_to_bytes [] = []
int16_to_bytes (s ∷ ss) = little_endian 2 (to_uint16 s) ++ int16_to_bytes ss

unfoldable pub decoded : Pcm16WavChunks → Option (List ℕ) → Result WavError (List Sample × ℕ)
unfolding bytes_to_int16
decoded c none = err missing_chunks
decoded c (some bytes) =
    if not c.format_seen
    then err missing_chunks
    else if not (length bytes % 2 == 0)
    then err odd_data
    else ok (bytes_to_int16 bytes, c.rate)

unfoldable pub decode_chunks : Result WavError Pcm16WavChunks → Result WavError (List Sample × ℕ)
unfolding decoded
decode_chunks (err e) = err e
decode_chunks (ok c) = decoded c c.payload

unfoldable pub decode_checked : Option WavError → List ℕ → Result WavError (List Sample × ℕ)
unfolding decode_chunks scan_chunks
decode_checked (some e) raw = err e
decode_checked none raw = decode_chunks (scan_chunks (length raw) (drop 12 raw) no_chunks)

unfoldable pub decode_pcm16_wav : List ℕ → Result WavError (List Sample × ℕ)
unfolding validate_envelope decode_checked
decode_pcm16_wav raw = decode_checked (validate_envelope raw) raw

-- The body of the format chunk: PCM, one channel, the rate, the bytes in a second, the bytes in a frame and
-- the bits of a sample.
unfoldable pub format_body : ℕ → List ℕ
unfolding little_endian
format_body rate =
    little_endian 2 1
    ++ (little_endian 2 1
        ++ (little_endian 4 (rate % 2 ^ 32)
            ++ (little_endian 4 (rate * 2 % 2 ^ 32) ++ (little_endian 2 2 ++ little_endian 2 16))))

unfoldable pub chunk_bytes : Text → List ℕ → List ℕ
unfolding little_endian
chunk_bytes id body = id ++ (little_endian 4 (length body % 2 ^ 32) ++ body)

-- encodeWAV writes its fields at fixed places, one right behind the other.
unfoldable pub encode_wav : List Sample → ℕ → List ℕ
unfolding format_body chunk_bytes int16_to_bytes
encode_wav pcm rate =
    let size = length pcm * 2 in
    codes "RIFF"
    ++ (little_endian 4 ((36 + size) % 2 ^ 32)
        ++ (codes "WAVE"
            ++ (chunk_bytes (codes "fmt ") (format_body rate)
                ++ chunk_bytes (codes "data") (int16_to_bytes pcm))))
