-- ===== src/Wav/Inspect.antt =====
-- internal/media/ingest/file/wav.go: the layout of a WAV source, found without its samples. A reader is the
-- bytes behind it, which the file's size that was asked for before need not fit.
mod Guards
pub mod Steps
pub mod Region
mod Rounds
use prukka.Base.{
  ℕ, zero, suc, ◌+◌, ◌-◌, ◌*◌, ◌%◌, ◌^◌, Bool, true, false, ◌&&◌, ◌||◌, not, List, ◌++◌,
  if◌then◌else◌, ltb, leb, ◌==◌, length, take, drop, Text, codes, text_eq,
}
use prukka.Base.Result.{Result, ok, err}
use prukka.Wav.{value_le, field}

pub data InspectError : Type 0 where
  not_riff exceeds_limit short_read invalid_size truncated_payload missing_fmt_or_data :
      InspectError
  too_many_chunks truncated_header truncated_chunk duplicate_fmt short_fmt wrong_format bad_layout :
      InspectError
  duplicate_data empty_data unaligned_data : InspectError

abbrev pub max_riff_file_bytes : ℕ
max_riff_file_bytes = 2 ^ 32 + 7

abbrev pub max_riff_chunks : ℕ
max_riff_chunks = 4096

pub record WavSpec : Type 0 where
  pub data_offset : ℕ
  pub data_bytes : ℕ

pub record InspectedChunk : Type 0 where
  pub id : Text
  pub body_offset : ℕ
  pub body_bytes : ℕ
  pub next_offset : ℕ

pub record WavInspection : Type 0 where
  pub end : ℕ
  pub offset : ℕ
  pub chunks : ℕ
  pub spec : WavSpec
  pub format_seen : Bool
  pub data_seen : Bool

-- The bytes at a place, and what is done with them; fewer bytes than were asked for are an error.
unfoldable pub read_at :
    {A : Type 0} → List ℕ → ℕ → ℕ → (List ℕ → Result InspectError A) → Result InspectError A
read_at raw n offset use_bytes =
    if ltb (length raw) (offset + n) then err short_read else use_bytes (take n (drop offset raw))

unfoldable pub riff_end : ℕ → List ℕ → Result InspectError ℕ
unfolding value_le
riff_end file_size header =
    let end = field 4 4 header + 8 in
    if not (text_eq (take 4 header) (codes "RIFF"))
      || not (text_eq (take 4 (drop 8 header)) (codes "WAVE"))
    then err not_riff
    else if ltb end 12
    then err invalid_size
    else if ltb file_size end
    then err truncated_payload
    else ok end

unfoldable pub inspect_riff_header : List ℕ → ℕ → Result InspectError ℕ
unfolding read_at riff_end
inspect_riff_header raw file_size =
    if ltb file_size 12
    then err not_riff
    else if ltb max_riff_file_bytes file_size
    then err exceeds_limit
    else read_at raw 12 0 (riff_end file_size)

-- The places are below 2 ^ 34, so that the sums do not wrap and the source's test of the end of a chunk
-- against its start is never met.
unfoldable pub chunk_at : ℕ → ℕ → List ℕ → Result InspectError InspectedChunk
unfolding value_le
chunk_at offset end header =
    let size = field 4 4 header in
    if ltb end (offset + 8 + size + size % 2)
    then err truncated_chunk
    else ok (record {
      id = take 4 header;
      body_offset = offset + 8;
      body_bytes = size;
      next_offset = offset + 8 + size + size % 2;
    })

unfoldable pub inspect_chunk : List ℕ → ℕ → ℕ → Result InspectError InspectedChunk
unfolding read_at chunk_at
inspect_chunk raw offset end =
    if ltb end (offset + 8)
    then err truncated_header
    else read_at raw 8 offset (chunk_at offset end)

unfoldable pub check_format : WavInspection → List ℕ → Result InspectError WavInspection
unfolding value_le
check_format s format =
    if not (field 0 2 format == 1)
      || (not (field 14 2 format == 16)
          || (not (field 2 2 format == 1) || not (field 4 4 format == 16000)))
    then err wrong_format
    else if not (field 8 4 format == 16000 * 2) || not (field 12 2 format == 2)
    then err bad_layout
    else ok (record s { format_seen = true })

unfoldable pub inspect_format :
    List ℕ → WavInspection → InspectedChunk → Result InspectError WavInspection
unfolding read_at check_format
inspect_format raw s chunk =
    if ltb chunk.body_bytes 16
    then err short_fmt
    else read_at raw 16 chunk.body_offset (check_format s)

unfoldable pub consume_data : WavInspection → InspectedChunk → Result InspectError WavInspection
consume_data s chunk =
    if s.data_seen
    then err duplicate_data
    else if chunk.body_bytes == 0
    then err empty_data
    else if not (chunk.body_bytes % 2 == 0)
    then err unaligned_data
    else ok (record s {
      spec = record { data_offset = chunk.body_offset; data_bytes = chunk.body_bytes };
      data_seen = true;
    })

unfoldable pub consume_chunk :
    List ℕ → WavInspection → InspectedChunk → Result InspectError WavInspection
unfolding inspect_format consume_data
consume_chunk raw s chunk =
    let moved = record s { chunks = s.chunks + 1; offset = chunk.next_offset } in
    if text_eq chunk.id (codes "fmt ")
    then (if s.format_seen then err duplicate_fmt else inspect_format raw moved chunk)
    else if text_eq chunk.id (codes "data")
    then consume_data moved chunk
    else ok moved

unfoldable pub consume_read :
    List ℕ → WavInspection → Result InspectError InspectedChunk → Result InspectError WavInspection
unfolding consume_chunk
consume_read raw s (err e) = err e
consume_read raw s (ok chunk) = consume_chunk raw s chunk

unfoldable pub consume_next : List ℕ → WavInspection → Result InspectError WavInspection
unfolding inspect_chunk consume_read
consume_next raw s =
    if leb max_riff_chunks s.chunks
    then err too_many_chunks
    else consume_read raw s (inspect_chunk raw s.offset s.end)

-- The loop of inspectWAV, on rounds, one more than the chunks that a file may have.
unfoldable pub inspect_all : ℕ → List ℕ → WavInspection → Result InspectError WavInspection
unfolding consume_next
inspect_all zero raw s = if ltb s.offset s.end then err too_many_chunks else ok s
inspect_all (suc rounds) raw s =
    if ltb s.offset s.end
    then elim (consume_next raw s) [ err e ↦ err e | ok s' ↦ inspect_all rounds raw s' ]
    else ok s

unfoldable pub found : Result InspectError WavInspection → Result InspectError WavSpec
found (err e) = err e
found (ok s) = if not s.format_seen || not s.data_seen then err missing_fmt_or_data else ok s.spec

abbrev pub inspection_from : ℕ → WavInspection
inspection_from end = record {
  end = end;
  offset = 12;
  chunks = 0;
  spec = record { data_offset = 0; data_bytes = 0 };
  format_seen = false;
  data_seen = false;
}

unfoldable pub inspect_from : List ℕ → Result InspectError ℕ → Result InspectError WavSpec
unfolding found inspect_all
inspect_from raw (err e) = err e
inspect_from raw (ok end) = found (inspect_all (suc max_riff_chunks) raw (inspection_from end))

unfoldable pub inspect_wav : List ℕ → ℕ → Result InspectError WavSpec
unfolding inspect_riff_header inspect_from
inspect_wav raw file_size = inspect_from raw (inspect_riff_header raw file_size)
