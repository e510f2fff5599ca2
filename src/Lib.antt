-- ===== src/Lib.antt =====
-- A verification library for prukka, the daemon that captions and dubs a live source in several
-- languages. It models the parts of its Go code that carry logic of their own, each definition after
-- one function or type of the source, and proves what those parts promise.
--
-- The program. A session (internal/core/session) names a source, its target languages and its options;
-- the store is the registry of sessions, and a lane runs each of them. In a lane the recogniser's
-- growing transcripts pass the wait-k committer (internal/core/realtime), which releases them clause
-- by clause as later decodes agree; a translator, possibly through a hub language
-- (internal/providers/pivot), turns them into the target languages; synthesised speech is queued
-- (internal/core/pipeline), laid on tracks over the source clock, and mixed into windows that the
-- outputs pull. Captions are laid out in cues (internal/media/egress/vtt) and go out as segments of a
-- playlist and burned into the picture (internal/media/egress/hls). Jobs that may not hold a lane up
-- run in a bounded pool (internal/dispatch).
--
-- The files.
--   Base: lists over the native numbers, texts as lists of code points, maps as association lists, results,
--     signed integers, and the parameter `Unicode` for Go's tables of code points.
--   Pipeline.Units, Pipeline.Group: core/media.go, pipeline/track.go (samples and durations) and
--     pipeline/playout.go (the consumers of one playout and its seal).
--   Pipeline.VoiceQueue: pipeline/voicequeue.go, the queue behind a call's voice, with all its cursors.
--   Pipeline.Track: pipeline/track.go, one language's audio on the source clock.
--   Pipeline.Mixer: pipeline/mix.go, the broadcast playout over a bed and a voice track.
--   Pipeline.Pcm: pipeline/pcm.go, samples as little-endian bytes.
--   Realtime.Words, Realtime.Commit: realtime/commit.go, the committer of transcripts.
--   Realtime.Lane: realtime/lane.go and speak.go, from transcripts to the segments of each target.
--   Captions: media/egress/vtt, cue layout, the caption document and the registry of documents.
--   Hls: media/egress/hls, the subtitle segmenter (segmenter.go), Hls.Overlay the cue over the picture
--     (overlay.go), Hls.Resolve the paths that are served (resolve.go).
--   Wav: speechengine/wav.go, Wav.Inspect: media/ingest/file/wav.go, the WAV container.
--   StrictJson: strictjson/strictjson.go, the refusal of duplicate keys.
--   Dispatch: dispatch/dispatch.go, the pool of workers and its Close.
--   Bounded: providers/bounded/bounded.go, the life cycle of a provider whose calls run in that pool.
--   Lang: core/lang.go and core/lang, language tags and their lists.
--   Pivot: providers/pivot/pivot.go, translation through a hub.
--   Session.Model, Source, Flags, Validate, Status, Store: session/session.go, flags.go, status.go and
--     store.go.
--   Session.Lanes: session/runtime.go, the registry of lanes and the goroutine of each lane.
-- A file's children hold its proofs, and the modules named Tests run the definitions at concrete values.
--
-- How code is modelled. A method that runs under a mutex is one step, and interleavings are lists of
-- steps; a pull of the mixer is one step too, although it locks each track anew between its reads; the
-- goroutines of the lanes, of the dispatch pool and of a bounded provider are steps of relations. Go's
-- panics, an index or a slice out of range or a channel closed twice, are `none`. Durations are
-- numbers of nanoseconds from 0 on; samples and durations stay far below 2^63, so that int64
-- arithmetic does not wrap there. Revisions are uint64 and wrap; the theorems ask that they last. A
-- nil slice is the empty list. A map is an association list in the order in which Go happens to visit
-- it, and values are copied, so that the deep copies of the source are identities; the parts of a
-- playlist and the files on disk are functions of their number. Which writes and removals of a file
-- succeed is a parameter, the division of a cue's time by its share of the text is a parameter, and so
-- is the scanner of encoding/json. Floats, Unicode tables, net/url and strconv.ParseFloat are
-- parameters.
--
-- Bounds. Loops are structural recursion over the list or the counter that the source walks; none runs
-- on fuel. The number of rounds of a loop that counts down is the length that the source gives it: the
-- splitting of a long word goes by the word's length, the walk over a WAV file's chunks by the file's
-- length (each chunk takes at least the eight bytes of its header) or by the limit of chunks, and a
-- cue goes by the parts that its times name.
--
-- Not modelled: the event loop of the lane runtime, the goroutines and channels between a lane's
-- targets, the store of HLS trees and its master playlist, configuration, the control plane, and all
-- code that only starts processes, opens sockets or calls foreign libraries; Go's error tree; the
-- wording of errors; the construction of the mixer's gains from decibels.
pub mod Base
pub mod Bounded
pub mod Captions
pub mod Dispatch
pub mod Hls
pub mod Lang
pub mod Pipeline
pub mod Pivot
pub mod Realtime
pub mod Session
pub mod StrictJson
pub mod Wav
