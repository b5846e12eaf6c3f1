-- ===== src/Lib.antt =====
-- miniscram stores a scrambled CD image (.scram) as the differences from an image that it
-- predicts from the disc's .bin tracks. This library models the core of the command-line program
-- and the job queue of its window.
--
-- Parts, files and code (paths from the repository's root):
--   * Layout: layout.go. Sectors and LBAs, the BCD address of a sector's header, `ScramOffset`,
--     `TotalLBAs`.
--   * Ecma: ecma130.go. `Scramble` and its table, `ComputeEDC`, `ComputeECC` with the GF(2^8)
--     tables, `classifyBinSector`.
--   * Disc: the track of cue.go and the digests of pack.go, which builder.go reads.
--   * Delta: delta.go. `DeltaEncoder` (`append`, `close`), `EncodeDelta`, `ApplyDelta`,
--     `IterateDeltaRecords`. Delta.Compare is the comparison loop, which delta.go and builder.go
--     both contain; a `Scan` is its open run and the records that it has emitted. Delta.Left is
--     about the file that a refused delta leaves.
--   * Builder: builder.go. Builder.Regions has `regionAt`, the fixed sectors and
--     `derivedSessionGaps`; Builder.Build has `BuildEpsilonHat` and `CheckLayoutMismatch`.
--   * Chunks: chunks.go. Chunks.Reader is `payloadReader`; Chunks.Mfst, Chunks.Trks, Chunks.Sess
--     and Chunks.Hash are the codecs of the four payloads (with Chunks.HashRecord
--     and Chunks.Digests for the last); Chunks.Frame is `writeChunk` and
--     `readChunk`, Chunks.Crc the CRC-32 of `hash/crc32` that they use.
--   * Container: manifest.go. Container.File has `WriteContainer` and `ReadContainer` over the
--     bytes of the file; compress/zlib is a parameter (`deflate`, `inflate`). Container.Stored is
--     what a container keeps of a manifest. Container.Offsets has `assignFileOffsets` and the
--     sums over the tracks.
--   * Text: the functions of strings, bytes, strconv and path/filepath that the program calls, on
--     ASCII text.
--   * Cue: cue.go. Cue.Parse has `ParseCue` line by line, a `CueState` being the variables of its
--     loop, and `parseMSF`; Cue.Resolve has `ResolveCue`. Cue.State and Cue.Steps are about what
--     the lines keep, Cue.Tracks about the result.
--   * Pack: pack.go. Pack.Sync has the test of a sync field, `validateSyncCandidate`; Pack.Scan the
--     two ways in which a scram is searched chunk by chunk, which Pack.Reads and Pack.ScanAll
--     compare with a search of the whole file; Pack.Offset `detectWriteOffset` and
--     `checkConstantOffset`; Pack.Sessions `detectSessionGap` and `applySessionGaps`, with
--     Pack.Gaps and Pack.Moved on what they find and move, and Pack.Header on the addresses that
--     are read; Pack.Run `Pack` itself, with Pack.Verified on what it leaves.
--   * Unpack: unpack.go. Unpack.Source has `resolveBinSource`, and `hashTracks` and
--     `compareHashes` of pack.go; Unpack.Run has `Unpack` and `Verify`, with `OpenBinStream` of
--     cue.go; Unpack.Files has the files that are written and removed;
--     Unpack.Checks, Unpack.Outputs and Unpack.Single are about them.
--   * Cli: main.go and inspect.go. Cli.Flags is Go's `flag.Parse`; Cli.Args has the exit codes,
--     `parseSubcommand` and `requireOnePositional`, with Cli.Scan and Cli.Order on what they read;
--     Cli.Exits has `errToExit`; Cli.Plans the arguments of `runPack`, `runUnpack` and `runVerify`,
--     and Cli.Commands these functions, with Cli.Removal and Cli.Sources on the files that are left
--     and Cli.Agree on the exit codes; Cli.Inspect has the functions of inspect.go, with
--     Cli.Listing on the records that they list; Cli.Main has `run`.
--   * Queue: tools/miniscram-gui/queue.go. Queue.Items has the items and the methods that change
--     one, Queue.Add `addPaths`, Queue.Progress the labels, Queue.Worker `drain` and the user's
--     actions as a step function: a step is one stretch under the mutex. Queue.Ids, Queue.Running,
--     Queue.Holds, Queue.Invariant, Queue.Settled, Queue.History, Queue.Drain, Queue.Races and
--     Queue.Paths are about its runs.
--   * Runner: tools/miniscram-gui/runner.go. Runner.State has `Start`, `Cancel`, the lines of
--     `readStderr`, and `wait` up to its send and the send; Runner.Steps their interleavings, with
--     Runner.Balance on them. Runner.Window has the runner beside the queue: `drain` calls `Start`
--     and receives from `done`, and so do the buttons and the frames of main.go. A frame's look at
--     `workerRunning` and its receive are two moves. Runner.Owner, Runner.Waits, Runner.Calm,
--     Runner.Frames, Runner.Starts, Runner.Sole, Runner.Stale and Runner.Stolen are about its runs.
--   * Common: lists, bytes, integers, results; Examples: the theorems at small inputs.
-- How they interact: `Pack` runs `BuildEpsilonHat` with the real image and appends each run of
-- differing bytes to a `DeltaEncoder`; `Unpack` runs it without, writes the image to a file, and
-- runs `ApplyDelta` on that file. Builder.Reproduce joins the two. `Verify` runs `Unpack` on a
-- temporary file. The queue of the window runs `miniscram pack` as a subprocess for each item,
-- through the runner, which the buttons use too.
--
-- Representation:
--   * A byte slice, a stream and a file are lists of numbers. An int, an int32 and an int64 are
--     integers (`ℤ` with `pos n` for n and `negsuc n` for -(n + 1)). Results of int32 operations
--     are wrapped by `to_i32`; int64 and int operations of builder.go and layout.go are not, since
--     their values stay below 2^63 for any file size that fits an int64. The sums of track sizes
--     that unpack.go and manifest.go form are wrapped by `add_i64`.
--   * Errors are values of a data type per component, with what the message names.
--   * The file system is a function from paths to the bytes of the files that are there when an
--     operation begins. A path names a directory entry (`file_of`), however it is spelled, and what
--     is written or removed at a path is so at all that name its entry; an entry is a file of its
--     own, so links are left out. Paths and lines are handled by parameters (`join`, `dir_of`,
--     `base_of`, `glob`, `scan_lines`). `can_remove` says whether `os.Remove` of a file succeeds; a
--     command gives the files that it leaves. What `Unpack` does at its output path is an `Output`,
--     and `files_left` the files then.
--   * The writers do not fail. A panic is an error (`panicked`) or `none`.
--   * A payload's reader is what is left of the payload, and the fields are numbers, to which the
--     conversions between signed and unsigned integers apply (`word`, `signed_word`).
-- Fuel: `encode_loop` gets size / 2^20 + 1 rounds, and each takes a chunk of 2^20 bytes, which
-- is enough for `size` bytes. `build_loop` runs once for
-- each LBA from the lead-in to the end, as the `for` loop does. `read_loop` gets a round for each
-- byte of the file, and a chunk has at least twelve.
-- The searches of a scram get one round more than it has bytes, and each reads at least one byte;
-- a search of a buffer gets one more than the buffer has. `apply_gaps_from` gets a round for each
-- track. `peel` gets a round more than there are arguments, and each round but the last takes one.
-- `digits_of` gets 20 rounds, one for each digit of a 64-bit number.
--
-- Not modelled: the SHA-256 pins that init() checks (ecma130.go), the progress reports, the digests
-- themselves (MD5, SHA-1 and SHA-256 are a parameter), file operations that fail half way, the
-- texts that are printed other than by inspect.go (help.go, reporter.go), and of
-- tools/miniscram-gui everything but queue.go and runner.go (there, the search for the program and
-- the redrawing).
pub mod Common
pub mod Delta
pub mod Layout
pub mod Ecma
pub mod Disc
pub mod Text
pub mod Builder
pub mod Chunks
pub mod Container
pub mod Cue
pub mod Pack
pub mod Unpack
pub mod Cli
pub mod Queue
pub mod Runner
pub mod Examples
