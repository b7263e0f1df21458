-- ===== src/Lib.antt =====
-- CurseDelete: a tool that deletes directory trees in parallel. This library models its core, the
-- crate crates/cursdel-core, its licensing, the crates crates/cursdel-license and
-- crates/cursdel-policy, the engine of Linux, crates/cursdel-linux, and, of crates/cursdel-cli, the
-- license commands and the deletion from its arguments on.
--
-- How the parts interact. `validate_target` accepts or refuses what the user names. `run` then
-- starts threads around three channels: an enumerator sends events on what it finds to the
-- coordinator, which registers directories with the tracker, puts each file to the filters and
-- queues those to be deleted; the file workers delete the queued files, with remedies for failed
-- deletions; each child that is settled is reported to the tracker, which sends a directory to the
-- directory workers once all its children are settled; these remove it and report to its parent,
-- and the root ends the operation. A sampler feeds the adaptive controller, whose decisions resize
-- the semaphore that the file workers pass. A summary with an exit code closes the operation.
-- `run_delete` checks the arguments, the edition and the filters before it calls `run`. An engine is
-- an instance of `PlatformEngine`; that of Linux works on descriptors of directories that are opened
-- without following links, and finds the holders of a file in /proc.
-- The enumerators of the platforms share one walk, `stream_tree`, whose events are the input of the
-- coordinator; `Protocol` of Pipeline/System/Keeping is what the coordinator needs of them.
--
-- Which features are on depends on the edition. A license file is an envelope of signatures around
-- claims; `verify_license` opens it against the trusted keys of the policy and checks the claims;
-- `resolve` chooses, among the files that the store finds, the one in effect. The license commands
-- talk to a server and write what they verified to the store.
--
-- Files, all paths below crates/cursdel-core/src:
--   Target         target.rs: `Lexical` splits and normalises a path (`classify`,
--                  `resolve_dot_components`, `is_protected_root`), `Validate` is `validate_target`;
--                  `Depth`, `Ascii` and `Safety` hold their theorems
--   Tracker        directory_tracker.rs: the operations of `DirectoryTracker`; theorems in `Once`
--   Filter         filter.rs: `FilterSet`, how it is built and evaluated; theorems in `Laws`
--   Engine         engine.rs: the platform's contract (`PlatformEngine`), events and outcomes
--   Walk           walk.rs: `stream_tree` with its stack, and `EnumSink` of engine.rs as its state;
--                  theorems in `Protocol` (from `Opens` and `Rounds`), `Ends` and `Links`
--   Pipeline       pipeline.rs: `Delete` (`process_one`), `Log` (`FailureLog`), `Files` (coordinator
--                  and file workers), `Dirs` (directory workers), `Single` (`run_single_object`);
--                  and `System` (the threads of `run`, which take turns in any order); theorems in
--                  `Retries`, `Tally`, `Tries`, `Log`, `Outcomes`, `DryRun` and below `System`
--   Report         report.rs: `Summary`, `build_summary`, `exit_code`; theorems in `Explains`;
--                  `Rendering` is the text, the JSON record and their formats
--   Adaptive       adaptive.rs: the controller; theorems in `Bounds`
--   Semaphore      sync.rs: `ResizableSemaphore`; theorems in `Laws`
--   Workers        options.rs, `WorkerPolicy`, and the worker counts that `run` of pipeline.rs derives
--   Ages           duration.rs: `AgeDuration`; theorems in `RoundTrip`
--   Sizes          size.rs: `ByteSize`; theorems in `RoundTrip`
--   Entry, Failure, ExitCode, Options, Metrics   entry.rs, error.rs, exit_code.rs, options.rs,
--                  metrics.rs
--   License        below crates/cursdel-license/src: `Editions` edition.rs, `Algorithms`
--                  algorithm.rs, `Keys` keys.rs, `Envelope` envelope.rs, `Claims` claims.rs,
--                  `Validate` validate.rs, `Resolve` resolve.rs, `Store` store.rs, `Service`
--                  service.rs, `Http` http.rs; their child modules hold the theorems. `Formats` and
--                  `Disk` are what these files use of JSON, signatures and the file system;
--                  `Commands` is crates/cursdel-cli/src/license_cmd.rs
--   Policy         crates/cursdel-policy/src/lib.rs; theorems in `Gates`
--   CommandLine    crates/cursdel-cli/src/main.rs, `run_delete`, with `Cli` of args.rs; theorems in
--                  `Ready` (from `Arguments`)
--   Linux          crates/cursdel-linux/src/lib.rs; `Kernel` is what the crate uses of libc, with
--                  sys.rs and errno_map.rs, `Ops` is ops.rs, `Lock` lock.rs, and `Listing`
--                  dirlist.rs; theorems in `Deletion`, `Removal`, `Descriptors`, `Signals` (from
--                  `Matching` and `Holders`), `ProcStat` and `Children` (from `Metadata`)
--   Paths          what the core uses of `std::path`, on POSIX; lemmas in `Join`
--   Base           helpers on numbers, lists, characters, machine words, results and dictionaries
--   Tests          runs at fixed inputs, and the theorems at concrete inputs
--
-- Conventions. A method with `&mut self`, an atomic or a lock becomes a function on a state
-- record. A thread's loop becomes a function for one round; `Run` is what the threads share, and
-- the tracker's own functions are cut where another thread may come in between. A `u64` or
-- `usize` counter is a number that wraps modulo 2^64; an `i64` counter is its two's complement
-- pattern; a `u32` wraps modulo 2^32. `SystemTime` and `Duration` are nanoseconds. A text or path
-- is the list of its UTF-8 bytes, and in `Ages`, `Sizes` and `License` of its code points, where
-- `utf8_len` is its length in bytes. A failed `expect` or a slice inside a character is an error
-- value. Two functions run on fuel: `digits` of Base/Decimal, on twenty digits, which is enough for
-- a `u64`, and `stream` of Walk, on rounds of its loop, each of which takes a directory from the
-- stack, so that two more than the directories below the root is enough. A function of the store takes the state of the disk
-- and returns it with a result. The commands return the disk and the exit code.
--
-- Parameters: the glob engine (`Globs`), 64-bit floats (`Floats`, `AgeFloats`), the file system
-- of the validation (`Fs`), and the platform engine with the world that it acts on
-- (`PlatformEngine`); what the walk finds (`Host`); floats of the sizes and the report
-- (`SizeFloats`, `ReportFloats`); the JSON parser, base64url, the signature schemes and the clock's
-- instants (`Formats`); the disk (`Disk`), whose documented behaviour is a record of hypotheses;
-- serde's texts of the files of the store (`StateFormat`); the HTTP agent (`Http`); the
-- system calls and the reading of /proc (`Kernel`); the license server (`LicenseService`), of which
-- nothing is assumed; and the call of `run` in `run_delete` (`launch`).
--
-- Not modelled: the capacities of the channels and blocking on them, the start and end of the
-- threads in `run`, the sampler thread; the crates of macOS and Windows (system calls); the rest of
-- the command line (clap, the dispatch of `main`, tracing, the Ctrl-C handler, all messages and the
-- output of `license status`); what changes in /proc or in a directory while it is scanned;
-- device.rs (identifiers from the system), `generate_client_secret` (random), testing.rs; the store as
-- built for Windows and macOS; the overflow of an instant that an offline limit is added to; that
-- `resolve` asks for the device id only when it needs it.
pub mod Base
pub mod Entry
pub mod Failure
pub mod ExitCode
pub mod Options
pub mod Metrics
pub mod Paths
pub mod Target
pub mod Tracker
pub mod Filter
pub mod Engine
pub mod Pipeline
pub mod Walk
pub mod Report
pub mod Adaptive
pub mod Semaphore
pub mod Workers
pub mod Ages
pub mod Sizes
pub mod License
pub mod Linux
pub mod Policy
pub mod CommandLine
mod Tests
