-- ===== src/Lib.antt =====
-- cmdtrail, a recorder of commands: the parts of it that decide what a receipt says, and theorems
-- about them. A recorded command is run between two snapshots of the observed roots; the receipt
-- holds a redacted form of the command, the file effects that the snapshots show, and digests that
-- seal it; receipts can be verified and compared.
--
-- The files and the code (paths from the root of the repository):
--   Model          src/model.rs: the receipt and its parts; the derived order of `EffectKey`
--   Error          src/error.rs: exit classes, errors, the error document
--   Encoding       `hex_lower`, `sha256_bytes` (src/integrity.rs), `append_length_delimited`
--                  (src/redact.rs)
--   Integrity      src/integrity.rs: `hash_serializable`, `append_event`, `finalize_receipt`,
--                  `verify_receipt`; Envelope, Chain, Sealing and Binding hold the theorems
--   Redact         src/redact.rs: `from_environment_names`, `command`, `path_display`,
--                  `path_is_sensitive`, `redact_url`; the folder holds the theorems by what is
--                  redacted
--   Snapshot       src/snapshot.rs: Types the structs, Roots `prepare_roots`, Entry
--                  `entry_state` and `hash_regular_file`, Capture `capture_internal` with a
--                  function for each part of a round, Compare `compare` and `root_records`;
--                  below Capture, Budget, Rounds and Bounds are about its limits, Growth, Steps,
--                  Walk, Loops, Found, Walked and Handles about the paths it finds, Private
--                  about sensitive files
--   Diff           src/diff.rs: `diff_receipts`
--   ReceiptFile    src/receipt.rs: `preflight_new_receipt`, `write_new_receipt`, `read_receipt`
--   Record         src/record.rs: `RecordOptions` and `validate_options`; Events the events and
--                  the counts of effects; Run `run_command`, one function for a round of its loop,
--                  and in Run/Steps the diagram of its phases, in Run/Cause and Run/Outcome what an
--                  outcome says; Draft the receipt before it is sealed; Persist
--                  `persist_receipt_with_recovery`; Recording `record` itself, with a module below it for each question about a whole recording: what is sealed and
--                  stored (Sound, Verified), what the receipt tells of the disk (Truthful,
--                  Complete), what it keeps to itself (Secret, Private) and admits not to know
--                  (Disclosed), how it ends (Ending, Refused, Early, Unspawned), and how two
--                  recordings compare (Reproduced)
--   Capability     src/capability.rs: the three documents
--   Cli            src/main.rs: `parse_duration_ms`; Execute every command of `execute`, and `main`
--   System, Disk   what the operating system and `walkdir` answer, as parameters: a state of the
--                  file system as it is read, and the operations that change one
--   Action         code that changes a state and may fail, for `do` blocks
--   Prelude, Ord, BTree, Sort, Text, FilePath, Result
--                  what the program uses of Rust's standard library: saturating arithmetic,
--                  ordered maps and sets, sorting, texts as UTF-8 bytes, paths of Unix, results
--
-- How the parts interact: Redact names the paths that Snapshot must not hash; Snapshot's effects
-- are the events that Integrity chains and seals; Record takes the snapshots around the run of the
-- child, seals the receipt and hands it to ReceiptFile; Diff reads receipts that Integrity verifies;
-- Cli reads what ReceiptFile has written.
--
-- Conventions. A `u64` is a natural number with its saturation written out; a `String`, an
-- `OsStr` and a path are byte sequences, as on Unix. State that the code mutates is passed on:
-- the state of the loop over the arguments is `ArgumentState`, the running total of hashed bytes
-- an argument and a result of `entry_state`, and `CaptureState` is what `capture_internal`
-- mutates, the interrupt flag being a function of the number of its loads. Loops are recursion on
-- the sequence that they read. SHA-256, the canonical JSON of RFC 8785 and the process
-- environment are parameters; where a theorem could need that SHA-256 is collision free, it
-- instead exhibits the collision. So are `serde_json`, the clock, the children that a spawn can
-- give (`Machine`, `Child`) and the disk, with its documented behaviour in `IsDisk`: a file is
-- created or nothing changes, and a file that was written is read as it was written.
--
-- Bounds. The number of a decimal text is printed with fuel one larger than the number, which is
-- more than it has digits. The loop that waits for the child is recursion on fuel, a round for each
-- unit: as a round sleeps at least 10 ms and a time limit is at most 24 hours, 8,640,001 rounds are
-- enough where there is a limit; without one the child may run for ever, and the theorems hold for
-- any fuel. The calls that block, the wait after a kill and the joins of the threads that forward
-- the output, have no answer (`none`) where they never return: a descendant of the child that holds
-- a pipe open keeps `finish_run` from returning. A theorem that a run ends says so among its
-- conditions (`IsAwaitable`), and Run/Held is about the other case.
--
-- What a snapshot sees is a `Filesystem` for the state of the disk before the command and another for
-- the state after it; what happens to the disk while one snapshot is being taken is not modelled.
--
-- Not modelled: the argument parser and the completion scripts (`clap`), the printing of JSON, the
-- threads that copy the output of the child (only whether they end, and end well), and the
-- permissions of the receipt file; of src/snapshot.rs, src/redact.rs and src/record.rs the code for other systems than
-- Unix.
mod Prelude
pub mod Ord
pub mod BTree
pub mod Text
pub mod FilePath
pub mod Result
pub mod Encoding
pub mod Model
pub mod Error
pub mod Action
pub mod Capability
pub mod Integrity
pub mod System
pub mod Disk
pub mod ReceiptFile
pub mod Sort
pub mod Redact
pub mod Snapshot
pub mod Diff
pub mod Cli
pub mod Record
