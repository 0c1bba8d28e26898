-- ===== src/Lib.antt =====
-- agenttender supervises the processes that agents start: each session has a sidecar that spawns
-- the child, records what happens to it in `meta.json` and an event log, and, for a session on a
-- PTY, arbitrates who may type into it and records its bytes. This library models the parts of it
-- that compute: the lifecycle of a session and its reconciliation after a crash, the authority over
-- PTY input and the thread that writes it, the protocol between an attach client and the sidecar,
-- the client's detach escape, the recording codec, the recorder, and the directives in a script's
-- header. Paths are from the repository's root.
--
-- Common: names shared by all files. Numbers are the native ℕ, a byte is a number below 256, and
--   a `Vec<u8>` or `&[u8]` a list of them. Common/Words has the big-endian words of 2, 4 and 8
--   bytes; a wider number wraps as `to_be_bytes` of its type does. Common/Results is
--   `Result<A, E>`, with `>>=` and `guard` for `?` and early returns.
--
-- Model/Ids, Model/Generation: src/model/ids.rs, the identities that the other parts carry.
-- Model/Boundary: src/model/boundary.rs, the `kind:label` text of a launch boundary.
-- Model/Spec: src/model/spec.rs, the data of a launch specification.
-- Model/Status, Model/Provenance: src/model/state.rs, src/model/dep_fail.rs and
--   src/model/provenance.rs, a run's status and who concluded it from what evidence.
-- Model/Meta, Model/Pty: src/model/meta.rs and src/model/pty.rs, a session's metadata with its
--   setters and its decoding.
-- Model/Transition: src/model/transition.rs. A method on `&mut Meta` returns the metadata and a
--   result. Ops lists the methods as operations, so that a history is a list of operations; Graph
--   has the step relation `⟶` between statuses, which the methods are shown to follow.
-- Model/PtyControl/Arbiter: src/model/pty_control.rs, `InputArbiter` with `claim`, `takeover`,
--   `release` and `authorize`. The sidecar is its only writer; clients hold handles, and a handle
--   that an epoch has left behind is stale. Histories are lists of these operations.
-- Model/PtyControl/Requests: the same file, `PendingInput` and `write_step`. The trait
--   `PtyInputSink` is a record with a state, and stands for the PTY.
-- PtyExit: src/pty_exit.rs, the exit codes of the PTY commands.
-- PtyInput: src/pty_input.rs. Items has the queues and the senders' looks at them, Serving what a
--   control does, and Rounds the writer thread in steps, between which senders may queue. A sender
--   that finds its queue full has no effect: it looks again later. A channel is a number; the calls
--   of the hooks, the window sizes and the answers are a list of effects.
-- AttachProto: src/attach_proto.rs. Outcome and Frame write what a client and the sidecar say to
--   each other; Reader reads it back from the bytes of a stream. Its geometry is that of
--   src/recording.rs. `String::from_utf8_lossy` is a parameter.
-- AttachEscape: src/attach_escape.rs. Keys classifies a key in the encodings of terminals, Tokens
--   cuts the typed bytes, and Parser holds back what could be the escape. Sessions runs it on reads
--   and looks at the clock. The loop of `feed` takes one more round than there are bytes, which is
--   enough because every token takes a byte (Progress). An `Instant` is a number of nanoseconds.
-- Recording: src/recording.rs. Format has the data, Encoder writes a segment, Header, Decoder and
--   Segment read one, and Join reads a list of segments as one recording. CRC-32C and the version
--   of a UUID are parameters; where a theorem needs it, the checksum is a u32. The loop over a
--   segment takes one more round than there are bytes, which is enough because a record takes at
--   least one (Total). Order says what every decoded recording satisfies, RoundTrip what the
--   decoder makes of the encoder's bytes.
-- Recorder: src/recorder.rs. State is what producers and the writer share, Storage the calls of the
--   file system, Writer the storage side, System the writer thread by the phases of its loop, and
--   Reach the steps of all threads in any order. A step of the writer is given the answers of the
--   file system (a write that fails may have written some of its bytes) and whether a sync is due;
--   a producer is given the readings of the clock. The lock makes the steps atomic, except that the
--   preparing and appending of a record is one step: it writes `synced` and `segments` only, which
--   no other thread does. Layout says what the segments hold; Stops, Recorded, Ending and Limit
--   have the theorems. A file of the recorder is its bytes: names, permissions and `segments` are
--   left out.
-- Lifecycle: src/events.rs and src/reconcile.rs. Data is `lifecycle_kind` and `lifecycle_data`, what
--   an event says of a run's status; Healed is `healed_terminal_of`, which reads it back. The JSON
--   values are texts, integers and the fields of one object, in the order in which they were set.
-- Reconcile: src/reconcile.rs, what a command does about a session whose sidecar is gone. World has
--   the answers of the lock, the files, the event log, the probe of a process and the kill, which are
--   given, and Gone returns the metadata, what was done in order, and the result. Paths, Found and Recovery
--   follow it for a sidecar that died between its event and its metadata write.
-- Directive: src/directive.rs. Text has the methods of `str` on lists of characters, Names the rules
--   of `SessionName` and `Namespace` (src/model/ids.rs), Parser `parse_directives`, and Derive
--   `derive_session_name`, which is given the file name; Left says what it keeps. An absent value is an empty one, as the code
--   reads it.
-- Examples: each theorem at a concrete input.
--
-- The parts meet in four places: `Model.Transition` works on the metadata of `Model.Meta`, the
-- requests of `Model.PtyControl.Requests` ask `Arbiter` before they write, the frames of
-- `AttachProto` carry the geometry of `Recording`, and `Reconcile` reads the events of `Lifecycle` and
-- heals by the transitions of `Model.Transition`.
--
-- Not modelled: the file system, sockets, threads, signals and processes (src/session.rs,
-- src/sidecar.rs, src/attach_socket.rs, src/platform), the serde JSON of the metadata, SHA-256,
-- and the command line (src/main.rs and src/commands), which are input and output around these
-- parts; and, of the parts that compute, src/log.rs,
-- src/exec_frame.rs, src/sidecar/supervised_run.rs and what src/events.rs has besides the lifecycle
-- events.
pub mod Common
pub mod Model
pub mod Recording
pub mod Recorder
pub mod Lifecycle
pub mod Reconcile
pub mod Directive
pub mod PtyExit
pub mod PtyInput
pub mod AttachProto
pub mod AttachEscape
mod Examples
