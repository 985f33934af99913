-- ===== src/Lib.antt =====
-- InkPi: a verification library for the packages of the agent harness.
--
-- The program. `@inkpi/protocol` is the wire between clients and the daemon: framed CBOR values
-- over a byte stream. `@inkpi/storage` keeps documents in SQLite behind writer leases with fencing
-- tokens. `@inkpi/session-backends` keeps the journals of sessions.
-- `@inkpi/editor-core` is the editor of a document, without a view.
-- `@inkpi/agent-core` runs the agent: it keeps the messages of a session in a tree, whose
-- branches are alternative continuations.
--
-- Which file models what.
--   Protocol.Framing: packages/protocol/src/framing.ts. `encode_frame`, `assert_complete_frame`, and
--   `FrameDecoder` with `push` and `end_stream` (`end`), whose two nested loops are `push_loop` and
--   `fill`. The loops take fuel, the number of bytes that are left; each round consumes at least
--   one, so the fuel never runs out: the refinement theorem covers every call. Bytes are numbers
--   below 256. Its children prove what the inner loop keeps (Blocks, Fill), what a round does
--   (Rounds, Header), that `push` implements the specification of Stream (Refine), and the round
--   trip.
--   Protocol.Cbor: packages/protocol/src/cbor. The values and options.ts stand in Cbor, UTF-8 in Utf8,
--   encoder.ts in Encoder (the writer with its growing buffer, `encode_item`), decoder.ts in Decoder
--   (`read_item` and its two loops). The reader's state is what is left of the payload. Its recursion
--   takes twice the bytes and one as fuel, which Total proves enough. Writer shows that the buffer
--   only grows, Reading, Items and Containers what one item is read back as. Members stand in the
--   order of their definition; an engine lists keys that are array indices first.
--   Protocol.RpcLimits: packages/protocol/src/rpc-limits.ts. Lines shows that the line buffer cuts a
--   stream as its lines stand, Window has the send window; the function that `reserve` returns is a
--   reservation in a list. The loop of `push` takes the length of the chunk as fuel: each round but
--   the last takes a line feed from it.
--   AgentCore.Collections and AgentCore.Pipeline: packages/agent-core/src/clipboard/kill-ring.ts and
--   queues.ts; pipeline/stage-registry.ts, roles.ts, gate-rule-registry.ts and gate-detection.ts, in
--   Stages, Roles and Gates. A regular expression keeps its `lastIndex`; what it matches, and what a
--   detector answers, the caller gives.
--   EditorCore: packages/editor-core/src. State is state.ts, GhostText ghost-text.ts and ime.ts. A text
--   is a list of UTF-16 code units, positions are whole and not negative. Texts shows what the edits
--   do to the text, Undo and WordCount what every sequence of calls keeps, Acceptance that a
--   suggestion accepted by parts is accepted whole.
--   SessionBackends: packages/session-backends/src. Contract is entry-contract.ts, with Contract.Pages and
--   Contract.Forks; Memory is memory.ts, its `search` in Memory.Search, where `String.toLowerCase` is an
--   argument and texts are UTF-16 code units. Journals and Memory.Laws are about what a journal keeps,
--   Paging about a client that reads page after page while entries are appended, Forking about the walk of
--   a fork. What is not JSON-safe is marked by a missing payload; a number that is not whole is known
--   by the whole number below it. The walk takes the number of entries and two as fuel: each round but
--   the last takes an entry that it has not seen.
--   Storage.Leases: packages/storage/src/leases.ts. The table `writer_leases` is an argument with
--   the laws of the SQL statements (Storage.LeaseTable), since the engine is not part of the
--   repository; the clock is an argument of each call. Times are unbounded numbers; a token is counted
--   on in the arithmetic of a `number`, which stops at 2^53.
--   AgentCore.SessionTree: packages/agent-core/src/tree.ts. The map of nodes is a list, the newest
--   first; the clock is an argument, the generator of identifiers a function of how often it was
--   called. Views has the methods that read; their loops towards the root take the number of nodes as
--   fuel, and Climb proves it enough by a recursion on the nodes. Valid and Keeps have the invariant,
--   Histories, Branching and Ancestors what the readings mean. `hypothesis` and `label` of a marker
--   are kept; other contents are opaque texts.
--
--   AgentCore.Scheduler: packages/agent-core/src/lifecycle/scheduler.ts. Queue is the heap with its map of
--   positions, State, Pump and Control the methods, Control.Pausing those that pause and resume a task,
--   Runs what happens between them: tasks report and end, time limits pass, timers fire; Runs.Recovery
--   has rehydrate. A record is named by its place in the list of all records, which
--   is its sequence number; the clock is an argument; `String.localeCompare` is the argument `collate`,
--   of which IsCollation asks that it orders texts up to ties. Promises stand in a list, in the order in
--   which they were made, and what the store and the listeners were given in two others. Valid is the
--   invariant, and what it says while a method has one record in hand; Steps, Closing, Hand and PutBack
--   take a record in hand and put it back, Pumping and PumpLoop are about the pump, Frames, Leaving,
--   Arming, Touching, Adding, Ending, Queueing, Resuming and Finishing about the methods, Events and
--   Histories about all of them; Safety, Shutdown, Progress and Duplicates have the theorems on any
--   sequence of calls. siftUp takes its index as fuel, siftDown and the loops of the pump the
--   number of entries, each of which they can take once. Listeners and tasks do not call back into a
--   method that is running. `rehydrate` does not change anything before the store answers, so that a
--   sequence of calls has its answer as one event, with any others before it. Not modelled: that a record
--   replaces one which was added under its identifier while the store was awaited, which IsUndisturbed
--   excludes. Whether the last save succeeded is an argument of the end of `stop`. Times and priorities are
--   whole numbers, delays are not negative, and progress is in thousandths.
--
-- Conventions. What the source throws is the error case of `Result`; a state that a throwing call
-- has changed is returned beside it. Identifiers are texts, compared whole.
pub mod AgentCore
pub mod Base
pub mod EditorCore
pub mod Protocol
pub mod SessionBackends
pub mod Storage
