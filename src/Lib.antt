-- ===== src/Lib.antt =====
-- Verification of xarness, a coding agent that runs as a host process with sessions and clients.
--
-- A session (src/xarness/session.py) owns a controller (controller.py), which owns a conversation
-- (conversation.py). For each user message the controller streams rounds from the provider
-- (client.py) into the conversation, the session runs the tools of each round (tools.py, in
-- sandbox.py's container) and streams again. When the context is full the conversation is
-- compacted (compaction.py). Each change requests a save: a background task writes the
-- conversation's unsaved tail into a database (session_store.py). An undo truncates the
-- conversation and reverses the file edits of the dropped turns (gitwork.py).
--
-- The parts, the files here, and the source:
-- - Conversation: `Conversation` of conversation.py. Message: the message types and their parts.
--   Log: the history, its visible index `_visible_from` and its watermark `_dirty_from`. Turns:
--   the checkpoints `turns` (`TurnCheckpoint` of gitwork.py), `finish_turn` is
--   `Session._finish_turn`. Rollback: `rollback_plan`, `rollback_plan_to` and `apply_rollback`.
--   Repair: `repair_orphaned_tool_calls`. Parts: `build_parts`. Wire: `to_wire`. Mutation: the
--   changes a session makes, as data. Indexed: the invariant of the visible index. Their child
--   modules hold the proofs and are named for what they prove.
-- - Compaction: compaction.py.
-- - Client: client.py, the accumulator of tool calls, the events of a chunk, the lines of a
--   response, and the attempts of `stream`. The transport is a function from the attempt's number
--   to what it brings, and `loads` stands for `json.loads` and the access to the chunk's fields,
--   which raises on some values.
-- - Controller: controller.py, the state of `ChatController` and one function per method;
--   `stream_round` reads the client's events one by one, each with the clock reading at which it
--   came.
-- - Store: session_store.py, the rows of one session, `serialize_state`, `write_state`,
--   `load_state`.
-- - Persist: `_persist`, `_persist_state` and `_persist_loop` of session.py as a step relation:
--   between two awaits of the writer the session may change the conversation, and a write ends
--   well, fails, or is cancelled; a cancelled write goes on in its thread and lands later or is
--   lost.
-- - Session: the run state of `Session` of session.py: the state, its tasks, the steering queue,
--   the pending ask, the subscribers, and the events that go to them. Commands: the handlers
--   `_cmd_…`, the guard of `_dispatch`, `subscribe`, `quit_verdict` and `summary`. Steps: what
--   happens between two awaits of a session's tasks, each step with the steering messages that
--   came in and left. Executor: `execute` with its memory of results. Output: the `sink` of a
--   tool's live output. Rounds: the loop of `_run_turn` over rounds and tool calls, on the
--   controller; the number of rounds is given, as the provider may ask for tools without end.
--   Queue, Injected, Clients and Honest hold proofs.
-- - Protocol: the stream events and the live round of protocol/events.py and protocol/views.py.
-- - Tools: tools.py. Registry: `ToolRegistry`, its `call`, and `build_registry`. Handlers:
--   `write_file`, `edit_file`, `run_bash` and `ask_user`; a command in the sandbox is a function
--   that changes the world outside. Edits: `_apply_edits` and the decisions of `edit_file`.
--   Window: `_line_window` and the ranged `read_file`. Output: `_truncate_output`.
-- - Config: config.py. The profiles, and how a model and a sandbox profile are found by name.
--   Checks: the validators, also of paths. Preferences: the file's sections, `save_preferences`
--   and `_parse_sectioned`. Resolve: the inheritance of sandbox profiles.
-- - Sandbox: sandbox.py. Paths: where the tools' paths lead. Refs: `bind_ref` and
--   `resolve_auto_refs`, over tests on the host's files. Argv: `build_argv` as a list of options,
--   which `words` spells; Binds has the groups of mounts, Build their order, and the record
--   `Machine` what is read of the host. Shell: the restarts of `SandboxSession`. Capture: what is
--   kept of a command's output, and its marker.
-- - Git: gitwork.py. Changes: the parsers of git's listings. Conflict: what a merge says. Revert:
--   `revert_turns` and `revert_to_tree`, on a workspace as a function from paths to contents.
--   Stats: the cache of diffs, the attribution of changes, and `GitInfo`.
-- - Host: host.py, the loop of `_reap`: one pass as a function of the clock in milliseconds, and a
--   run in which the sessions change between the passes. Parts: what `_build_parts` takes of the
--   configuration, of the request and of the workspace's last use. Loading: calls of
--   `load_session` for one name, step by step.
-- - Tests: the theorems at concrete inputs.
--
-- Bounds: loops are structural recursion. The attempts of a round are the three of
-- `_RETRY_ATTEMPTS`; the last of them always returns, so no round runs out of them. Python's
-- integers are unbounded, and all that the modelled code counts is natural, but an exit code,
-- which may be -1. Texts are lists of code points; ids and trees are strings.
--
-- Commands that git, the sandbox or the configuration answer are known by their name, and a
-- parameter answers them.
--
-- Not modelled: HTTP, JSON and SQL beyond the order and the replacement of rows; image decoding;
-- the commands of git and the container, which are parameters; the outline of a long file; the
-- cache of the command line's prefix, `_host_venv_python`, whose result is a field of `Machine`,
-- and directories that one mount makes for another; the type checks of pydantic and the cache of
-- the parsed configuration; the rest of the host, the API and the terminal interface; what an
-- exception of SQLite or pydantic leaves behind other than a write that failed as a whole (one
-- write is one transaction).
pub mod Prelude
pub mod Conversation
pub mod Store
pub mod Persist
pub mod Protocol
pub mod Compaction
pub mod Client
pub mod Config
pub mod Controller
pub mod Session
pub mod Tools
pub mod Sandbox
pub mod Git
pub mod Host
pub mod Tests
