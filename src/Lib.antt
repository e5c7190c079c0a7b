-- ===== src/Lib.antt =====
-- Verification of clique, a scheduler that shares the AI models of a group of machines.
--
-- The server keeps a durable queue of tasks (scheduler/router.py) and live workspaces, files that
-- many clients edit at once (scheduler/workspace.py). It assigns the queued tasks to the nodes that
-- are ready, with a prompt compiled from the log of the task's session (scheduler/context_store.py).
--
-- Types   common/types.py: the domain types.
-- Dict    Python dictionaries with text keys; `Dict.Keyed` has keys of any type.
-- Router  scheduler/router.py: the class Router. The sqlite table `tasks` is a list of rows (`Row`),
--         a statement UPDATE is a pass over it, and each method is a function from the state `Queue`
--         to its result and the new state. `Router.Steps` is the transition system of the methods;
--         its other children hold the theorems.
-- Live    scheduler/workspace.py: the class WorkspaceService. `Live.Lines` is `_apply_ops`,
--         `Live.Rebase` is `_rebase_ops`, `Live` itself is `apply_patch`, `Live.Create` is `create`
--         and the reads, `Live.Flush` the checkpoints. `Live.Reach` is the transition system. The state is
--         the service in memory; the working tree to which the files are written is not modelled.
-- Context scheduler/context_store.py: the turns of the sessions and the window of messages compiled
--         for a worker (`_compile`). `Context.Append` is about the optimistic appends,
--         `Context.Budget` about the size of the window; `Context.Plan` is `compaction_plan`.
-- Sessions scheduler/sessions.py: the class SessionManager, on top of Context; `Sessions.Appends` is
--         about `_append_latest`, whose argument `meddle` is what other writers do in between.
-- Registry scheduler/registry.py: the class Registry, the roster of nodes. `Registry.Identity` is its
--         transition system and what it keeps.
-- Schedule scheduler/router.py: `schedule_pending`, which assigns the queued tasks to the nodes that
--         scheduler/registry.py calls ready. `Schedule.Score` is `_placement`, `_worker_payload` and
--         `score`; `Schedule.Slots` and `Schedule.Best` hold the theorems. Python's floats are a
--         parameter, the record `Float` of Types; the record `IsOrdered` is what the choice of the
--         best score uses of them.
--
-- Texts   Python's operations on texts (find, strip, split, replace, in), as lists of code points;
--         `with_feeds` is what `read_text` makes of carriage returns.
-- Think   common/think.py: `split_think` and the class StreamSplitter. `Think.Stream` relates the polls
--         of a growing output to `split_think`; `Think.Open` and `Think.RoundTrip` are about the tags.
-- Ledger  scheduler/ledger.py: the class Ledger, whose table is a list of rows.
-- Harness scheduler/harness.py: `extract_diff` (`Harness.Fences`), `validate_diff` (`Harness.Guards`,
--         `Harness.Hidden`) and `build_code_prompt` (`Harness.Prompt`).
-- Checkout scheduler/workspaces.py: the class WorkspaceManager. `Checkout.Apply` is about
--         `_apply_simple`, the applier of diffs that serves where patch(1) is missing.
--         `Checkout.Hunks` is `_normalize_hunk_headers` and `apply_patch`.
-- Suggest scheduler/suggestions.py: the class SuggestionEngine, on top of Registry and Router.
--         `Suggest.Load` counts the tasks that wait, `Suggest.Active` is about the active suggestions,
--         `Suggest.Cooldown` about dismissals and the ticks after them.
-- Server  scheduler/server.py: the class SchedulerServer, on top of all parts of the scheduler; its state
--         holds theirs, with what was sent over the web sockets. `Server.Submit` is `submit_task`,
--         `Server.Compact` is `_maybe_compact`, `Server.Verify` the verification of a code edit,
--         `Server.Races` the races, `Server.Messages` what an agent sends, `Server.Tasks` the calls that
--         cancel and clear, `Server.Upkeep` the background loop; `Server.Fanout` is the route of a race
--         in scheduler/api/rest.py. `Server.Steps` is the transition system, related to that of the
--         router; the calls that delete and clear tasks remove rows and are no steps. `Server.Gate`,
--         `Server.Settled`, `Server.Forgotten` and `Server.Logged` are about verified results, settled
--         races, deleted tasks and refused submissions; `Server.Tried` is about the trial of a diff.
--         patch(1), the run of the tests, the commits and the sends over the web sockets are parameters.
--         A handler runs as one step: the code awaits
--         inside one where it sends and publishes, and what another handler does there is not modelled.
-- Tools   node/tools.py: the class Sandbox, whose directory is a list of files under their resolved
--         paths, and `parse_tool_calls`. The path resolution, `json.loads` and the run of the tests are
--         parameters. `Tools.Edit` and `Tools.Safety` are about what a call changes.
-- Executor node/executor.py: the collection of a streamed output (`Executor.Progress`), the tool loop
--         of `execute` (`Executor.Rounds`) and the loop of `_execute_agentic` (`Executor.Replies`).
--         The inference and the relay to the server are parameters.
--
-- The clock, new identifiers and the git commit come in as arguments. Times are numbers in one unit;
-- the ISO texts that the table holds are compared as the times that they stand for. A patch runs
-- under its workspace's lock, so it is one step. Identifiers are native texts; file contents are
-- lists of code points, split into lines at the characters at which Python's splitlines splits. Line
-- numbers and counts of a patch are signed, as in the source; the version that a client sends is a
-- natural number. The share of a window for its summary, `int(n * 0.15)`, is `n * 15 / 100`. Loops recur
-- on lists, and so does the count of rounds of a bounded loop. The search for fences (`fences`)
-- recurs on fuel, the length of its text and one more, which is more than it has fences. The digits of a
-- number (`digits`) recur on the number and one more, which is more than it has digits.
--
-- Not modelled: the wire formats, the other routes and the pages of the web server, the events for
-- watchers, the tool calls of an agent, the snapshots of the state repository, the node agent, the
-- client programs, the working tree of live workspaces, the run of patch and test processes, and errors
-- of the operating system other than those named in Tools.
pub mod Prelude
pub mod Types
pub mod Texts
pub mod Think
pub mod Ledger
pub mod Harness
pub mod Tools
pub mod Executor
pub mod Suggest
pub mod Checkout
pub mod Server
pub mod Dict
pub mod Router
pub mod Live
pub mod Context
pub mod Schedule
pub mod Registry
pub mod Sessions
