-- ===== src/Lib.antt =====
-- A verification library of ChatTree, a chat server whose conversations are trees: of the parts of
-- its backend that keep state or decide an order, what they compute and that it is right.
--
-- The parts and the files that model them:
--
-- * Runs (backend/core/runs/repository.py): `MemoryRunRepository`, the record of every run with its
--   log of events and its idempotency key. Runs/Types has the state; Runs/Create, Update, Events,
--   Finish and Listing have the methods under their names. A method takes the repository and
--   returns its result, or what it raises, beside the repository that it leaves. Runs/WellFormed is
--   the invariant with its preservation, Runs/Evolution what calls keep of a run, Runs/Calls any
--   sequence of calls, Runs/Idempotency, Replay, Finishing, Listed and Startup the rest.
-- * Chat (backend/core/chat/conversation.py, backend/core/chat/node.py, backend/core/model/usage.py):
--   `Conversation`, a dictionary of nodes with the identifiers of parent and children.
--   Chat/Conversation has the state and its construction, Chat/Walks the walks over it,
--   Chat/Deletion the removal of a node with all below it, and Chat/Usage the token counts.
--   Chat/Trees is the specification: a tree as a data type, and what it means that a dictionary
--   represents it.
-- * Tasks (backend/core/persistence/task_repository.py, with the tables of
--   backend/core/persistence/schema.py): `SQLiteTaskRepository`, the task of each conversation with
--   its ordered steps, and the binding of a run to a step. Tasks/Types has the tables, Steps and
--   Queries what is read of them, Changes and Bindings the methods. A method is a transaction: it
--   returns its result with the new tables, or raises and is rolled back. Tasks/Order and
--   Tasks/WellFormed are the invariant, Calls any sequence of calls, Stale and Versions what a revision is for, Ends
--   and Release the end of a run. Of the table of runs it has the columns that are read here.
-- * Plans (backend/core/plans/ledger.py and backend/core/persistence/plan_repository.py): `PlanLedger`
--   over the table of plans, the planning mode of a conversation. Plans/Types has the tables,
--   Plans/Table the repository, Plans/Ledger the ledger; Plans/Single, Calls and Sequence are that a
--   conversation has one open plan at most. The mode to go back to is normalized by
--   Tools/Permissions.
-- * Notifications (backend/core/notifications/task_notifications.py, with the table of
--   backend/core/persistence/schema.py): `TaskNotificationService`, what a run that finished in the
--   background has to tell. Notifications/Types has the table, Delivery the methods that move a
--   notification, Creation how it is made of a run; Moves, Calls and Ends are what any sequence of
--   calls keeps, Progress that it can be delivered.
-- * Server (backend/core/server/admission.py): `MutationAdmission`, which lets changes in one at a time
--   and closes before a shutdown. Server/Admission has its blocks and a step relation of them,
--   Server/Closing that nothing is changed after it has closed.
-- * Approvals (backend/core/tools/security/approval.py): `ApprovalManager`, which tool calls wait for.
--   Tools/Approvals/Types has the data, Manager the methods that run at once, and Waits the tasks as
--   a step relation: what the event loop, the users and the clock may do next. `asyncio` is what
--   Waits states of it. Consistency, Methods and Preservation are the invariant, Outcomes,
--   Decisions, Nodes, Grants and Lasting the rest.
-- * Permissions (backend/core/tools/security/permissions.py): `PermissionEngine`, which decides whether
--   a call of a tool is allowed, asked for or denied. Tools/Permissions has the modes, and below it
--   Types the data, Commands what is read of a call, Rules which rules match, Engine `evaluate`,
--   and Modes what the modes promise.
-- * Exposure (backend/core/tools/exposure.py): `ToolExposureResolver`, which tools a model sees.
--   Tools/Specs has the specifications of tools, Tools/Exposure the visible names step by step,
--   Exposure/Mcp the tools of MCP servers, Exposure/Visible the same tool by tool,
--   Exposure/Guarantees and
--   Exposure/Internal what is never visible, Exposure/Config what the configuration gives. Tools/Matching is
--   Python's `fnmatch`.
-- * Tools (backend/core/tools/tool_call_scheduler.py, backend/core/tools/security/capabilities.py):
--   which tools may run in parallel, and how the calls of a turn are grouped into waves. A call whose
--   `function` is a true value but no mapping raises, as in the code.
--
-- Dict is Python's `dict` in insertion order, Json the values of payloads and metadata, Prelude the
-- names that all modules share, Examples the concrete inputs.
--
-- Choices of the model. A row of a task holds its steps, which the tables delete with it.
-- A reference or check of a table that a statement violates raises `integrity_error`. The lock of
-- the repository of runs makes each method atomic, with three exceptions, which are one call here:
-- `finish_run` and `request_stop` give it up between the change of status and the event, and
-- `mark_unfinished_as_interrupted` takes it anew for its list and for each run that it finishes.
-- A clock reading, a fresh identifier of `uuid4` and `str` of a JSON value are arguments; the
-- theorems that need fresh identifiers say so. Times, which are floats, are natural numbers. Copies
-- (`deepcopy`) are values. Iteration over a set never shows, so a set is a list.
--
-- Where code asks for the case or the class of a character, the texts are ASCII; `fnmatch` compares as
-- on POSIX. `str` of a value that is no text is an argument.
--
-- Fuel and bounds. A `while` loop takes fuel and gives `none` when it runs out; on a dictionary that
-- represents a tree, one round for each node and one more is enough, and the theorems say so with
-- that fuel. Recursion takes Python's bound on nested calls and raises at it; a bound of the height
-- of the tree is enough.
--
-- Not modelled: the adapters of language models, the HTTP routes, the other
-- repositories in SQLite, the client launcher, the front end, and log messages.
mod Prelude
pub mod Dict
pub mod Json
pub mod Chat
pub mod Runs
pub mod Tools
pub mod Tasks
pub mod Plans
pub mod Notifications
pub mod Server
mod Examples
