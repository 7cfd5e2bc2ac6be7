-- ===== src/Lib.antt =====
-- agent-keep: a spec-driven runtime for one governed agent (packages/agent_runtime), the schema of its
-- spec (packages/keep_spec), and the proxy through which alone it reaches the network
-- (packages/keep_egress). A message comes in through the gateway, lands in a session, and starts a turn
-- of the core: model calls, budgeted by the router, and rounds of tool calls, which the executor grants,
-- pins, parks for a human's approval and records. What the tools and the agent send out passes the
-- egress proxy, which enforces the spec's allowlist and keeps a log of its own.
--
-- Files and the code that they model:
--   Base: shared names, tests, lists, names that stand twice (Names), Python's dict with text keys (Dict),
--     texts split at a separator (Separated).
--   Audit: packages/agent_runtime/src/agent_runtime/audit.py. The log is the list of its records.
--   Messages: agent_runtime/messages.py.
--   Executor: agent_runtime/executor.py, with the request types of provider.py. Types, Calls and Decide
--     are ToolExecutor (execute, _run, resolve, pending, visible_tools, close), Routes is
--     ApprovalHttpRoutes, Build is build_executor; Audited, Gate, Resolve, Invariant, History, Visible,
--     Once, Endpoint, Bound and Leaks prove what they do.
--   Egress: packages/keep_spec/src/keep_spec/egress.py (Match, over the texts of Text) and
--     packages/keep_egress/src/keep_egress/proxy.py and records.py (Head: _parse_request_head, with
--     urlsplit as a parameter; Proxy: the connections); Rules, Target, Audit and Slots are their theorems.
--   Sessions: agent_runtime/sessions.py (Keys), components/single_session.py and
--     components/sqlite_persistence.py (Store); Isolation, Durable and Refine are their theorems.
--   Gateway: agent_runtime/gateway.py (Principals, Gate), with its theorems in Admission and Principals.
--   Router: agent_runtime/components/model_router.py (Budget), with its theorems in Spending.
--   Core: agent_runtime/core.py (Model: call_model; Loop: _tool_round and the loop of handle;
--     Trigger: _trigger_for), with its theorems in Turn, Rounds and Reason.
--     Handle is the whole of handle, with the components behind the core's protocols as parameters;
--     Keeps, Handled, Ensures, Commands and Conversation prove what it does, Managers gives it
--     single_session.py.
--   Prompt: agent_runtime/components/prompt_assembler.py (Defang: _defang_marker_runs; Assemble: the
--     rest), with its theorems in Fence, Markers and Window.
--   Channel: agent_runtime/components/channel_lifecycle.py (Seen: SeenIdCache; Reply: ReplyDelivery), with
--     their theorems in Window, Once, Told and Sources.
--   Receiver: agent_runtime/components/http_receiver.py (Request: _parse and _read_line; Connection:
--     _serve, _run_handler and _handle_connection), with its theorems in Lengths, Bounds and Ceiling.
--   Cron: keep_spec/cron.py (Parse), with its theorems in Admits and Schedule.
--   Static: agent_runtime/components/static_provider.py, with what it says over its calls in Turns.
--   Words: Python's splitting and trimming of texts, which Cron and Receiver use.
--   Spec: keep_spec/models.py. Intake, State, Tools, Providers and Sections are the sections as records,
--     Validate, Priced and Accepted the validators over the errors of Check; Sound, Configured and
--     Consistent prove what they accept, Sample is examples/outage-correlation.yaml; Qualified is about the
--     names of the granted tools, and the executor's registry of them.
--   Wiring: agent_runtime/wiring.py (Tables: the registry and what is buildable; Guards:
--     unimplemented_selections; Targets: egress_violations; Select: ensure_buildable and
--     select_components). Reports, Adapted, Kept, Granted and Buildable prove what the first half of the
--     guard passes, Covered, Contacts, Dialled, Aimed and Admits what the second half does, Tabled, Flags,
--     Declared, Listed, Registered and Selected what is selected, Runs what the proxy and
--     build_executor make of a built spec.
--
-- State and operations: an object's fields are a record, a method is a function that returns the new
-- record beside its result, and an exception is a value of an error type. What a tool or a provider does
-- is a function on a world of which nothing is known, so that "no tool runs" says that the world is the
-- same. Fresh ids, the clock, sha256, JSON, repr, strip and floats are parameters. Concurrency is a list
-- of events: an executor's history is a list of requests and decisions, a proxy's run a list of
-- connections that arrive, open a tunnel and end, a session store's a list of calls whose SQL statements
-- go through or fail, an HTTP receiver's run a list of connections that arrive and end. The loop of the
-- tool rounds recurs on the rounds that are left, from the source's MAX_TOOL_ROUNDS, so it needs no fuel.
-- The loop over an HTTP request's header lines has one round more than max_header_count as fuel, which is
-- never used up, since the count is checked in every round; a range of numbers has as much as it has
-- numbers between its ends, and its step is 1 or more. No other loop needs any.
--
-- Texts are native strings, except in Egress, Cron and Receiver, where they are lists of code points:
-- hosts, entries and schedules are ASCII, and a request's lines are the bytes
-- that were read. Numbers are natural; the source's integers are unbounded.
--
-- A spec is a value of the declared shape: the defaults, patterns and ranges of single fields are
-- pydantic's, which also collects the errors that here stop at the first. An error of the schema, of the
-- guard or of a table is the data that its message names.
--
-- Not modelled: the proxy's byte pump and its listener; the opening of the database file; the rules of
-- single fields of the schema but the pattern of a server's name, and the reading of YAML; the spec diff,
-- and what is mere I/O (the clients of model services, listeners, image build, boot). An audit sink that
-- raises is modelled of the egress proxy only. Of the components around the core only the command surface
-- writes to the core's log; the modules that the registry names and the repository lacks are not known.
pub mod Base
pub mod Audit
pub mod Messages
pub mod Executor
pub mod Egress
pub mod Sessions
pub mod Gateway
pub mod Router
pub mod Core
pub mod Channel
pub mod Prompt
pub mod Words
pub mod Cron
pub mod Spec
pub mod Wiring
pub mod Receiver
pub mod Static
