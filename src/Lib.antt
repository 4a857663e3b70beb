-- ===== src/Lib.antt =====
-- The core of the OpenCode cycle daemon (crates/ of this repository): the state machines that
-- a workflow, its tasks, its goal and its leases go through, the checks on what agents submit,
-- the store's commands to them, what the daemon asks of the store for goals and repairs, the frames
-- by which the plugin and the daemon talk, the chain of the audit ledger, and the admission and scheduling of work.
--
-- The parts, and the files that model them:
--   Core/Workflow   crates/workflow-core/src/workflow.rs: Workflow::apply, one clause of `apply_at`
--                   for each arm of its match. The result pairs the workflow with the events or
--                   the error, so that what a refused command leaves behind can be stated.
--   Core/Task       crates/workflow-core/src/task.rs, in the same form.
--   Core/Goal       crates/workflow-core/src/goal.rs: Goal::apply, and Goal::try_from, by which a
--                   stored goal is read again.
--   Core/Request    crates/workflow-core/src/request.rs: a request with its numbered amendments,
--                   which a goal holds.
--   Core/Lease      crates/workflow-core/src/lease.rs, over i64 milliseconds with overflow checked.
--   Core/Dag        crates/workflow-core/src/dag.rs: TaskDag::validate with its loops, the search
--                   of depends_on and the sort. A BTreeMap is Prelude/Map, a list in order of its
--                   keys; a BTreeSet is Prelude/Set, an increasing list.
--   Core/Path       crates/workflow-core/src/path.rs, on the UTF-8 bytes; the task graph calls it.
--   Core/Verdict    crates/workflow-core/src/verdict.rs: ArbiterVerdict::validate.
--   Core/Review     crates/workflow-core/src/review.rs: ReviewVerdict::validate, over the
--                   findings and requirement decisions of Core/Verdict.
--   Core/Evidence   crates/workflow-core/src/evidence.rs: EvidenceRecord::validate.
--   Core/Routing    crates/workflow-core/src/routing.rs: route_workflow, which chooses the mode that
--                   a workflow starts with.
--   Core/Architecture  crates/workflow-core/src/architecture.rs: ArchitecturePlan::validate, which
--                   calls the validation of Core/Dag.
--   Core/Candidate  crates/workflow-core/src/candidate.rs: the manifest of a candidate, and what its
--                   digest gives to CanonicalHasher of digest.rs, as bytes.
--   Store/Tables    the rows that the commands of crates/workflow-store/src read and write, as one
--                   record; Store/Workflows, Store/Goals and Store/Tasks: apply_workflow_command,
--                   apply_goal_command, append_goal_amendment and apply_task_command of workflows.rs,
--                   goals.rs and tasks.rs, each a guard, the recall of a key, the command of the
--                   modelled core, and its writes; Store/Workflows has the reservations of
--                   candidates.rs and the delivery, too.
--   Store/Requests  a series of these calls, on which Store/Invariant states what each write has to
--                   keep; the theorems on the store fill that record.
--   Store/Leases    acquire_lease, heartbeat_lease and release_lease of leases.rs.
--   Store/Documents, Store/Plans  the requests of requests.rs, and the focus, the plans and the links
--                   of goals.rs, beside the store in one database.
--   Ledger/Chain    crates/workflow-ledger/src/chain.rs: LedgerEntry::new, and append, head and verify of
--                   LedgerChain, with the entries as the chain.
--   Ipc/Frame       crates/workflow-ipc/src/frame.rs: encode_frame and FrameDecoder::feed.
--   Daemon/Policy   crates/workflowd/src/resources/policy.rs: AdmissionController.
--   Daemon/Capacity crates/workflowd/src/scheduler/classes.rs: CapacityLimiter.
--   Daemon/Queues   crates/workflowd/src/admission.rs: the state of RuntimeAdmission and its queues;
--                   Daemon/Admission: `execute`, which asks Daemon/Policy.
--   Daemon/FairQueue  crates/workflowd/src/scheduler/queue.rs: FairQueue.
--   Daemon/Repair   crates/workflowd/src/repair.rs: route, over the store.
--   Daemon/Goal, Daemon/GoalOperations  crates/workflowd/src/goal.rs: the checks, and the operations
--                   that change the store, each up to its audit record.
--   Prelude         tests and lists over the native numbers, results with the operator `?`, checked
--                   and saturating words, the integers of an i64, maps and sets.
--
-- Bounds and fuel. Counters keep the width of the source: u8 in a workflow and a goal, u32 in a task
-- and in a request, u16 and u64 in admission, with checked_add and saturating_add where the source has
-- them. `drain` of the sort has one round for each node and one to stop, `search_dependencies` one
-- for each dependency of the graph and two more, `feed_loop` one for each byte and one to stop;
-- that this is enough is proved, with the absence of the panics of `sort`, in the results on
-- validation and on chunks below.
--
-- Parameters: the JSON coding of a frame (`serialize`, `deserialize`), the JSON of a goal and of a
-- request where texts of them are compared, the JSON and the digest of a ledger entry (`Coding`),
-- the digest of a plan, the texts of the daemon's keys,
-- the order in which a query sorts links, and the type of a CPU load with its comparison, an f32 in
-- the source. Ids, digests and timestamps, which the code compares only, are numbers in their order.
-- Whether debug assertions are compiled in is an argument of the admission.
--
-- The store. A transaction is a function from tables to tables and a result, and an early return
-- keeps the tables as they were: SQLite's atomicity, with one writer at a time, as the daemon has
-- it. A row holds the value that its JSON codes, read back through the checks of the core; of
-- SQLite's failures there are the missing row, the key used twice and the missing row of a foreign
-- key.
--
-- Not modelled: the other tables of the store, the code index, sockets, processes, git, hashing and
-- the text forms (Display, serde) of the types, which are calls of other libraries or of the system;
-- the audit records and the snapshots of goal.rs; the writer of the ledger behind its lock.
pub mod Prelude
pub mod Core
pub mod Ledger
pub mod Ipc
pub mod Daemon
pub mod Store
