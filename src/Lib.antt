-- ===== src/Lib.antt =====
-- The workflow engine of the plugin: crates/workflow-core, and the parts of crates/workflow-ipc,
-- crates/workflow-ledger, crates/workflow-store and crates/workflowd that decide something on their
-- own.
--
-- The program. A daemon (crates/workflowd) takes requests over a local transport
-- (crates/workflow-ipc), moves workflows, goals and tasks through the state machines of
-- crates/workflow-core, keeps them in SQLite (crates/workflow-store) and writes what happened to a
-- hash chain (crates/workflow-ledger). Its scheduler picks tasks, and asks the limits for classes of
-- work and the resources of the machine before it runs one.
--
-- Which file models which code:
--   Prelude: tests on numbers, lists, `Result`, text and its UTF-8 bytes, maps, chains of checks,
--     `i64`, and `Exec`, the actions of a `&mut self` method that may fail.
--   Core/Workflow: crates/workflow-core/src/workflow.rs. `apply` has one clause for each arm of
--     `Workflow::apply`; `Action` is state passing, so that an error keeps what was assigned before it.
--   Core/Goal, Core/Task, Core/Request, Core/Lease: goal.rs, task.rs, request.rs and lease.rs there.
--     `try_from` is the conversion from the unchecked record, and `Goal.deserialize` also runs that of
--     the request that a goal holds.
--   Core/Verdict, Core/Review, Core/Role: verdict.rs, review.rs and role.rs there. A check that
--     returns `Ok(())` is `none`, one that returns an error is `some` of it.
--   Core/Routing: routing.rs there. The facts collected into a set are a list in the order of the
--     categories.
--   Core/Path, Core/Dag: path.rs and dag.rs there. `walk` is the loop of `depends_on`, `place` that of
--     `TaskDag::sort`. Core/Architecture: architecture.rs there, `validate_plan` its `validate`.
--   Core/Evidence: evidence.rs there, `validate_evidence` its `validate`.
--   Core/Digest, Core/Candidate: digest.rs and candidate.rs there. `digest_input` is what
--     `CandidateManifest::digest` hashes.
--   Ipc/Frame: crates/workflow-ipc/src/frame.rs. `round` is one turn of the loop of
--     `FrameDecoder::feed`, `feed` the loop.
--   Ledger/Chain: crates/workflow-ledger/src/chain.rs. `check_entry` is one turn of the loop of
--     `LedgerChain::verify`.
--   Store/Database: the transactions of crates/workflow-store/src/lib.rs. Store/Contract: what the
--     store relies on of SQLite. Store/Workflows: workflows.rs there; `transaction` runs the body on a
--     session, of which only a commit changes the contents that are kept. Store/Leases: leases.rs there.
--   Daemon/Queue, Daemon/Classes: crates/workflowd/src/scheduler/queue.rs and classes.rs.
--   Daemon/Admission: crates/workflowd/src/resources/policy.rs.
--   Tests: runs on small inputs, and the theorems at them.
-- The task file shares the error type of the workflow; the verdicts use its repair targets
-- and the records of requests hold digests. Goals own a request. A plan is accepted when the graph of
-- its tasks is; the store applies the commands of Core/Workflow to what it has read.
--
-- Conventions. A number of w bits is a natural number, with its overflow written out where the
-- source checks or saturates; an `i64` is an integer, with its range checked where the source does.
-- UUIDs and timestamps that are only kept and compared are numbers. A `BTreeSet` is the list of its
-- elements in order; a `BTreeMap` whose order is never read is an association list.
--
-- Parameters: serde_json in Ipc/Frame and Ledger/Chain (`Json`, `Hashing`), SHA-256 in Ledger/Chain,
-- with the hypothesis, where one is needed, that a digest has 32 bytes; the type of CPU percentages
-- and its comparison in Daemon/Admission. In Store, each SQL statement is a field of `Database` and
-- serde_json a `Serde`; `IsSql` states what SQLite does when a statement succeeds, over a view of its
-- rows, and `IsSerde` that what was written is read back; `LeaseDatabase` and `IsLeaseSql` are the
-- same for leases. Any statement may fail. Tests/Tables, Tests/Codes and Tests/Grants fill them.
--
-- Bounds and fuel. `feed` gets the length of its input as fuel, since each turn takes a byte; with
-- that fuel it never runs out. `pop` has one round for each project of the rotation, as the source
-- has. `depends_on` gets one unit for its first task and one for each dependency of the graph, since
-- each node pushes its dependencies once; `sort` gets the number of nodes, since each is placed once;
-- neither runs out. All other loops recurse on a list.
--
-- Not modelled: the engine of SQLite and the other tables of the store, sockets and pipes, processes,
-- Git, the parsers of the code index, the memory, the plugin in TypeScript; in workflow-core the hash
-- functions, identifiers and dates, which third-party crates compute, and for now receipts.
pub mod Prelude
pub mod Core
pub mod Ipc
pub mod Ledger
pub mod Store
pub mod Daemon
pub mod Tests
