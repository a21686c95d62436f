-- ===== src/Lib.antt =====
-- Vasal, an agent that runs tasks for a controller: what its code guarantees.
--
-- The program. The agent receives tasks and chains of tasks (crates/vasal-protocol), runs each
-- by /bin/sh or hands it to a sidecar process over a Unix socket (crates/vasal-core/src/task),
-- keeps a journal, the units and an audit log in SQLite (state.rs), and forwards the audit log in
-- batches (audit.rs). A sidecar is written with crates/vasal-sidecar-sdk: a server that answers
-- JSON-RPC requests in length-prefixed frames.
--
-- The files.
-- Prelude: shared names, Boolean tests, lists measured by native numbers, text and integers.
-- Protocol: the message types of crates/vasal-protocol/src, a module for each of its files. A JSON
-- value is a parameter V, and what serde derives is a parameter too.
-- Codec: crates/vasal-sidecar-sdk/src/codec.rs, decode and encode over byte lists; Frames holds what
-- is shown of one frame.
-- Server: server.rs and handler.rs of the same crate, one connection from the frame that arrives to
-- the frame that is sent. A handler is a record of functions over its own state.
-- Host: what the agent runs on. Env holds the operating system, tokio, reqwest, SQLite's refusals and
-- serde_json as parameters. An answer of the outside is a function of the trace, the list of what
-- the agent did. Act, Attempt and Run are the actions that return, that may fail (crate::Result)
-- and that may use up the fuel of their loops. Files is the file system, System what installs and
-- upgrades need beside Env: std::fs, where any operation may be refused and a refused write may be
-- torn, downloads, digests and programs. Hoare has the lemmas on what such actions keep and ensure.
-- Store: crates/vasal-core/src/state.rs. Sql is what each statement does to the tables, Store the
-- methods of StateStore, each of which SQLite may refuse.
-- Audit: crates/vasal-core/src/audit.rs, record (here record_event) and flush_once; Forwarder is
-- run_forwarder.
-- Exec: crates/vasal-core/src/task and credential.rs. Call is call_raw, Credentials is
-- credential.rs, Outcome is make_result, Shell, Sidecar and Chain are the executors of the same
-- name, Router is execute_oneshot. run_once is the match on the executor that execute_oneshot, the
-- steps and the rollbacks share. Trace has the relation of traces that every part below the chain
-- executor keeps to.
-- Chain.Runs and Chain.Undone are relations of what a chain runs, to which its execution is held.
-- Continuous is continuous.rs, Route is execute_exec and route_task.
-- Manager: crates/vasal-core/src/task/mod.rs. TaskManager is the state that the spawned tasks share,
-- Step the relation of all that may happen next between two awaits, in any order; Report is what a
-- spawned task does with its results.
-- SelfUpgrade: crates/vasal-core/src/self_upgrade.rs.
-- Units: crates/vasal-core/src/unit, with Install, Upgrade and Health for its files.
-- Config: crates/vasal-core/src/config.rs, Defaults its defaults.
-- Auth: crates/vasal-core/src/auth.rs. A TokenStore is what its lock holds.
-- Transport: crates/vasal-core/src/transport, with Poll and Grpc; Wire is HTTP, tonic and serde.
-- Heartbeat: crates/vasal-core/src/heartbeat.rs.
-- Agent: the reload, the choice of the transport and the results of crates/vasal-core/src/main.rs;
-- Loop is its main loop, over the arms in the order in which they become ready.
-- Sidecars: sidecars/echo-ctrl and sidecars/sql-ctrl as handlers of Server, and the arguments of
-- sidecars/ebpf-observer.
-- Examples: a host, a store and a wire to run the definitions on.
--
-- Waiting. The code waits for the reply of a sidecar, and for the end of the output of a child, without
-- a limit. Reply.never_answered and ChildEnd.left_open are these outcomes; an execution that meets one
-- is none, as is one whose fuel is used up. Exec.Trace.Answers says of a host that it has neither.
--
-- Fuel. poll_until_complete runs for at most timeout_ms / 100 + 3 rounds: the first does not sleep and
-- each later one sleeps 100 ms or more, so the timeout is reached before they are used up. probe_sidecar
-- runs for at most 2 * timeout_sec + 1 rounds, each of which sleeps half a second. The loops that end
-- with the agent (continuous tasks, heartbeats, health checks, the audit forwarder) take their fuel
-- as an argument.
--
-- Numbers are natural numbers. A cast that wraps around is written out (% 2 ^ w). Row ids and the
-- times of audit events are not negative.
--
-- Not modelled: directories, the parsing of TOML and JSON, metrics.rs and telemetry.rs, the start-up
-- of main.rs, a recv_tasks that another arm of its loop interrupts, the eBPF observer, and the values
-- of rusqlite. The accept loop of the sidecar server and the opening of the database are
-- calls of tokio and rusqlite.
pub mod Prelude
pub mod Protocol
pub mod Codec
pub mod Host
pub mod Store
pub mod SelfUpgrade
pub mod Config
pub mod Units
pub mod Transport
pub mod Heartbeat
pub mod Sidecars
pub mod Agent
pub mod Auth
pub mod Server
pub mod Audit
pub mod Exec
pub mod Manager
pub mod Examples
