-- ===== src/Lib.antt =====
-- The verification library of ozint, the investigation engine under crates/ozint.
--
-- An analyst fires a layer on a node of the tree. The engine (crates/ozint/src/runtime.rs) resolves
-- the tools of the node's type in the registry, walks the phases of a plan, runs each tool behind
-- the circuit breakers and the quota scheduler, turns what it yields into children, sections and
-- facts for later phases, reports every tool, and settles on a verdict that ends the stream.
--
-- Files and the code they model:
--   Base          shared names, Boolean tests, lists, association maps
--   Outcome       crates/ozint/src/outcome.rs: outcomes, reports, `settle_kind`
--   Health        crates/ozint/src/health.rs: `check` and `record` (here `record_outcome`)
--   LayerPlan     crates/ozint/src/layer_plan.rs: phases, predicates, the accumulator, the hand-off
--   Types         crates/ozint/src/types.rs: the parts of the tree that the engine reads and writes
--   Types/Payloads, Defaults, Views: every payload, its default, and the node as the derived views
--                 read it
--   Scheduler     crates/ozint/src/scheduler.rs: `register` and `try_reserve_at`
--   Visited       crates/ozint/src/visited.rs: the dedup set (`insert` is `insert_new` here)
--   Registry      crates/ozint/src/registry.rs: `find`, `resolve` and their helpers
--   Store         crates/ozint/src/store.rs: the node table under the operations a layer uses
--   Store/Edits   the analyst's edits, rejections and restorations in store.rs
--   Freeze        crates/ozint-core/src/safety/freeze.rs: the freeze record and its file
--   Signal        crates/ozint/src/signal.rs: the chip of each payload and its tone
--   Relations     crates/ozint/src/relations.rs: the rules, the merge of their cards, `coerce_relation`
--   SubjectFile   crates/ozint/src/subject_file.rs: contributions, items, `build`
--   Refresh       crates/ozint/src/refresh.rs: the chain, the diff, `refresh_node`
--   Fetch         crates/ozint/src/fetch.rs: what a request comes to, `fetch_raw`, `fold_fetch_failure`
--   Cache         crates/ozint/src/cache.rs: `peek`, `get_or_fetch`
--   Runtime       crates/ozint/src/runtime.rs: frames, reports of tools that do not run, merges
--   Runtime/Tree    `emit_child` and `persist_parent_payload`
--   Runtime/Layer   the state of a layer and what one tool's answer does to it
--   Runtime/Engine  the tool loop, the phase loop, the sweep, the reconciliation, the settlement
--   Runtime/Replay  `split_subtree`
--   Runtime/Fire    `fire_layer` as a whole
--   Runtime/View, Phases, Invariant, Yield: the loops as relations and the rules for invariants
--   Runtime/Frames, Ending, Reported, Accounts, Settlement, Dedup, Merge, Inputs: what is proved
--                 of them
--   Examples      the theorems at concrete inputs
--
-- State is passed explicitly. The state of a layer is the record `Layer`: the reports, the
-- accumulator, the counters and flags of `fire_layer`, the breakers, the tree (visited set, node
-- table, uuids taken) and the frames sent so far, in order. What the world answers while a layer
-- runs is a sequence of turns, one for each tool visited: the cancel signal, the clock, the
-- scheduler's refusal, what the dispatch returned, and a failed insert. The breakers are an
-- interface, `Breakers`, which `sound_breakers` fills with those of Health on tables where `check`
-- cannot panic. Instants are milliseconds since the epoch; the `u32` counters of a layer wrap where
-- they are incremented. The attempts of a request do not: they are at most one more than its retries,
-- which are below the largest `u32`.
--
-- The derived views (relations.rs, subject_file.rs) are functions of a list of nodes, and a chip is a
-- function of a payload. Texts are the native `String`, and Base/Text has the operations of Rust's
-- `str` that the code calls; a `BTreeMap` that collects vectors is Base/Groups, a stable sort is
-- Base/Sorting. `corroborate` returns an option, whose `none` is the panic of its `expect`.
--
-- A refresh is a function of what the world answers at each position of the chain or of the tiles, and
-- its two writes to the database are fields of the result. A caller of the cache runs by steps, one
-- between each two awaits, over a shared table of cells, where a number stands for an `Arc`; one that
-- waits takes `follow` when the fetch of the other has ended.
--
-- Fuel: `run_phases` takes one unit for each round; the length of the plan and one more are enough,
-- since each round moves the phase index on. `walk` takes one unit for each id it pops; the number
-- of stored nodes and two more are enough, since each group of children is taken at most once.
-- `attempts_from` takes one unit for each attempt; the retries and one more are enough.
-- `decimal` takes one unit for each digit; a number has at most as many digits as itself and one.
--
-- Parameters: serde and the disk under the freeze record; the catalogue of tools and the
-- environment (data); `normalize` and serde's reading of a payload (`Codec`); uuids; the rows that
-- SQLite lists; `f64` and Unicode's `to_lowercase` under the chips; the matches of the two regular
-- expressions, `classify` and `dedup_key` under the derived views; serde and the canonical form of one
-- JSON value under a refresh, serde under the cache; what the network answers each attempt, and the guard's
-- verdict on a link. Not modelled: rate limits with a window of 0 ms, on which the source panics, the chips that the engine stores, the rows of layers and billing,
-- the summary task, HTTP, the tools' parsers, the server's routes and the web client. Facts are
-- natural numbers where the source has `f64`: the one fact that a tool posts is a count of engines.
pub mod Base
pub mod Outcome
pub mod Health
pub mod LayerPlan
pub mod Types
pub mod Scheduler
pub mod Visited
pub mod Registry
pub mod Store
pub mod Freeze
pub mod Signal
pub mod Relations
pub mod SubjectFile
pub mod Refresh
pub mod Fetch
pub mod Cache
pub mod Runtime
pub mod Examples
