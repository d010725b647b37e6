-- ===== src/Lib.antt =====
-- The engine of qlabs-catalog-sync: one-way synchronisation of catalog metadata from a source
-- endpoint to a target endpoint. Paths are from the repository's root; P stands for
-- packages/qlabs-catalog-sync/src/qlabs_catalog_sync and S for
-- packages/qlabs-catalog-sync-sdk/src/qlabs_catalog_sync_sdk.
--
-- A cycle of a pair (SyncLoop.run_cycle) lists the changes of the source page by page. Each change
-- is selected or filtered by the pair's ordered rules (Selection, SourceTree), read at the source,
-- compared field by field with what the store knows of the target (Envelope, Diff, Manifest), and
-- written at the target, less what policy withholds. What is to be remembered is collected and
-- committed in one transaction of the store (State), together with the watermark.
--
-- Selection   P/selection/rules.py, P/selection/evaluator.py: Pattern, Candidate, Matcher, RuleSet
--             and Evaluate are the code; Glob is fnmatch as the matchers use it; the other modules
--             are proofs.
-- SourceTree  P/selection/source_tree.py: candidate_for_change, select_dataset_change; Parent
--             and Total are proofs.
-- PairPatterns  P/config.py: matches_catalog_schema and SyncPairConfig.matches.
-- Models, Manifest, Envelope, Changes  S/models.py, S/manifest.py, S/envelope.py, S/contract.py;
--             Changes/Valid is what the contract's models accept and the order of watermarks.
-- Diff        P/diff.py: compute_field_diff and DiffPlan.
-- State       P/state/models.py, P/state/store.py: Rows are the tables, UnitOfWork the writes,
--             Queries the reads.
-- Sync        P/sync/loop.py, P/sync/policy.py: Settings and Cycle are the state, Calls is _call,
--             Pending the mutations and the commit, Writes the path of an update, Records and
--             Process one change, Run the cycle. Keeps and Effects follow a relation of cycles
--             through all of them.
-- Health      P/observability.py: HealthRegistry and the status code of /healthz.
-- Scheduler   P/scheduler.py: Types is the state, Fires how a fire begins and ends, Body what it
--             runs, Jobs the constructor, start and the job set, Reconcile the pass over the
--             configuration; the other modules are proofs.
-- Orphans     P/sync/orphans.py: Digest is the policy and the digest, Checks the reads, Pass the
--             report and the commit; the other modules are proofs.
-- Activation  P/sync/status.py: decide_activation and reconcile_activation; Gates is a proof.
-- Tests       witnesses and runs.
--
-- State is passed explicitly. A Cycle holds the store, the pending mutations and the history of
-- the connectors' calls; a connector is any function from the calls before to an answer, so the
-- theorems hold for endpoints that change or fail at any moment. An exception is a value, and what
-- was done before it stays done. Loops are structural: the pages by max_pages, the retries by
-- retry_attempts, both bounds of the source itself.
--
-- Instants and UUIDs are numbers, and the clock and uuid4 are functions of how often they were
-- asked. str.casefold, pydantic's model_dump_json and model_validate_json are parameters. The rule
-- name f"{prefix}-{index}" is a function of the index, injective where that matters. A negative
-- ordinal cannot be written. fnmatch's treatment of a descending range directly before `!` is not
-- reproduced. Checksums are given, not computed. A stored watermark row holds its token only.
-- The scheduler's job set is the log of its add_job and remove_job calls. A pass takes, for each
-- of its awaits, the list of what happens meanwhile: fires begin, end or are cancelled, shutdown
-- of the started scheduler is called. The body of a fire is modelled apart from them, over the
-- recorder and the runner: each call returns, raises or is cancelled. A start that does not return
-- is taken to leave no row, and a closing write that does not return to leave its run RUNNING.
-- What RunRecorder.reap_stale closes at the next start is not modelled. Passes do not overlap,
-- since the reconcile job has max_instances=1 and is the only caller. Jitter is counted in
-- milliseconds and its fraction in thousandths; the reason texts are parameters; a repeated pair
-- name is refused with one such name; start is called once.
-- A pass over orphans is given the store as it finds it and as other tasks have left it by its
-- commit. The texts of advice are parameters, and a headline is the numbers that it names.
-- Not modelled: explanations, logs, metrics, a cycle's health marks, retry delays, SQL, threads,
-- the connectors, the scheduler's configuration source and the wait of its shutdown, APScheduler, the
-- configuration store, the HTTP API, the command line and the console.

pub mod Prelude
pub mod Selection
pub mod Orphans
pub mod Activation
pub mod PairPatterns
pub mod Models
pub mod Manifest
pub mod Envelope
pub mod Diff
pub mod State
pub mod Changes
pub mod SourceTree
pub mod Sync
pub mod Health
pub mod Scheduler
pub mod Tests
