-- ===== src/Lib.antt =====
-- A model of ModelSentry, a daemon that watches language models for drift, and what is proved of it.
--
-- The daemon sends the prompts of a probe to a provider, embeds the answers, tests their embeddings
-- against those of a baseline, and alerts when the test rejects. The parts, from the bottom up:
--
--   Common (crates/common/src/error.rs, models.rs, types.rs, constants.rs): the domain models as
--     records and data types, the error type and its result monad. An identifier is a number. An
--     instant or a duration is a signed count of nanoseconds, with no bound on the calendar.
--   Float: the operations of f32 and f64 as a record `Floats`, the laws of IEEE 754 that are used as
--     `FloatsLaws`, and fixed-point numbers as a concrete instance that satisfies them. Definitions
--     take the operations as a parameter; theorems that need a law say so. The bound of the budget in
--     Job.Windowed is proved of the fixed-point instance, where sums and differences do not round; in
--     f64 a sum may exceed the budget by the error of rounding.
--   Drift (crates/core/src/drift): Embedding (mod.rs); Rng, Shuffle, Kernel and TwoSample
--     (twosample.rs: SplitMix64 with its 64-bit wrap, Fisher-Yates, sq_dist, gram_matrix,
--     statistic_from_gram, permutation_nulls, two_sample_test); Scores and Assessment (assessment.rs:
--     prompt_score, stratified_permutation_p, severity_from_p, assess); Interpret (interpret.rs, as
--     sentences with their values); Calculator (calculator.rs, compute).
--   Alert (crates/core/src/alert.rs): AlertEngine with evaluate_and_fire, effective_alpha and
--     in_cooldown; Target and Address hold validate_target and is_disallowed_ip. Deliveries are a
--     trace. URL parsing and name resolution are the record `Network`.
--   Provider (crates/core/src/provider): the trait and what the adapters share (mod.rs); Chat, OpenAi
--     and Azure (openai.rs, azure.rs), Anthropic (anthropic.rs) and Ollama (ollama.rs), as the requests
--     they build and the reading of the answers. Factory is build_provider
--     (crates/daemon/src/provider_factory.rs). What answers a request is a parameter.
--   Runner (crates/core/src/probe_runner.rs): run, run_completions_only and classify_status over the
--     answers of a provider, the record `Calls`.
--   Store (crates/store/src): Ledger (spend_store.rs), Alerts (alert_store.rs), Runs (run_store.rs),
--     Probes (probe_store.rs, schedule_store.rs), Snapshots (baseline_store.rs) and App (lib.rs, the
--     cascade that deletes a probe) as operations on tables. A table holds the written values:
--     serialization and transactions are the libraries'.
--   Vault (crates/daemon/src/vault.rs): the encrypted file of the API keys and its replacement through
--     a temporary file, over the record `Codec`; the calls of the file system may fail.
--   Scheduler (crates/daemon/src/scheduler.rs): reconcile, shutdown, validate_schedule and
--     next_run_after, over a cron library, the record `Cron`; Job is run_probe_job, which joins the
--     calculator, the alert engine and the stores, whose failures are its record `Faults`. Fleet is
--     run_probe_loop for all probes side by side, with the semaphore of the runs, as a step relation.
--   Server (crates/daemon/src/server.rs): auth_middleware, token_matches, and where build_router puts
--     them. Routes (crates/daemon/src/routes): the handlers, as functions of the tables and of the
--     failures of the calls of the store, which answer a body or an error.
--     Routes.Router is the table of the routes.
--   Daemon (crates/daemon/src/main.rs): main, up to the running scheduler and server, with the mailer
--     of Email (crates/core/src/email.rs, from_config and send) over the record `MailLibrary`.
--   Cli (crates/cli/src): the commands, the requests that they send (Cli itself: the text of the URL,
--     in which an argument stands as it is, and no key), and what Probe, Baseline and Alert print of
--     the answers. Routed follows a request through the guard and the router of the daemon; what the
--     libraries read in a URL is a parameter.
--   Baselines (crates/daemon/src/routes/baselines.rs): capture_baseline, which folds runs into clouds.
--   Config (crates/common/src/config.rs): the sections, their defaults, validate and
--     security_warnings.
--   Base holds the shared lists, Boolean tests, integers, texts, maps, tables and loops; Tests the
--     concrete runs.
--
-- State is passed explicitly: each operation returns the new record. Errors are values of `Result`,
-- and an index out of bounds, where the source would panic, is a result of its own. All loops are
-- structural: over lists, over a count of rounds (permutations, samples) or over a range, so no
-- definition runs out of fuel. Numbers of the source's usize type are unbounded naturals.
--
-- Not modelled: the decoding of the configuration, the limits of the web framework and the signals of
-- the daemon, the parsing of the command line and the web interface, which are input and output over
-- libraries. Prompts of a run share no state, so their interleaving is not modelled. In Fleet a step
-- reads the clock once. The formatting of messages is left to their templates, and the text of an
-- error of a library stands for itself.
pub mod Base
pub mod Common
pub mod Float
pub mod Drift
pub mod Alert
pub mod Vault
pub mod Provider
pub mod Runner
pub mod Scheduler
pub mod Store
pub mod Job
pub mod Server
pub mod Routes
pub mod Cli
pub mod Email
pub mod Daemon
pub mod Baselines
pub mod Config
pub mod Tests
