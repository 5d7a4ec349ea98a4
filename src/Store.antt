-- ===== src/Store.antt =====
-- The typed stores (crates/store/src). A table of the embedded database is a list of the values that
-- are written to it: their serialization and the transactions are the libraries'. A
-- failing transaction changes nothing; Job, App and Routes model such failures as parameters.
pub mod Ledger
pub mod Alerts
pub mod Runs
pub mod Probes
pub mod Snapshots
pub mod App
