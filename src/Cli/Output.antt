-- ===== src/Cli/Output.antt =====
-- What the commands share: the answer of the daemon, and what is printed (crates/cli/src). The
-- formatting of values is the record `Format`.
use modelsentry.Base.{
  [], none, some, String, List, ℕ, Option, ◌++◌, Bool, if◌then◌else◌, leb, ◌&&◌, ltb,
}
use modelsentry.Provider.{Attempt, Reply, failed, done}
use modelsentry.Common.Models.{DriftLevel, RunStatus, Uuid, critical, high, low, medium, no_drift}
use modelsentry.Common.Time.{Time}

pub record Format (F : Type 0) : Type 0 where
  pub id : Uuid → String
  pub time : Time → String
  pub rfc3339 : Time → String
  pub count : ℕ → String
  -- With that many decimals.
  pub decimals : ℕ → F → String
  pub run_status : RunStatus → String

-- A line, or a table of rows.
pub data Printed : Type 0 where
  line : String → Printed
  table : List (List String) → Printed

pub data CliError : Type 0 where
  transport undecoded : String → CliError
  -- With the context that the command gives.
  refused : String → ℕ → CliError

-- What was printed, and the error that ended the command, if any.
pub record Output : Type 0 where
  pub printed : List Printed
  pub error : Option CliError

abbrev pub say : List Printed → Output
say lines = record { printed = lines; error = none }

abbrev pub and_then : List Printed → Output → Output
and_then before out = record out { printed = before ++ out.printed }

abbrev pub fail : CliError → Output
fail e = record { printed = []; error = some e }

-- `error_for_status`: the client and the server errors.
abbrev pub is_error_status : ℕ → Bool
is_error_status status = leb 400 status && ltb status 600

module _ {R : Type 0} where
  abbrev pub decoded : Attempt R → (R → Output) → Output
  decoded (failed e) next = fail (undecoded e)
  decoded (done r) next = next r

  -- A request whose answer is decoded.
  abbrev pub with_json : String → Attempt (Reply R) → (R → Output) → Output
  with_json context (failed e) next = fail (transport e)
  with_json context (done r) next =
      if is_error_status r.status then fail (refused context r.status) else decoded r.json next

  -- A request of which only the status counts.
  abbrev pub with_status : String → Attempt (Reply R) → Output → Output
  with_status context (failed e) next = fail (transport e)
  with_status context (done r) next =
      if is_error_status r.status then fail (refused context r.status) else next

abbrev pub drift_label : DriftLevel → String
drift_label no_drift = "none"
drift_label low = "low"
drift_label medium = "medium"
drift_label high = "HIGH"
drift_label critical = "CRITICAL"
