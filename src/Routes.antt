-- ===== src/Routes.antt =====
-- The handlers of the HTTP API (crates/daemon/src/routes). A handler takes the tables it reads or
-- writes and the failures of its calls of the store; its answer is the body of the response or an
-- error, which `into_response` turns into a status and a text. Identifiers in paths are parsed by the
-- UUID library, `parse_uuid`.
pub mod Probes
pub mod Baselines
pub mod Rules
pub mod Keys
pub mod Router
use modelsentry.Base.{ℕ, Bool, true, false, Option, none, some, String}
use modelsentry.Common.Error.{ModelSentryError, Result, ok, err, ok_or, says}
use modelsentry.Common.Models.{Uuid}

-- The text of an error response: that of the error, or one that tells nothing.
pub data ErrorText : Type 0 where
  told : ModelSentryError → ErrorText
  internal_server_error : ErrorText

unfoldable pub into_response : ModelSentryError → ℕ × ErrorText
into_response (ModelSentryError.probe_not_found id) =
    (404, told (ModelSentryError.probe_not_found id))
into_response (ModelSentryError.baseline_not_found id) =
    (404, told (ModelSentryError.baseline_not_found id))
into_response (ModelSentryError.config m) = (422, told (ModelSentryError.config m))
into_response (ModelSentryError.vault m) = (500, told (ModelSentryError.vault m))
into_response other = (500, internal_server_error)

module _ (parse_uuid : String → Option Uuid) where
  abbrev pub parse_probe_id : String → Result Uuid
  parse_probe_id s = ok_or (parse_uuid s) (ModelSentryError.probe_not_found s)

-- A call of the store that may fail before it does anything.
abbrev pub store_call : {A : Type 0} → Option ModelSentryError → A → Result A
store_call none a = ok a
store_call (some e) a = err e
