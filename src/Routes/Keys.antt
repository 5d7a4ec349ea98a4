-- ===== src/Routes/Keys.antt =====
-- The endpoints of the keys of the vault (crates/daemon/src/routes/vault.rs). `shown` is the text of
-- an error of the vault, which the endpoints wrap in another one.
pub mod Upsert
use modelsentry.Vault
use Prim.Native.String.{◌++◌ as append_str, String}
use modelsentry.Base.{[], List, if◌then◌else◌, Bool, ◌∷◌}
use modelsentry.Common.Error.{ok, err, ModelSentryError, Result}
use modelsentry.Vault.{Codec, Vault, Files, DiskFaults, vault_error}
use modelsentry.Base.Text.{is_blank_trimmed, concat}
use modelsentry.Provider.{config_error}

pub record UpsertKeyRequest : Type 0 where
  pub key : String

pub record UpsertKeyResponse : Type 0 where
  pub provider : String
  pub status : String

module _ (shown : ModelSentryError → String) {B : Type 0} (c : Codec B) (v : Vault) where
  abbrev pub or_vault : {A : Type 0} → Result A → Result A
  or_vault (err e) = err (vault_error (shown e))
  or_vault (ok a) = ok a

  unfoldable pub list_keys : Files B → Result (List String)
  list_keys files = or_vault (Vault.list_providers c v files)

  abbrev pub stored : String → Files B × Result (Unit {0}) → Files B × Result UpsertKeyResponse
  stored p (files, err e) = (files, err (vault_error (shown e)))
  stored p (files, ok u) = (files, ok (record { provider = p; status = "stored" }))

  unfoldable pub upsert_key :
      DiskFaults B → Files B → String → UpsertKeyRequest → Files B × Result UpsertKeyResponse
  upsert_key faults files p body =
      if is_blank_trimmed body.key
      then (files, err (config_error "key must not be empty"))
      else stored p (Vault.set_key c v faults files p (record { secret = body.key }))

  abbrev pub removed_or : String → Files B × Result Bool → Files B × Result (Unit {0})
  removed_or p (files, err e) = (files, err (vault_error (shown e)))
  removed_or p (files, ok removed) = (
    files,
    if removed
        then ok tt
        else err (config_error (concat ("no key found for provider '" ∷ p ∷ "'" ∷ []))),
  )

  unfoldable pub delete_key : DiskFaults B → Files B → String → Files B × Result (Unit {0})
  delete_key faults files p = removed_or p (Vault.delete_key c v faults files p)
