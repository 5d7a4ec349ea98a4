-- ===== src/Vault.antt =====
-- The vault of the API keys (crates/daemon/src/vault.rs). The encryption and the JSON encoding are the
-- libraries', the record `Codec` over a type `B` of file contents. `Files` holds the vault file and the
-- temporary file beside it; `DiskFaults` tells which calls of the file system fail. The lock of the
-- writers makes every operation one step.
pub mod Laws
pub mod Atomic
use Prim.Native.Nat.{Ordering}
use Prim.Native.String.{compare}
use text.Mathlib.Text.{◌==◌ as str_eq}
use text.Mathlib.TextEquality.{eq_iff}
use modelsentry.Base.{
  ◌≡◌, Bool, true, false, List, [], ◌∷◌, Option, none, some, String, if◌then◌else◌,
}
use modelsentry.Base.Assoc.{Keys, Assoc, get, remove}
use modelsentry.Base.Table.{put, keys, is_some}
use modelsentry.Common.Error.{ModelSentryError, Result, ok, err, ◌>>=◌, says}
use modelsentry.Common.Models.{ApiKey}
use modelsentry.Provider.{Attempt, failed, done}

abbrev pub text_keys : Keys String
text_keys = record { same = λ s t. str_eq s t; same_iff = eq_iff }

abbrev pub text_less : String → String → Bool
text_less s t = elim (compare s t) [ Ordering.lt ↦ true | _ ↦ false ]

abbrev pub Secrets : Type 0
Secrets = Assoc String String

pub record Codec (B : Type 0) : Type 0 where
  pub to_vec : Secrets → Attempt B
  pub from_slice : B → Attempt Secrets
  pub encrypt : String → B → Attempt B
  pub decrypt : String → B → Attempt B

-- What is read back is what was written.
pub record CodecLaws {B : Type 0} (c : Codec B) : Type 0 where
  pub from_slice-to_vec : (m : Secrets) (b : B) → c.to_vec m ≡ done b → c.from_slice b ≡ done m
  pub decrypt-encrypt :
      (passphrase : String) (b e : B)
      → c.encrypt passphrase b ≡ done e
      → c.decrypt passphrase e ≡ done b

pub record Files (B : Type 0) : Type 0 where
  pub vault : Option B
  pub temp : Option B

-- A failed write of the temporary file leaves some content in it.
pub record DiskFaults (B : Type 0) : Type 0 where
  pub write : Option (String × Option B)
  pub rename : Option String

pub record Vault : Type 0 where
  pub passphrase : String

abbrev pub vault_error : String → ModelSentryError
vault_error text = ModelSentryError.vault (says text)

-- `map_err` into an error of the vault.
abbrev pub or_vault_error : {A : Type 0} → Attempt A → Result A
or_vault_error (failed e) = err (vault_error e)
or_vault_error (done a) = ok a

module _ {B : Type 0} where
  abbrev pub read_file : Option B → Attempt B
  read_file none = failed "cannot read vault file"
  read_file (some b) = done b

  abbrev pub write_temp : Option (String × Option B) → B → Files B → Files B × Result (Unit {0})
  write_temp none b files = (record files { temp = some b }, ok tt)
  write_temp (some (e, left)) b files = (record files { temp = left }, err (vault_error e))

  abbrev pub rename_temp : Option String → Files B → Files B × Result (Unit {0})
  rename_temp none files = (record { vault = files.temp; temp = none }, ok tt)
  rename_temp (some e) files = (files, err (vault_error e))

  -- The rename follows a write that worked.
  abbrev pub commit : Option String → Files B × Result (Unit {0}) → Files B × Result (Unit {0})
  commit fault (files, err e) = (files, err e)
  commit fault (files, ok u) = rename_temp fault files

  abbrev pub replace_file : DiskFaults B → Files B → Result B → Files B × Result (Unit {0})
  replace_file faults files (err e) = (files, err e)
  replace_file faults files (ok ciphertext) =
      commit faults.rename (write_temp faults.write ciphertext files)

module _ {B : Type 0} (c : Codec B) (v : Vault) where
  unfoldable pub decrypt_vault : Files B → Result Secrets
  decrypt_vault files = do
    ciphertext ← or_vault_error (read_file files.vault)
    plaintext ← or_vault_error (c.decrypt v.passphrase ciphertext)
    or_vault_error (c.from_slice plaintext)

  abbrev pub encrypted : Secrets → Result B
  encrypted secrets = do
    plaintext ← or_vault_error (c.to_vec secrets)
    or_vault_error (c.encrypt v.passphrase plaintext)

  unfoldable pub encrypt_and_write : DiskFaults B → Files B → Secrets → Files B × Result (Unit {0})
  encrypt_and_write faults files secrets = replace_file faults files (encrypted secrets)

  abbrev pub key_of : Option String → Option ApiKey
  key_of none = none
  key_of (some secret) = some (record { secret = secret })

  unfoldable pub get_key : Files B → String → Result (Option ApiKey)
  get_key files provider_id = do
    secrets ← decrypt_vault files
    ok (key_of (get text_keys secrets provider_id))

  abbrev pub set_in :
      DiskFaults B → Files B → String → ApiKey → Result Secrets → Files B × Result (Unit {0})
  set_in faults files provider_id key (err e) = (files, err e)
  set_in faults files provider_id key (ok secrets) =
      encrypt_and_write faults files (put text_keys text_less secrets provider_id key.secret)

  unfoldable pub set_key : DiskFaults B → Files B → String → ApiKey → Files B × Result (Unit {0})
  set_key faults files provider_id key = set_in faults files provider_id key (decrypt_vault files)

  -- `true` once the rewritten map is in place.
  abbrev pub removed : Files B × Result (Unit {0}) → Files B × Result Bool
  removed (files, err e) = (files, err e)
  removed (files, ok u) = (files, ok true)

  abbrev pub delete_in : DiskFaults B → Files B → String → Result Secrets → Files B × Result Bool
  delete_in faults files provider_id (err e) = (files, err e)
  delete_in faults files provider_id (ok secrets) =
      if is_some (get text_keys secrets provider_id)
      then removed (encrypt_and_write faults files (remove text_keys secrets provider_id))
      else (files, ok false)

  unfoldable pub delete_key : DiskFaults B → Files B → String → Files B × Result Bool
  delete_key faults files provider_id = delete_in faults files provider_id (decrypt_vault files)

  unfoldable pub list_providers : Files B → Result (List String)
  list_providers files = do secrets ← decrypt_vault files; ok (keys secrets)

module _ {B : Type 0} (c : Codec B) where
  unfoldable pub open_vault : Files B → String → Result Vault
  open_vault files passphrase = do
    secrets ← decrypt_vault c (record { passphrase = passphrase }) files
    ok (record { passphrase = passphrase })

  unfoldable pub create : DiskFaults B → Files B → String → Files B × Result (Unit {0})
  create faults files passphrase =
      encrypt_and_write c (record { passphrase = passphrase }) faults files []
