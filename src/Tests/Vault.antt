-- ===== src/Tests/Vault.antt =====
-- Tests of the vault (crates/daemon/src/vault.rs), over files that are terms.
use modelsentry.Base.{◌∷◌, [], refl, true, none, some, String, ◌≡◌, ◌⊎◌, if◌then◌else◌}
use modelsentry.Vault.{
  Vault, get_key, set_key, delete_key, decrypt_vault, Secrets, Codec, CodecLaws, Files, DiskFaults,
  encrypt_and_write, text_keys, text_less,
}
use modelsentry.Common.Error.{ok, err, ModelSentryError}
use modelsentry.Common.Models.{ApiKey}
use modelsentry.Routes.Keys.Upsert.{IsUpserted, upsert_key-IsUpserted}
use modelsentry.Provider.{done, failed}
use modelsentry.Routes.Keys.{upsert_key}
use mathlib.Core.Path.{subst}
use modelsentry.Vault.Laws.{get_key-set_key}
use text.Mathlib.Text.{◌==◌ as str_eq}
use modelsentry.Base.Table.{put}
use modelsentry.Vault.Atomic.{IsDeleted, delete_key_atomic, set_key_atomic}
use text.Mathlib.TextEquality.{eq_iff}

-- Encoded maps, and contents sealed with a passphrase.
pub data Content : Type 0 where
  plain : Secrets → Content
  sealed : String → Content → Content

abbrev pub codec : Codec Content
codec = record {
  to_vec = λ m. done (plain m);
  from_slice = λ b. elim b [ plain m ↦ done m | sealed p c ↦ failed "not a map" ];
  encrypt = λ passphrase b. done (sealed passphrase b);
  decrypt = λ passphrase b. elim b [
    | plain m ↦ failed "not sealed"
    | sealed p c ↦ if str_eq p passphrase then done c else failed "wrong passphrase"
  ];
}

pub codec_laws : CodecLaws codec
codec_laws = record {
  from_slice-to_vec = λ m b h.
      let same : plain m ≡ b = cc in subst (λ (x : Content). codec.from_slice x ≡ done m) same refl;
  decrypt-encrypt = λ passphrase b e h.
      let same : sealed passphrase b ≡ e = cc in
      let own : str_eq passphrase passphrase ≡ true = (eq_iff passphrase passphrase).1 refl in
      subst (λ (x : Content). codec.decrypt passphrase x ≡ done b) same (rw own refl);
}

abbrev pub vault : Vault
vault = record { passphrase = "correct horse" }

abbrev pub vault_files : Files Content
vault_files = record {
  vault = some (sealed "correct horse" (plain (("anthropic", "sk-a") ∷ ("openai", "sk-o") ∷ [])));
  temp = none;
}

abbrev pub no_faults : DiskFaults Content
no_faults = record { write = none; rename = none }

abbrev no_rename : DiskFaults Content
no_rename = record { write = none; rename = some "read-only file system" }

abbrev new_key : ApiKey
new_key = record { secret = "sk-new" }

-- The write of the new file works, but the rename does not.
set_key_atomic_example :
    ((e : ModelSentryError) × ((set_key codec vault no_rename vault_files "openai" new_key).1
        ≡ err e)
      × ((set_key codec vault no_rename vault_files "openai" new_key).0.vault ≡ vault_files.vault))
    ⊎ ((m : Secrets) × (decrypt_vault codec vault vault_files ≡ ok m)
        × ((set_key codec vault no_rename vault_files "openai" new_key).1 ≡ ok tt)
        × (decrypt_vault codec vault (set_key codec vault no_rename vault_files "openai" new_key).0
            ≡ ok (put text_keys text_less m "openai" new_key.secret)))
set_key_atomic_example =
    set_key_atomic codec codec_laws vault no_rename vault_files "openai" new_key

delete_key_atomic_example :
    ((e : ModelSentryError) × ((delete_key codec vault no_faults vault_files "openai").1 ≡ err e)
      × ((delete_key codec vault no_faults vault_files "openai").0.vault ≡ vault_files.vault))
    ⊎ ((m : Secrets) × (decrypt_vault codec vault vault_files ≡ ok m)
        × IsDeleted codec codec_laws vault vault_files m "openai"
            (delete_key codec vault no_faults vault_files "openai"))
delete_key_atomic_example = delete_key_atomic codec codec_laws vault no_faults vault_files "openai"

get_key-set_key_example :
    get_key codec vault (set_key codec vault no_faults vault_files "openai" new_key).0 "openai"
    ≡ ok (some new_key)
unfolding set_key decrypt_vault encrypt_and_write
get_key-set_key_example =
    get_key-set_key codec codec_laws vault no_faults vault_files "openai" "openai" new_key refl

abbrev shown : ModelSentryError → String
shown e = "vault error"

upsert_key-IsUpserted_example :
    IsUpserted shown codec codec_laws vault vault_files "openai"
      (record { key = "sk-new" })
      "anthropic"
      (upsert_key shown codec vault no_faults vault_files "openai" (record { key = "sk-new" }))
upsert_key-IsUpserted_example =
    upsert_key-IsUpserted shown codec codec_laws vault no_faults vault_files "openai" "anthropic"
      (record { key = "sk-new" })
