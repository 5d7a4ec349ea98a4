-- ===== src/Routes/Keys/Upsert.antt =====
-- What a stored key leads to (crates/daemon/src/routes/vault.rs).
use modelsentry.Vault.{get_key, CodecLaws, set_key}
use modelsentry.Routes.Keys.{
  upsert_key, stored, Codec, Vault, Files, DiskFaults, UpsertKeyRequest, UpsertKeyResponse,
  is_blank_trimmed,
}
use modelsentry.Base.{refl, inl, inr, false, some, String, Bool-cases, ◌≡◌, if◌then◌else◌, ap}
use modelsentry.Common.Error.{ok, err, ModelSentryError, Result}
use text.Mathlib.Text.{◌==◌ as str_eq}
use modelsentry.Vault.Atomic.{set_key_atomic}
use modelsentry.Vault.Laws.{get_key-set_key}

module _ (shown : ModelSentryError → String) {B : Type 0} (c : Codec B) (laws : CodecLaws c)
    (v : Vault) where
  -- What an answer says of the files, for the key of one provider `q`.
  abbrev pub IsUpserted :
      Files B → String → UpsertKeyRequest → String → Files B × Result UpsertKeyResponse → Type 0
  IsUpserted files p body q (after, err e) = after.vault ≡ files.vault
  IsUpserted files p body q (after, ok response) =
      (is_blank_trimmed body.key ≡ false)
      × (response.provider ≡ p)
      × (get_key c v after q
          ≡ (if str_eq p q then ok (some (record { secret = body.key })) else get_key c v files q))

  stored-IsUpserted :
      (faults : DiskFaults B) (files : Files B) (p q : String) (body : UpsertKeyRequest)
      (out : Files B × Result (Unit {0}))
      → is_blank_trimmed body.key ≡ false
      → set_key c v faults files p (record { secret = body.key }) ≡ out
      → IsUpserted files p body q (stored shown c v p out)
  stored-IsUpserted faults files p q body (after, err e) b h =
      elim (set_key_atomic c laws v faults files p (record { secret = body.key })) [
        | inl w ↦ rw h at (w.2)
        | inr (m, old, done', new) ↦ absurd (cc (h, done'))
      ]
  stored-IsUpserted faults files p q body (after, ok u) b h = (
    b,
    refl,
    rw h at (
        get_key-set_key c laws v faults files p q (record { secret = body.key }) (ap (λ o. o.1) h)),
  )

  -- A request to store a key that is refused or fails leaves the vault file as it was. One that is
  -- answered with `stored` had a key that is not blank, and stores it exactly as it was sent: it is
  -- found under its provider, and the key of any other provider is the one found before.
  pub upsert_key-IsUpserted :
      (faults : DiskFaults B) (files : Files B) (p q : String) (body : UpsertKeyRequest)
      → IsUpserted files p body q (upsert_key shown c v faults files p body)
  unfolding upsert_key
  upsert_key-IsUpserted faults files p q body = elim (Bool-cases (is_blank_trimmed body.key)) [
    | inl t ↦ rw t refl
    | inr t ↦ rw t (stored-IsUpserted faults files p q body _ t refl)
  ]
