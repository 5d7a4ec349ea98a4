-- ===== src/Vault/Atomic.antt =====
-- What a write that fails leaves (crates/daemon/src/vault.rs).
use modelsentry.Base.{
  ◌≡◌, refl, ◌⊎◌, inl, inr, Option, none, some, String, Bool, false, true, if◌then◌else◌,
}
use modelsentry.Common.Error.{ModelSentryError, Result, ok, err, >>=-eq-ok, Result-cases}
use modelsentry.Provider.{Attempt, failed, done}
use modelsentry.Vault.{
  Secrets, Codec, CodecLaws, Files, DiskFaults, Vault, or_vault_error, write_temp, commit,
  decrypt_vault, encrypted, encrypt_and_write, ApiKey, set_key, get, delete_key, set_in, put,
  text_keys, text_less, remove, removed, is_some,
}

or_vault_error-ok : {A : Type 0} (x : Attempt A) {a : A} → or_vault_error x ≡ ok a → x ≡ done a
or_vault_error-ok (failed e) h = absurd (cc)
or_vault_error-ok (done b) h = cc

module _ {B : Type 0} (c : Codec B) (laws : CodecLaws c) (v : Vault) where
  decrypt-encrypted :
      (files : Files B) (m : Secrets) (b : B)
      → files.vault ≡ some b
      → encrypted c v m ≡ ok b
      → decrypt_vault c v files ≡ ok m
  unfolding decrypt_vault
  decrypt-encrypted files m b at h =
      let (p, e₁, e₂) = >>=-eq-ok (or_vault_error (c.to_vec m)) _ h in
      let d₁ = laws.from_slice-to_vec m p (or_vault_error-ok (c.to_vec m) e₁) in
      let d₂ =
        laws.decrypt-encrypt v.passphrase p b (or_vault_error-ok (c.encrypt v.passphrase p) e₂) in
      rw (at, d₂, d₁) refl

  -- The file is replaced by the new one, or stays as it was.
  abbrev pub Written : Files B → Secrets → Files B × Result (Unit {0}) → Type 0
  Written files m out =
      ((e : ModelSentryError) × (out.1 ≡ err e) × (out.0.vault ≡ files.vault))
      ⊎ ((out.1 ≡ ok tt) × (decrypt_vault c v out.0 ≡ ok m))

  commit-Written :
      (files : Files B) (m : Secrets) (b : B) (write : Option (String × Option B))
      (rename : Option String)
      → encrypted c v m ≡ ok b
      → Written files m (commit rename (write_temp write b files))
  commit-Written files m b (some (e, left)) rename h = inl (_, refl, refl)
  commit-Written files m b none (some e) h = inl (_, refl, refl)
  commit-Written files m b none none h =
      inr (refl, decrypt-encrypted (record { vault = some b; temp = none }) m b refl h)

  pub encrypt_and_write-Written :
      (faults : DiskFaults B) (files : Files B) (m : Secrets)
      → Written files m (encrypt_and_write c v faults files m)
  unfolding encrypt_and_write
  encrypt_and_write-Written faults files m = elim (Result-cases (encrypted c v m)) [
    | inl (b, h) ↦ rw h (commit-Written files m b faults.write faults.rename h)
    | inr (e, h) ↦ rw h (inl (e, refl, refl))
  ]

  set_in_atomic :
      (faults : DiskFaults B) (files : Files B) (p : String) (k : ApiKey) (old : Result Secrets)
      → ((e : ModelSentryError) × ((set_in c v faults files p k old).1 ≡ err e)
          × ((set_in c v faults files p k old).0.vault ≡ files.vault))
        ⊎ ((m : Secrets) × (old ≡ ok m)
            × ((set_in c v faults files p k old).1 ≡ ok tt)
            × (decrypt_vault c v (set_in c v faults files p k old).0
                ≡ ok (put text_keys text_less m p k.secret)))
  set_in_atomic faults files p k (err e) = inl (e, refl, refl)
  set_in_atomic faults files p k (ok m) =
      elim (encrypt_and_write-Written faults files (put text_keys text_less m p k.secret)) [
        | inl w ↦ inl w
        | inr w ↦ inr (m, refl, w.0, w.1)
      ]

  -- Whatever calls of the file system fail, a `set_key` that fails leaves the vault file as it was,
  -- and one that returns `Ok` leaves a vault that decrypts to the old keys with the new one put in.
  pub set_key_atomic :
      (faults : DiskFaults B) (files : Files B) (p : String) (k : ApiKey)
      → ((e : ModelSentryError) × ((set_key c v faults files p k).1 ≡ err e)
          × ((set_key c v faults files p k).0.vault ≡ files.vault))
        ⊎ ((m : Secrets) × (decrypt_vault c v files ≡ ok m)
            × ((set_key c v faults files p k).1 ≡ ok tt)
            × (decrypt_vault c v (set_key c v faults files p k).0
                ≡ ok (put text_keys text_less m p k.secret)))
  unfolding set_key
  set_key_atomic faults files p k = set_in_atomic faults files p k (decrypt_vault c v files)

  -- What a deletion of the key of `p` that found the map `m` left behind in `files`.
  abbrev pub IsDeleted : Files B → Secrets → String → Files B × Result Bool → Type 0
  IsDeleted files m p out =
      ((out.1 ≡ ok false) × (get text_keys m p ≡ none) × (out.0 ≡ files))
      ⊎ ((s : String) × (get text_keys m p ≡ some s)
          × (out.1 ≡ ok true)
          × (decrypt_vault c v out.0 ≡ ok (remove text_keys m p)))

  delete_found :
      (files : Files B) (m : Secrets) (p : String) (s : String) (out : Files B × Result (Unit {0}))
      → get text_keys m p ≡ some s
      → Written files (remove text_keys m p) out
      → ((e : ModelSentryError) × ((removed c v out).1 ≡ err e)
          × ((removed c v out).0.vault ≡ files.vault))
        ⊎ IsDeleted files m p (removed c v out)
  delete_found files m p s (after, err e) g (inl w) = inl (e, refl, w.2)
  delete_found files m p s (after, err e) g (inr w) = absurd (cc (w.0))
  delete_found files m p s (after, ok u) g (inl w) = absurd (cc (w.1))
  delete_found files m p s (after, ok u) g (inr w) = inr (inr (s, g, refl, w.1))

  delete_if_found :
      (faults : DiskFaults B) (files : Files B) (p : String) (m : Secrets) (found : Option String)
      → get text_keys m p ≡ found
      → ((e : ModelSentryError) × ((if is_some found
              then removed c v (encrypt_and_write c v faults files (remove text_keys m p))
              else (files, ok false)).1
            ≡ err e)
          × ((if is_some found
                then removed c v (encrypt_and_write c v faults files (remove text_keys m p))
                else (files, ok false)).0.vault
              ≡ files.vault))
        ⊎ IsDeleted files m p (
            if is_some found
            then removed c v (encrypt_and_write c v faults files (remove text_keys m p))
            else (files, ok false))
  delete_if_found faults files p m none g = inr (inl (refl, g, refl))
  delete_if_found faults files p m (some s) g =
      delete_found files m p s (encrypt_and_write c v faults files (remove text_keys m p)) g
        (encrypt_and_write-Written faults files (remove text_keys m p))

  -- Whatever calls of the file system fail, a `delete_key` that fails leaves the vault file as it
  -- was; one that answers `false` found no key and changed nothing; and one that answers `true`
  -- leaves a vault that decrypts to the old keys without that of the provider.
  pub delete_key_atomic :
      (faults : DiskFaults B) (files : Files B) (p : String)
      → ((e : ModelSentryError) × ((delete_key c v faults files p).1 ≡ err e)
          × ((delete_key c v faults files p).0.vault ≡ files.vault))
        ⊎ ((m : Secrets) × (decrypt_vault c v files ≡ ok m)
            × IsDeleted files m p (delete_key c v faults files p))
  unfolding delete_key
  delete_key_atomic faults files p = elim (Result-cases (decrypt_vault c v files)) [
    | inr (e, h) ↦ rw h (inl (e, refl, refl))
    | inl (m, h) ↦ rw h (elim (delete_if_found faults files p m _ refl) [
      | inl w ↦ inl w
      | inr w ↦ inr (m, refl, w)
    ])
  ]
