-- ===== src/Vault/Laws.antt =====
-- What a stored key leads to (crates/daemon/src/vault.rs).
use modelsentry.Vault.{
  Codec, CodecLaws, Vault, get_key, String, Files, DiskFaults, Secrets, ApiKey, decrypt_vault,
  Option, set_key, ◌≡◌, key_of, ok, if◌then◌else◌, get, str_eq, text_keys, some, text_less,
}
use modelsentry.Base.{arith, Bool-cases, inl, refl, inr, ◌∙◌, ap, sym}
use modelsentry.Vault.Atomic.{set_key_atomic}
use modelsentry.Base.Table.{get-put}

module _ {B : Type 0} (c : Codec B) (laws : CodecLaws c) (v : Vault) where
  pub get_key_in :
      (files : Files B) (m : Secrets) (q : String)
      → decrypt_vault c v files ≡ ok m
      → get_key c v files q ≡ ok (key_of c v (get text_keys m q))
  unfolding get_key
  get_key_in files m q h = rw h refl

  key_of-if :
      (p q : String) (k : ApiKey) (rest : Option String)
      → key_of c v (if str_eq p q then some k.secret else rest)
        ≡ (if str_eq p q then some k else key_of c v rest)
  key_of-if p q k rest = ground arith

  get_key-old :
      (files : Files B) (m : Secrets) (p q : String) (k : ApiKey)
      → decrypt_vault c v files ≡ ok m
      → (if str_eq p q then ok (some k) else get_key c v files q)
        ≡ ok (if str_eq p q then some k else key_of c v (get text_keys m q))
  get_key-old files m p q k old =
      let was : get_key c v files q ≡ ok (key_of c v (get text_keys m q)) =
        get_key_in files m q old in
      elim (Bool-cases (str_eq p q)) [ inl t ↦ rw t refl | inr t ↦ rw t was ]

  -- After a `set_key` that returned `Ok`, the key it stored is found under its provider, and the key
  -- of any other provider is the one found before.
  pub get_key-set_key :
      (faults : DiskFaults B) (files : Files B) (p q : String) (k : ApiKey)
      → (set_key c v faults files p k).1 ≡ ok tt
      → get_key c v (set_key c v faults files p k).0 q
        ≡ (if str_eq p q then ok (some k) else get_key c v files q)
  get_key-set_key faults files p q k h = elim (set_key_atomic c laws v faults files p k) [
    | inl w ↦ absurd (cc (w.1))
    | inr (m, old, done', new) ↦
        get_key_in (set_key c v faults files p k).0 _ q new
        ∙ ap (λ o. ok (key_of c v o)) (get-put text_keys text_less m p q k.secret)
        ∙ ap ok (key_of-if p q k (get text_keys m q))
        ∙ sym (get_key-old files m p q k old)
  ]
