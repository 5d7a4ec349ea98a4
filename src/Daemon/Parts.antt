-- ===== src/Daemon/Parts.antt =====
-- The parts that the start of the daemon makes (crates/daemon/src/main.rs).
use modelsentry.Vault
use modelsentry.Alert
use modelsentry.Alert.{SequentialControl}
use modelsentry.Vault.{Vault, CodecLaws, Secrets, decrypt_vault, get_key}
use modelsentry.Config.{SequentialConfig}
use modelsentry.Daemon.{
  open_or_create, alert_cooldown, Floats, Codec, pos, Duration, SequentialControl, ltb_ℤ, Files,
  DiskFaults, is_some, max_seconds, created, control_for, sequential_for, try_seconds,
}
use modelsentry.Base.{
  [], refl, inl, inr, true, none, some, arith, ℕ, Option, Bool-cases, ◌≡◌, String, leb, false, ◌⊎◌,
}
use modelsentry.Common.Error.{ok, err, Result, Result-cases}
use modelsentry.Base.Int.{◌≤ℤ◌}
use modelsentry.Vault.Atomic.{Written, encrypt_and_write-Written}

pub cooldown_bound : (secs : ℕ) → pos 0 ≤ℤ alert_cooldown secs
cooldown_bound secs = elim (Bool-cases (leb secs max_seconds)) [
  | inl t ↦ rw t (omega arith)
  | inr t ↦ rw t (omega arith)
]

module _ {F32 F64 : Type 0} (fl : Floats F32 F64) where
  open fl use {single, double}

  -- A control has a window and a budget to spend.
  abbrev pub IsUsable : Option (SequentialControl F64) → Type 0
  IsUsable none = Unit
  IsUsable (some s) =
      (ltb_ℤ (pos 0) s.window ≡ true) × (double.lt (double.of_nat 0) s.alpha_budget ≡ true)

  enabled-IsUsable :
      (window : Duration) (budget : F32)
      → ltb_ℤ (pos 0) window ≡ true
      → IsUsable
          (Alert.enabled fl (some (record { window = window; alpha_budget = fl.widen budget })))
  enabled-IsUsable window budget w =
      elim (Bool-cases (double.lt (double.of_nat 0) (fl.widen budget))) [
        | inl t ↦ rw t (w, t)
        | inr t ↦ rw t tt
      ]

  control-IsUsable :
      (budget : F32) (window : Option Duration)
      → IsUsable (Alert.enabled fl (control_for fl budget window))
  control-IsUsable budget none = tt
  control-IsUsable budget (some window) = elim (Bool-cases (ltb_ℤ (pos 0) window)) [
    | inr w ↦ elim (Bool-cases (single.lt (single.of_nat 0) budget)) [
      | inl t ↦ rw (t, w) tt
      | inr t ↦ rw t tt
    ]
    | inl w ↦ elim (Bool-cases (single.lt (single.of_nat 0) budget)) [
      | inl t ↦ rw (t, w) (enabled-IsUsable window budget w)
      | inr t ↦ rw t tt
    ]
  ]

  pub sequential-IsUsable :
      (seq : Option (SequentialConfig F32)) → IsUsable (Alert.enabled fl (sequential_for fl seq))
  sequential-IsUsable none = tt
  sequential-IsUsable (some seq) = control-IsUsable seq.alpha_budget (try_seconds seq.window_secs)

module _ {B : Type 0} (c : Codec B) (laws : CodecLaws c) where
  -- What the opening or the creation of the vault leaves.
  abbrev pub IsOpened : Files B → String → Files B × Result Vault → Type 0
  IsOpened files passphrase (after, err e) = Unit
  IsOpened files passphrase (after, ok vault) =
      (vault.passphrase ≡ passphrase) × ((m : Secrets) × (decrypt_vault c vault after ≡ ok m))

  open_vault-IsOpened :
      (files : Files B) (passphrase : String)
      → IsOpened files passphrase (files, Vault.open_vault c files passphrase)
  unfolding Vault.open_vault
  open_vault-IsOpened files passphrase =
      elim (Result-cases (decrypt_vault c (record { passphrase = passphrase }) files)) [
        | inl (m, h) ↦ rw h (refl, (m, h))
        | inr (e, h) ↦ rw h tt
      ]

  created-IsOpened :
      (files : Files B) (passphrase : String) (out : Files B × Result (Unit {0}))
      → Written c laws (record { passphrase = passphrase }) files [] out
      → IsOpened files passphrase (created c passphrase out)
  created-IsOpened files passphrase (after, err e) (inl w) = tt
  created-IsOpened files passphrase (after, err e) (inr w) = absurd (cc (w.0))
  created-IsOpened files passphrase (after, ok u) (inl w) = absurd (cc (w.1))
  created-IsOpened files passphrase (after, ok u) (inr w) = (refl, ([], w.1))

  pub open_or_create-IsOpened :
      (faults : DiskFaults B) (files : Files B) (passphrase : String)
      → IsOpened files passphrase (open_or_create c faults files passphrase)
  unfolding open_or_create Vault.create
  open_or_create-IsOpened faults files passphrase = elim (Bool-cases (is_some files.vault)) [
    | inl t ↦ rw t (open_vault-IsOpened files passphrase)
    | inr t ↦ rw t (
        created-IsOpened files passphrase _
          (encrypt_and_write-Written c laws (record { passphrase = passphrase }) faults files []))
  ]

  -- The vault file, if there was one, is as it was.
  abbrev pub IsKept : Files B → Files B → Type 0
  IsKept before after = (is_some before.vault ≡ false) ⊎ (after.vault ≡ before.vault)

  pub open_or_create-IsKept :
      (faults : DiskFaults B) (files : Files B) (passphrase : String)
      → IsKept files (open_or_create c faults files passphrase).0
  unfolding open_or_create
  open_or_create-IsKept faults files passphrase = elim (Bool-cases (is_some files.vault)) [
    | inl t ↦ rw t (inr refl)
    | inr t ↦ inl t
  ]
