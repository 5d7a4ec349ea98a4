-- ===== src/Common/Error.antt =====
-- Errors as values (crates/common/src/error.rs). The variants that wrap an error of the database or
-- of the JSON library carry that error's text.
use modelsentry.Base.{
  ◌≡◌, refl, ◌⊎◌, inl, inr, ℕ, Bool, true, false, List, [], ◌∷◌, String, Option, none, some,
}

-- A message built by `format!`: its template and the numbers that fill it.
pub record Message : Type 0 where
  pub template : String
  pub numbers : List ℕ

abbrev pub says : String → Message
says s = record { template = s; numbers = [] }

abbrev pub says_with : String → List ℕ → Message
says_with s ns = record { template = s; numbers = ns }

pub data ModelSentryError : Type 0 where
  provider provider_transport provider_decode : Message → ModelSentryError
  provider_http : ℕ → String → ModelSentryError
  dimension_mismatch : ℕ → ℕ → ModelSentryError
  baseline_embedding_mismatch : ℕ → ℕ → ModelSentryError
  empty_embedding : ModelSentryError
  baseline_not_found probe_not_found : String → ModelSentryError
  storage database_open transaction table commit db serialization : String → ModelSentryError
  vault email config drift internal : Message → ModelSentryError

pub data Result {ℓ} (A : Type ℓ) : Type ℓ where
  ok : A → Result A
  err : ModelSentryError → Result A

infixl 5 ◌>>=◌ ◌>>◌
-- `e?` and what follows it.
abbrev pub ◌>>=◌ {ℓ κ} : {T : Type ℓ} {U : Type κ} → Result T → (T → Result U) → Result U
err e >>= next = err e
ok value >>= next = next value

abbrev pub ◌>>◌ {κ} : {U : Type κ} → Result (Unit {0}) → Result U → Result U
guard >> next = guard >>= λ done. next

-- An early `return Err(e)` when the test holds.
abbrev pub fail_if : Bool → ModelSentryError → Result (Unit {0})
fail_if true e = err e
fail_if false e = ok tt

module _ {ℓ} {A : Type ℓ} where
  abbrev pub ok_or : Option A → ModelSentryError → Result A
  ok_or none e = err e
  ok_or (some a) e = ok a

  abbrev pub is_ok : Result A → Bool
  is_ok (ok a) = true
  is_ok (err e) = false

module _ {ℓ κ} {A : Type ℓ} {B : Type κ} where
  -- `.map(f).collect::<Result<Vec<_>>>()`: the first error wins.
  abbrev pub traverse : (A → Result B) → List A → Result (List B)
  traverse f [] = ok []
  traverse f (x ∷ xs) = f x >>= λ y. traverse f xs >>= λ ys. ok (y ∷ ys)

-- Inversion of a successful bind.
pub >>=-eq-ok {ℓ κ} :
    {T : Type ℓ} {U : Type κ} (r : Result T) (next : T → Result U) {out : U}
    → (r >>= next) ≡ ok out
    → (value : T) × (r ≡ ok value) × (next value ≡ ok out)
>>=-eq-ok (err e) next eq = absurd (cc)
>>=-eq-ok (ok value) next eq = (value, refl, eq)

-- Past a guard its test did not hold.
pub fail_if-ok {ℓ} :
    {B : Type ℓ} (t : Bool) (e : ModelSentryError) (k : Result B) {b : B}
    → (fail_if t e >> k) ≡ ok b
    → (t ≡ false) × (k ≡ ok b)
fail_if-ok true e k h = absurd (cc)
fail_if-ok false e k h = (refl, h)

pub ok_or-ok {ℓ} :
    {A : Type ℓ} (found : Option A) (e : ModelSentryError) {a : A}
    → ok_or found e ≡ ok a
    → found ≡ some a
ok_or-ok none e h = absurd (cc)
ok_or-ok (some x) e h = cc

pub Result-cases {ℓ} :
    {A : Type ℓ} (r : Result A) → ((a : A) × (r ≡ ok a)) ⊎ ((e : ModelSentryError) × (r ≡ err e))
Result-cases (ok a) = inl (a, refl)
Result-cases (err e) = inr (e, refl)

pub is_ok-ok {ℓ} : {A : Type ℓ} (r : Result A) → is_ok r ≡ true → (a : A) × (r ≡ ok a)
is_ok-ok (ok a) h = (a, refl)
is_ok-ok (err e) h = absurd (cc)

pub ok_inj : {A : Type 0} (a b : A) → ok a ≡ ok b → a ≡ b
ok_inj a b h = cc
