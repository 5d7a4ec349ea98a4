-- ===== src/Routes/Probes/Created.antt =====
-- Which probes are created, and where they are found (crates/daemon/src/routes/probes.rs).
use modelsentry.Store.Probes
use modelsentry.Routes.Probes.{
  get_probe, Cron, CreateProbeRequest, ProbePrompt, Assoc, create_probe, is_blank_trimmed,
  check_request, Uuid, model_of, Probe, validate_schedule, Time, new_probe,
}
use modelsentry.Base.{
  [], refl, inl, inr, true, false, none, some, arith, List, is_empty, ◌≡◌, any, String, ◌↔◌, Option,
  ◌≢◌, All, if◌then◌else◌, ◌∷◌, not, ◌==◌, ◌⊎◌, ltb, ==_iff,
}
use modelsentry.Common.Error.{ok, err, fail_if-ok, ModelSentryError, Result-cases}
use modelsentry.Base.Table.{get-put}
use modelsentry.Common.Models.{uuid_keys}

-- What the endpoint asks of a probe.
pub record IsAcceptable {C : Type 0} (c : Cron C) (body : CreateProbeRequest) : Type 0 where
  pub named : is_blank_trimmed body.name ≡ false
  pub with_model : is_blank_trimmed (model_of body.provider) ≡ false
  pub with_prompts : body.prompts ≢ []
  pub with_texts : All (λ (p : ProbePrompt). is_blank_trimmed p.text ≡ false) body.prompts
  pub scheduled : validate_schedule c body.schedule ≡ true

is_empty-ne {ℓ} : {A : Type ℓ} (xs : List A) → (is_empty xs ≡ false) ↔ (xs ≢ [])
is_empty-ne [] = (λ h e. cc, λ h. absurd (h refl))
is_empty-ne (x ∷ xs) = (λ h e. absurd (cc), λ h. refl)

any-All :
    (ps : List ProbePrompt)
    → (any (λ (p : ProbePrompt). is_blank_trimmed p.text) ps ≡ false)
      ↔ All (λ (p : ProbePrompt). is_blank_trimmed p.text ≡ false) ps
any-All [] = (λ h. tt, λ h. refl)
any-All (p ∷ ps) =
    (λ h. (ground arith, (any-All ps).0 (ground arith)), λ h. rw (h.0, (any-All ps).1 h.1) refl)

module _ {C : Type 0} (c : Cron C) where
  check_request_iff :
      (body : CreateProbeRequest) → (check_request c body ≡ ok tt) ↔ IsAcceptable c body
  check_request_iff body = (
    λ h.
        let (n, h₁) = fail_if-ok (is_blank_trimmed body.name) _ _ h in
        let (m, h₂) = fail_if-ok (is_blank_trimmed (model_of body.provider)) _ _ h₁ in
        let (p, h₃) = fail_if-ok (is_empty body.prompts) _ _ h₂ in
        let (t, h₄) =
          fail_if-ok (any (λ (p : ProbePrompt). is_blank_trimmed p.text) body.prompts) _ _ h₃ in
        let (s, h₅) = fail_if-ok (not (validate_schedule c body.schedule)) _ _ h₄ in
        record {
          named = n;
          with_model = m;
          with_prompts = (is_empty-ne body.prompts).0 p;
          with_texts = (any-All body.prompts).0 t;
          scheduled = ground arith;
        },
    λ a.
        let p = (is_empty-ne body.prompts).1 a.with_prompts in
        let t = (any-All body.prompts).1 a.with_texts in
        rw (a.named, a.with_model, p, t, a.scheduled) refl,
  )

  get-insert_probe :
      (table : Assoc Uuid Probe) (probe : Probe) (j : Uuid)
      → Probes.get_probe (Probes.insert table probe) j
        ≡ (if probe.id == j then some probe else Probes.get_probe table j)
  unfolding Probes.get_probe Probes.insert
  get-insert_probe table probe j = get-put uuid_keys ltb table probe.id j probe

  -- A request is refused, and the table of the probes stays as it is, unless the name, the model and
  -- all prompts have text, there is a prompt, the schedule is valid and the store works; then the new
  -- probe is the answer, a later request finds it under its identifier, and every other probe is
  -- found as before.
  pub create_probe_outcome :
      (parse_uuid : String → Option Uuid) (text : String) (fault : Option ModelSentryError)
      (id j : Uuid) (now : Time) (body : CreateProbeRequest) (table : Assoc Uuid Probe)
      → parse_uuid text ≡ some id
      → ((e : ModelSentryError) × ((¬ IsAcceptable c body) ⊎ (fault ≡ some e))
          × ((create_probe c fault id now body table).1 ≡ err e)
          × ((create_probe c fault id now body table).0 ≡ table))
        ⊎ (IsAcceptable c body
            × (fault ≡ none)
            × ((create_probe c fault id now body table).1 ≡ ok (new_probe c id now body))
            × (get_probe parse_uuid none text (create_probe c fault id now body table).0
                ≡ ok (new_probe c id now body))
            × (Probes.get_probe (create_probe c fault id now body table).0 j
                ≡ (if id == j then some (new_probe c id now body) else Probes.get_probe table j)))
  unfolding create_probe get_probe
  create_probe_outcome parse_uuid text none id j now body table parsed =
      elim (Result-cases (check_request c body)) [
        | inr (e, h) ↦ rw h (inl (e, inl (λ a. cc (h, (check_request_iff body).1 a)), refl, refl))
        | inl (u, h) ↦
            let found = get-insert_probe table (new_probe c id now body) in
            let own : (id == id) ≡ true = (==_iff id id).1 refl in
            rw h (
              inr (
                (check_request_iff body).0 h,
                refl,
                refl,
                rw (parsed, found id, own) refl,
                found j,
              ))
      ]
  create_probe_outcome parse_uuid text (some e') id j now body table parsed =
      elim (Result-cases (check_request c body)) [
        | inr (e, h) ↦ rw h (inl (e, inl (λ a. cc (h, (check_request_iff body).1 a)), refl, refl))
        | inl (u, h) ↦ rw h (inl (e', inr refl, refl, refl))
      ]
