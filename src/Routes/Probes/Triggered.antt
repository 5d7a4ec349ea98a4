-- ===== src/Routes/Probes/Triggered.antt =====
-- What a run on request leaves (crates/daemon/src/routes/probes.rs).
use modelsentry.Store.Probes
use modelsentry.Store.Runs
use modelsentry.Routes.Probes.{
  TriggerFaults, triggered, trigger_probe_run, store_triggered, get_run, run_with, Uuid,
  ProviderSpec, LlmProvider, Assoc, Probe, Time, ProbeRun, RunTables, calls_of,
}
use modelsentry.Base.{
  [], refl, inl, inr, none, some, String, Option, ℕ, Option-cases, ◌≡◌, ◌⊎◌, Bool-cases, ltb,
}
use modelsentry.Common.Error.{ok, err, Result, ModelSentryError, Result-cases}
use modelsentry.Runner.Parts.{
  IsRunOf, run_total, run-IsRunOf, run_completions_only_total, run_completions_only-IsRunOf,
}
use modelsentry.Store.Runs.Listing.{IsOrdered, insert_lem}

module _ (parse_uuid : String → Option Uuid) {F : Type 0} (permit : ℕ → Result (Unit {0}))
    (build : ProviderSpec → Result (LlmProvider F)) where
  -- The reasons for an error before there is a run.
  pub data IsUnmade (faults : TriggerFaults) (id : String) (probes : Assoc Uuid Probe)
      : ModelSentryError → Type 0 where
    malformed :
        parse_uuid id ≡ none → IsUnmade faults id probes (ModelSentryError.probe_not_found id)
    unread : (e : ModelSentryError) → faults.get_probe ≡ some e → IsUnmade faults id probes e
    unknown :
        (probe_id : Uuid)
        → parse_uuid id ≡ some probe_id
        → Probes.get_probe probes probe_id ≡ none
        → IsUnmade faults id probes (ModelSentryError.probe_not_found id)
    unbuilt :
        (probe_id : Uuid) (probe : Probe) (e : ModelSentryError)
        → parse_uuid id ≡ some probe_id
        → Probes.get_probe probes probe_id ≡ some probe
        → build probe.provider ≡ err e
        → IsUnmade faults id probes e

  -- The parts of a run that was made.
  pub record IsMade (id : String) (run_id : Uuid) (probes : Assoc Uuid Probe) (r : ProbeRun F)
      : Type 0 where
    pub probe : Probe
    pub probe_id : Uuid
    pub provider : LlmProvider F
    pub parsed : parse_uuid id ≡ some probe_id
    pub known : Probes.get_probe probes probe_id ≡ some probe
    pub built : build probe.provider ≡ ok provider
    pub of_probe : IsRunOf run_id probe r

  run_with-IsRunOf :
      (p : LlmProvider F) (run_id : Uuid) (probe : Probe) (samples : ℕ) (s f : Time)
      → (r : ProbeRun F) × (run_with permit p run_id probe samples s f ≡ ok r)
        × IsRunOf run_id probe r
  run_with-IsRunOf p run_id probe samples s f = elim (Bool-cases (ltb 0 p.embedding_dim)) [
    | inl t ↦
        let (r, h) = run_total (calls_of permit p) run_id probe s f samples in
        rw t (r, h, run-IsRunOf (calls_of permit p) run_id probe s f samples r h)
    | inr t ↦
        let (r, h) = run_completions_only_total (calls_of permit p) run_id probe s f in
        rw t (r, h, run_completions_only-IsRunOf (calls_of permit p) run_id probe s f r h)
  ]

  module _ (faults : TriggerFaults) (id : String) (run_id : Uuid) (samples : ℕ) (s f : Time)
      (probes : Assoc Uuid Probe) where
    abbrev Tried : Result (ProbeRun F) → Type 0
    Tried out =
        ((e : ModelSentryError) × (out ≡ err e) × IsUnmade faults id probes e)
        ⊎ ((r : ProbeRun F) × (out ≡ ok r) × IsMade id run_id probes r)

    triggered-Tried : Tried (triggered parse_uuid permit build faults id run_id samples s f probes)
    triggered-Tried = elim (Option-cases (parse_uuid id)) [
      | inl n ↦ rw n (inl (_, refl, malformed n))
      | inr (probe_id, p) ↦ rw p (elim (Option-cases faults.get_probe) [
        | inr (e, u) ↦ rw u (inl (_, refl, unread e refl))
        | inl w ↦ rw w (elim (Option-cases (Probes.get_probe probes probe_id)) [
          | inl n ↦ rw n (inl (_, refl, unknown probe_id p n))
          | inr (probe, g) ↦ rw g (elim (Result-cases (build probe.provider)) [
            | inr (e, b) ↦ rw b (inl (_, refl, unbuilt probe_id probe e p g b))
            | inl (provider, b) ↦
                let (r, h, shape) = run_with-IsRunOf provider run_id probe samples s f in
                rw b (
                  inr (
                    r,
                    h,
                    record {
                      probe = probe;
                      probe_id = probe_id;
                      provider = provider;
                      parsed = p;
                      known = g;
                      built = b;
                      of_probe = shape;
                    },
                  ))
          ])
        ])
      ])
    ]

    -- What an answer of the endpoint says of the runs it leaves.
    abbrev pub IsTriggered : String → RunTables F → RunTables F × Result (ProbeRun F) → Type 0
    IsTriggered run_text runs (after, err e) =
        (after ≡ runs) × (IsUnmade faults id probes e ⊎ (faults.insert_run ≡ some e))
    IsTriggered run_text runs (after, ok r) =
        (faults.insert_run ≡ none)
        × IsMade id run_id probes r
        × (get_run parse_uuid none run_text after ≡ ok (record r { embeddings = [] }))
        × (Runs.embeddings after run_id ≡ some r.embeddings)
        × IsOrdered after.index

    stored-IsTriggered :
        (run_text : String) (runs : RunTables F) (r : ProbeRun F) (fault : Option ModelSentryError)
        → parse_uuid run_text ≡ some run_id
        → IsOrdered runs.index
        → IsMade id run_id probes r
        → faults.insert_run ≡ fault
        → IsTriggered run_text runs (store_triggered parse_uuid permit build fault runs (ok r))
    unfolding get_run
    stored-IsTriggered run_text runs r (some e) p o m w = (refl, inr w)
    stored-IsTriggered run_text runs r none p o m w =
        let same : r.id ≡ run_id = m.of_probe.0 in
        let (found, vectors, ordered) = insert_lem runs r o in
        (w, m, rw (p, ← same, found) refl, rw (← same) vectors, ordered)

    -- A run on request fails and leaves the runs as they were only if the path names no stored probe,
    -- no provider can be built for it or a call of the store fails. Else it stores a run of that
    -- probe under the new identifier, with a completion for each prompt, which a later request
    -- finds with its embeddings, and the index of the runs stays in order.
    pub trigger_probe_run-IsTriggered :
        (run_text : String) (runs : RunTables F)
        → parse_uuid run_text ≡ some run_id
        → IsOrdered runs.index
        → IsTriggered run_text runs
            (trigger_probe_run parse_uuid permit build faults id run_id samples s f probes runs)
    unfolding trigger_probe_run
    trigger_probe_run-IsTriggered run_text runs p o = elim triggered-Tried [
      | inl (e, h, u) ↦ rw h (refl, inl u)
      | inr (r, h, m) ↦ rw h (stored-IsTriggered run_text runs r _ p o m refl)
    ]
