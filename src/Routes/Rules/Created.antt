-- ===== src/Routes/Rules/Created.antt =====
-- Which alert rules are created, and where they are listed (crates/daemon/src/routes/alerts.rs).
use mathlib.Core.List.{Permᴰ}
use mathlib.Core.List.Permᴰ
use modelsentry.Base.{
  ◌==◌, refl, inl, inr, true, none, some, String, Option, ◌≡◌, ◌⊎◌, if◌then◌else◌, Bool-cases, ◌∷◌,
  ltb,
}
use modelsentry.Base.Assoc.{get}
use modelsentry.Store.Alerts
use modelsentry.Routes.Rules.{
  create_rule, new_rule, insert_rule_checked, CreateRuleRequest, Uuid, FloatOps, AlertTables,
  AlertRule,
}
use modelsentry.Common.Error.{ok, err, ModelSentryError, Result}
use modelsentry.Common.Models.{uuid_keys}
use modelsentry.Base.Table.Rows.{filter-put-new, filter-put-other}

module _ (parse_uuid : String → Option Uuid) {F : Type 0} (o : FloatOps F) where
  abbrev pub IsRate : F → Type 0
  IsRate x = (o.lt (o.of_nat 0) x ≡ true) × (o.lt x (o.of_nat 1) ≡ true)

  -- What the endpoint leaves of the tables, for the rules of one probe `q`.
  abbrev pub IsCreated :
      Option ModelSentryError
      → Uuid
      → Uuid
      → CreateRuleRequest F
      → Uuid
      → AlertTables F
      → AlertTables F × Result (AlertRule F)
      → Type 0
  IsCreated fault probe_id rule_id body q st (after, err e) =
      (after ≡ st) × ((¬ IsRate body.target_fpr) ⊎ (fault ≡ some e))
  IsCreated fault probe_id rule_id body q st (after, ok rule) =
      IsRate body.target_fpr
      × (fault ≡ none)
      × (rule ≡ new_rule parse_uuid o rule_id body probe_id)
      × Permᴰ (Alerts.get_rules_for_probe after q) (
          if probe_id == q
          then rule ∷ Alerts.get_rules_for_probe st q
          else Alerts.get_rules_for_probe st q)

  listed :
      (st : AlertTables F) (rule : AlertRule F) (q : Uuid)
      → get uuid_keys st.rules rule.id ≡ none
      → Permᴰ (Alerts.get_rules_for_probe (Alerts.insert_rule st rule) q) (
          if rule.probe_id == q
          then rule ∷ Alerts.get_rules_for_probe st q
          else Alerts.get_rules_for_probe st q)
  listed st rule q h = elim (Bool-cases (rule.probe_id == q)) [
    | inl t ↦ rw t (
        filter-put-new uuid_keys ltb (λ (x : AlertRule F). x.probe_id == q) st.rules rule.id rule h
          t)
    | inr t ↦
        rw
          (
            t,
            filter-put-other uuid_keys ltb (λ (x : AlertRule F). x.probe_id == q) st.rules rule.id
                rule h t,
          )
          (Permᴰ.refl _)
  ]

  insert_rule_checked-IsCreated :
      (fault : Option ModelSentryError) (probe_id rule_id q : Uuid) (body : CreateRuleRequest F)
      (st : AlertTables F)
      → get uuid_keys st.rules rule_id ≡ none
      → IsRate body.target_fpr
      → IsCreated fault probe_id rule_id body q st (
          insert_rule_checked parse_uuid o fault st
            (ok (new_rule parse_uuid o rule_id body probe_id)))
  insert_rule_checked-IsCreated none probe_id rule_id q body st h r =
      (r, refl, refl, listed st (new_rule parse_uuid o rule_id body probe_id) q h)
  insert_rule_checked-IsCreated (some e) probe_id rule_id q body st h r = (refl, inr refl)

  -- For the path of a probe and a new identifier, a request to create a rule is refused, and no
  -- table changes, only if its rate is not strictly between 0 and 1 or the store fails. Else the
  -- rules of that probe are the ones before and the new one, and those of any other probe are as
  -- before.
  pub create_rule-IsCreated :
      (fault : Option ModelSentryError) (id : String) (probe_id rule_id q : Uuid)
      (body : CreateRuleRequest F) (st : AlertTables F)
      → parse_uuid id ≡ some probe_id
      → get uuid_keys st.rules rule_id ≡ none
      → IsCreated fault probe_id rule_id body q st
          (create_rule parse_uuid o fault id rule_id body st)
  unfolding create_rule
  create_rule-IsCreated fault id probe_id rule_id q body st p h =
      elim (Bool-cases (o.lt (o.of_nat 0) body.target_fpr)) [
        | inr t ↦ rw (p, t) (refl, inl (λ r. cc (t, r.0)))
        | inl t ↦
            rw (p, t)
              (elim (Bool-cases (o.lt body.target_fpr (o.of_nat 1))) [
                | inr u ↦ rw u (refl, inl (λ r. cc (u, r.1)))
                | inl u ↦
                    rw u (insert_rule_checked-IsCreated fault probe_id rule_id q body st h (t, u))
              ])
      ]
