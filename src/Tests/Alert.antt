-- ===== src/Tests/Alert.antt =====
-- Tests of the alert engine (crates/core/src/alert.rs) and the ledger that feeds it
-- (crates/store/src/spend_store.rs).
use modelsentry.Base.{◌≡◌, refl, ◌↔◌, [], ◌∷◌, map, filter, All, true, false, arith}
use modelsentry.Base.Int.{pos}
use modelsentry.Common.Time.{hours}
use modelsentry.Float.Fixed.{fixed}
use modelsentry.Alert.{evaluate_and_fire}
use modelsentry.Alert.Address.{v4, v6, is_disallowed_ip}
use modelsentry.Alert.Target.{validate_target, passed, refused, non_public}
use modelsentry.Alert.Outcome.{
  should_fire, should_debit, spend_of, events_for, deliveries_for, evaluate_and_fire_lem,
}
use modelsentry.Alert.Guarded.{
  IsPublicTarget, IsGuarded, validate_target_iff, evaluate_and_fire-IsGuarded,
}
use modelsentry.Alert.Exhausted.{BudgetLaws, HasBudget, evaluate_and_fire_exhausted}
use modelsentry.Float.Fixed.{fixed_both}
use modelsentry.Base.Int.{ℤ, ◌-ℤ◌}
use modelsentry.Common.Models.{AlertEvent}
use modelsentry.Tests.Data.{net, engine, control, fresh, report, rule}

-- The metadata address of a cloud, also in its IPv4-mapped form, and a link-local IPv6 address.
metadata_blocked :
    (validate_target net false "http://169.254.169.254/"
      ≡ refused (non_public (v4 169 254 169 254)))
    × (is_disallowed_ip (v6 0 0 0 0 0 65535 43518 43518) ≡ true)
    × (is_disallowed_ip (v6 65152 0 0 0 0 0 0 1) ≡ true)
unfolding validate_target
metadata_blocked = (refl, refl, refl)

evaluate_and_fire_lem_example :
    let result = evaluate_and_fire fixed net engine fresh report [] [] (hours 3) (rule ∷ []) in
    (result.outcome.events
      ≡ events_for fixed net engine fresh report [] []
          (hours 3)
          0
          (filter (should_fire fixed net engine fresh report [] [] (hours 3)) (rule ∷ [])))
    × (result.deliveries
        ≡ deliveries_for fixed net engine fresh report [] []
            (hours 3)
            0
            (filter (should_fire fixed net engine fresh report [] [] (hours 3)) (rule ∷ [])))
    × (result.outcome.spends
        ≡ map
            (spend_of fixed net engine fresh report [] [] (hours 3))
            (filter (should_debit fixed net engine fresh report [] [] (hours 3)) (rule ∷ [])))
evaluate_and_fire_lem_example =
    evaluate_and_fire_lem fixed net engine fresh report [] [] (hours 3) (rule ∷ [])

evaluate_and_fire-IsGuarded_example :
    All
      (IsGuarded fixed net)
      (evaluate_and_fire fixed net engine fresh report [] [] (hours 3) (rule ∷ [])).deliveries
evaluate_and_fire-IsGuarded_example =
    evaluate_and_fire-IsGuarded fixed net engine refl fresh report [] [] (hours 3) (rule ∷ [])

validate_target_iff_example :
    (validate_target net false "https://hooks.example.com/x" ≡ passed tt)
    ↔ IsPublicTarget net "https://hooks.example.com/x"
validate_target_iff_example = validate_target_iff net "https://hooks.example.com/x"

fixed_budget : BudgetLaws fixed
unfolding ◌-ℤ◌
fixed_budget = record {
  cut_off = λ x y h. ground arith;
  min_le_right = λ x y z h. ground arith;
  widen_nonneg = λ x h. h;
}

-- The first of the two rules has used up its budget.
evaluate_and_fire_exhausted_example :
    All
      (λ (e : AlertEvent ℤ).
        HasBudget fixed net engine fresh report []
          ((7, pos 120000) ∷ [])
          (hours 3)
          control
          e.rule_id)
      (evaluate_and_fire fixed net engine fresh report []
        ((7, pos 120000) ∷ [])
        (hours 3)
        (rule ∷ record rule { id = 8 } ∷ [])).outcome.events
evaluate_and_fire_exhausted_example =
    evaluate_and_fire_exhausted fixed net engine fresh report [] ((7, pos 120000) ∷ []) (hours 3)
      control fixed_both fixed_budget (rule ∷ record rule { id = 8 } ∷ []) refl refl
