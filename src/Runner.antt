-- ===== src/Runner.antt =====
-- The probe runner (crates/core/src/probe_runner.rs). The provider and the semaphore are outside of
-- the program: `Calls` holds what they answer the i-th prompt. The tasks of the prompts share no
-- state and `join_all` keeps their order, so the run is the list of their results.
pub mod Outcomes
pub mod Status
pub mod Parts
use modelsentry.Base.{
  ℕ, zero, suc, ◌+◌, Bool, true, false, ◌||◌, List, [], ◌∷◌, ◌++◌, map, Option, none, some, String,
  length, first, is_empty, replicate, foldl, if◌then◌else◌, ◌==◌, leb, ltb,
}
use modelsentry.Base.Text.{is_blank}
use modelsentry.Common.Error.{Result, ok, err, ◌>>=◌}
use modelsentry.Provider.{Completion}
use modelsentry.Common.Models.{
  Uuid, Probe, ProbePrompt, ProbeRun, RunStatus, success, partial_failure, failed,
}
use modelsentry.Common.Time.{Time}
use modelsentry.Drift.Embedding.{Embedding}

-- `complete i k text` answers the k-th request for the i-th prompt.
pub record Calls (F : Type 0) : Type 0 where
  pub permit : ℕ → Result (Unit {0})
  pub complete : ℕ → ℕ → String → Result Completion
  pub embed : ℕ → List String → Result (List (Embedding F))

-- The first reported version wins.
abbrev pub first_version : Option String → Option String → Option String
first_version none v = v
first_version (some u) v = some u

pub record Answers : Type 0 where
  pub answers : List String
  pub model_version : Option String

abbrev pub take_answer : Answers → Result Completion → Answers
take_answer st (err e) = st
take_answer st (ok c) = record {
  answers = if is_blank c.text then st.answers else st.answers ++ c.text ∷ [];
  model_version = first_version st.model_version c.model_version;
}

abbrev pub text_or_blank : Option String → String
text_or_blank none = ""
text_or_blank (some s) = s

abbrev pub is_none : Option String → Bool
is_none none = true
is_none (some s) = false

abbrev pub classify_status : ℕ → ℕ → RunStatus
classify_status failure_count total =
    if failure_count == 0
    then success
    else if leb total failure_count
    then failed
    else partial_failure

abbrev pub at_least_one : ℕ → ℕ
at_least_one samples = if ltb samples 1 then 1 else samples

-- What the task of one prompt returns.
pub record Sampled (F : Type 0) : Type 0 where
  pub sample_embeddings : List (List F)
  pub representative : Option String
  pub prompt_model_version : Option String

-- The vectors of the run so far.
pub record Collected (F : Type 0) : Type 0 where
  pub embeddings : List (List (List F))
  pub completions : List String
  pub model_version : Option String
  pub failure_count : ℕ

module _ {F : Type 0} where
  abbrev pub nothing_collected : Collected F
  nothing_collected = record {
    embeddings = [];
    completions = [];
    model_version = none;
    failure_count = 0;
  }

  abbrev pub vectors : Result (List (Embedding F)) → List (List F)
  vectors (err e) = []
  vectors (ok es) = map (λ (e : Embedding F). e.values) es

  abbrev pub collect : Collected F → Result (Sampled F) → Collected F
  collect st (err e) = record {
    embeddings = st.embeddings ++ [] ∷ [];
    completions = st.completions ++ "" ∷ [];
    model_version = st.model_version;
    failure_count = st.failure_count + 1;
  }
  collect st (ok s) = record {
    embeddings = st.embeddings ++ s.sample_embeddings ∷ [];
    completions = st.completions ++ text_or_blank s.representative ∷ [];
    model_version = first_version st.model_version s.prompt_model_version;
    failure_count =
        st.failure_count
        + (if is_empty s.sample_embeddings || is_none s.representative then 1 else 0);
  }

  abbrev pub collect_completion : Collected F → Result Completion → Collected F
  collect_completion st (err e) = record {
    embeddings = st.embeddings ++ [] ∷ [];
    completions = st.completions ++ "" ∷ [];
    model_version = st.model_version;
    failure_count = st.failure_count + 1;
  }
  collect_completion st (ok c) = record {
    embeddings = st.embeddings ++ [] ∷ [];
    completions = st.completions ++ c.text ∷ [];
    model_version = first_version st.model_version c.model_version;
    failure_count = st.failure_count;
  }

module _ {F : Type 0} (calls : Calls F) where
  -- Samples k, k + 1, ... of the i-th prompt.
  abbrev pub draw : ℕ → String → ℕ → ℕ → Answers → Answers
  draw i text zero k st = st
  draw i text (suc n) k st = draw i text n (suc k) (take_answer st (calls.complete i k text))

  abbrev pub drawn : ℕ → ℕ → String → Answers
  drawn n i text = draw i text n 0 (record { answers = []; model_version = none })

  abbrev pub embedded : ℕ → List String → List (List F)
  embedded i [] = []
  embedded i (a ∷ rest) = vectors (calls.embed i (a ∷ rest))

  abbrev pub sample_prompt : ℕ → ℕ → ProbePrompt → Result (Sampled F)
  sample_prompt n_samples i p = do
    _ ← calls.permit i
    let drawn_answers = drawn n_samples i p.text
    ok (record {
      sample_embeddings = embedded i drawn_answers.answers;
      representative = first drawn_answers.answers;
      prompt_model_version = drawn_answers.model_version;
    })

  abbrev pub outcomes_from : ℕ → ℕ → List ProbePrompt → List (Result (Sampled F))
  outcomes_from n_samples i [] = []
  outcomes_from n_samples i (p ∷ ps) =
      sample_prompt n_samples i p ∷ outcomes_from n_samples (suc i) ps

  abbrev pub complete_prompt : ℕ → ProbePrompt → Result Completion
  complete_prompt i p = do _ ← calls.permit i; calls.complete i 0 p.text

  abbrev pub completions_from : ℕ → List ProbePrompt → List (Result Completion)
  completions_from i [] = []
  completions_from i (p ∷ ps) = complete_prompt i p ∷ completions_from (suc i) ps

  abbrev pub probe_run : Uuid → Probe → Time → Time → ℕ → Collected F → ProbeRun F
  probe_run run_id probe started_at finished_at n c = record {
    id = run_id;
    probe_id = probe.id;
    started_at = started_at;
    finished_at = finished_at;
    embeddings = c.embeddings;
    completions = c.completions;
    model_version = c.model_version;
    drift_report = none;
    status = classify_status c.failure_count n;
  }

  unfoldable pub run : Uuid → Probe → ℕ → Time → Time → Result (ProbeRun F)
  run run_id probe samples started_at finished_at =
      let outcomes = outcomes_from (at_least_one samples) 0 probe.prompts in
      ok (
        probe_run run_id probe started_at finished_at (length outcomes)
          (foldl collect nothing_collected outcomes))

  -- The embeddings are one empty vector for each prompt.
  unfoldable pub run_completions_only : Uuid → Probe → Time → Time → Result (ProbeRun F)
  run_completions_only run_id probe started_at finished_at =
      let outcomes = completions_from 0 probe.prompts in
      ok (
        probe_run run_id probe started_at finished_at (length outcomes)
          (foldl collect_completion nothing_collected outcomes))
