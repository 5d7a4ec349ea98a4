-- ===== src/Runner/Outcomes.antt =====
-- What the collecting loops of crates/core/src/probe_runner.rs gather from the results of the tasks.
use mathlib.Core.List.{append_assoc, append-nil}
use modelsentry.Base.{
  ℕ, zero, suc, ◌+◌, ◌≡◌, refl, sym, ap, ◌∙◌, Bool, true, false, not, ◌&&◌, ◌||◌, List, [], ◌∷◌,
  ◌++◌, map, none, String, length, Bool-cases, inl, inr, is_empty, foldl, count_if, zip_with, All,
  arith, first,
}
use modelsentry.Common.Error.{Result, ok, err}
use modelsentry.Common.Models.{ProbePrompt}
use modelsentry.Base.Text.{is_blank}
use modelsentry.Provider.{Completion}
use modelsentry.Runner.{
  Calls, Sampled, Collected, Answers, collect, is_none, text_or_blank, take_answer, draw, drawn,
  embedded, sample_prompt, outcomes_from,
}

-- A prompt that has an embedding and a completion to show.
abbrev pub is_usable : {F : Type 0} → List (List F) → String → Bool
is_usable vectors text = not (is_empty vectors) && not (is_blank text)

abbrev pub embeddings_of : {F : Type 0} → Result (Sampled F) → List (List F)
embeddings_of (err e) = []
embeddings_of (ok s) = s.sample_embeddings

abbrev pub completion_of : {F : Type 0} → Result (Sampled F) → String
completion_of (err e) = ""
completion_of (ok s) = text_or_blank s.representative

abbrev pub is_failed : {F : Type 0} → Result (Sampled F) → Bool
is_failed (err e) = true
is_failed (ok s) = is_empty s.sample_embeddings || is_none s.representative

module _ {F : Type 0} where
  pub fold-embeddings :
      (os : List (Result (Sampled F))) (st : Collected F)
      → (foldl collect st os).embeddings ≡ st.embeddings ++ map embeddings_of os
  fold-embeddings [] st = sym (append-nil st.embeddings)
  fold-embeddings (ok s ∷ os) st =
      fold-embeddings os (collect st (ok s))
      ∙ append_assoc st.embeddings (s.sample_embeddings ∷ []) (map embeddings_of os)
  fold-embeddings (err e ∷ os) st =
      fold-embeddings os (collect st (err e))
      ∙ append_assoc st.embeddings ([] ∷ []) (map embeddings_of os)

  pub fold-completions :
      (os : List (Result (Sampled F))) (st : Collected F)
      → (foldl collect st os).completions ≡ st.completions ++ map completion_of os
  fold-completions [] st = sym (append-nil st.completions)
  fold-completions (ok s ∷ os) st =
      fold-completions os (collect st (ok s))
      ∙ append_assoc st.completions (text_or_blank s.representative ∷ []) (map completion_of os)
  fold-completions (err e ∷ os) st =
      fold-completions os (collect st (err e))
      ∙ append_assoc st.completions ("" ∷ []) (map completion_of os)

  pub fold-failures :
      (os : List (Result (Sampled F))) (st : Collected F)
      → (foldl collect st os).failure_count ≡ st.failure_count + count_if is_failed os
  fold-failures [] st = omega arith
  fold-failures (ok s ∷ os) st = ground (arith, fold-failures os (collect st (ok s)))
  fold-failures (err e ∷ os) st = ground (arith, fold-failures os (collect st (err e)))

  -- A prompt failed exactly when what it left in the run is not usable.
  abbrev pub IsTold : Result (Sampled F) → Type 0
  IsTold o = is_failed o ≡ not (is_usable (embeddings_of o) (completion_of o))

  pub failures-told :
      (os : List (Result (Sampled F)))
      → All IsTold os
      → count_if is_failed os
        ≡ count_if not (zip_with is_usable (map embeddings_of os) (map completion_of os))
  failures-told [] h = refl
  failures-told (o ∷ os) h = ground (arith, h.0, failures-told os h.1)

module _ {F : Type 0} (calls : Calls F) where
  abbrev AllSaid : Answers → Type 0
  AllSaid st = All (λ a. is_blank a ≡ false) st.answers

  said-snoc :
      (xs : List String) (x : String)
      → All (λ a. is_blank a ≡ false) xs
      → is_blank x ≡ false
      → All (λ a. is_blank a ≡ false) (xs ++ x ∷ [])
  said-snoc [] x h k = (k, tt)
  said-snoc (y ∷ xs) x h k = (h.0, said-snoc xs x h.1 k)

  take_answer-said :
      (st : Answers) (r : Result Completion) → AllSaid st → AllSaid (take_answer st r)
  take_answer-said st (err e) h = h
  take_answer-said st (ok c) h = elim (Bool-cases (is_blank c.text)) [
    | inl e ↦ rw e h
    | inr e ↦ rw e (said-snoc st.answers c.text h e)
  ]

  draw-said :
      (i : ℕ) (text : String) (n k : ℕ) (st : Answers)
      → AllSaid st
      → AllSaid (draw calls i text n k st)
  draw-said i text zero k st h = h
  draw-said i text (suc n) k st h =
      draw-said i text n (suc k) _ (take_answer-said st (calls.complete i k text) h)

  first-said :
      (vs : List (List F)) (answers : List String)
      → All (λ a. is_blank a ≡ false) answers
      → (is_empty vs || is_none (first answers))
        ≡ not (is_usable vs (text_or_blank (first answers)))
  first-said [] [] h = refl
  first-said (v ∷ vs) [] h = refl
  first-said vs (a ∷ rest) h = ground (arith, h.0)

  sample_prompt-IsTold :
      (n i : ℕ) (p : ProbePrompt) (permit : Result (Unit {0}))
      → calls.permit i ≡ permit
      → IsTold (sample_prompt calls n i p)
  sample_prompt-IsTold n i p (err e) h = rw h refl
  sample_prompt-IsTold n i p (ok u) h =
      let a = drawn calls n i p.text in
      rw h (
        first-said (embedded calls i a.answers) a.answers
          (draw-said i p.text n 0 (record { answers = []; model_version = none }) tt))

  pub outcomes_from-IsTold :
      (n i : ℕ) (ps : List ProbePrompt) → All IsTold (outcomes_from calls n i ps)
  outcomes_from-IsTold n i [] = tt
  outcomes_from-IsTold n i (p ∷ ps) =
      (sample_prompt-IsTold n i p (calls.permit i) refl, outcomes_from-IsTold n (suc i) ps)

  pub length-outcomes_from :
      (n i : ℕ) (ps : List ProbePrompt) → length (outcomes_from calls n i ps) ≡ length ps
  length-outcomes_from n i [] = refl
  length-outcomes_from n i (p ∷ ps) = ap suc (length-outcomes_from n (suc i) ps)
