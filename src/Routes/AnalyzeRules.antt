-- ===== src/Routes/AnalyzeRules.antt =====
-- What POST /api/analyze (src/relayer/src/routes.rs) queues.
use mathlib.Core.Path.{subst}
use nautilus_memwal_relayer.Prelude.{
  suc, if◌then◌else◌, ◌≡◌, refl, sym, ap, ◌∙◌, inl, inr, String, List, [], ◌∷◌, map, length,
  is_empty, ok, str_eq, Bool-cases,
}
use nautilus_memwal_relayer.Types.{AppError, AuthInfo, Config}
use nautilus_memwal_relayer.World.State.{World}
use nautilus_memwal_relayer.World.Env.{Env}
use nautilus_memwal_relayer.World.Action.{Action, for_each, pure, ◌>>=◌}
use nautilus_memwal_relayer.World.Calls.{spend}
use nautilus_memwal_relayer.World.Rules.{>>=-eq-ok, >>=-at-ok}
use nautilus_memwal_relayer.Clients.Chat.{extract_facts_llm}
use nautilus_memwal_relayer.Routes.Analyze.{
  AnalyzeRequest, AnalyzeAcceptedFact, AnalyzeAcceptedResponse, accept_fact, analyze, accepted,
}
use nautilus_memwal_relayer.Clients.ChatRules.{AreAnswered, extract-eq-ok}
use nautilus_memwal_relayer.Routes.AnalyzeQueue.{Queued, Queued-nil, accept-Queued}

-- What a response says of the state before and after
abbrev pub Listed :
    Env → Config → AuthInfo → AnalyzeRequest → World → World → AnalyzeAcceptedResponse → Type 0
Listed env config auth asked w v response =
    Queued auth asked.namespace w v response.facts
    × AreAnswered env config asked.text w.calls
        (map (λ (f : AnalyzeAcceptedFact). f.text) response.facts)
    × (response.job_ids ≡ map (λ (f : AnalyzeAcceptedFact). f.job_id) response.facts)
    × (response.fact_count ≡ length response.facts)

length-map : {A B : Type 0} (f : A → B) (xs : List A) → length (map f xs) ≡ length xs
length-map f [] = refl
length-map f (x ∷ xs) = ap suc (length-map f xs)

module _ (env : Env) (config : Config) (auth : AuthInfo) (body : AnalyzeRequest) where
  -- Steps 1 and 2 of the source, after the facts
  abbrev queue : List String → Action AppError AnalyzeAcceptedResponse
  queue facts = if is_empty facts then pure (accepted auth.owner []) else do
    entries ← for_each (accept_fact env auth body.namespace) facts
    pure (accepted auth.owner entries)

  -- What a response says, where the facts come from left out
  abbrev Matches : World → World → List String → AnalyzeAcceptedResponse → Type 0
  Matches w v facts response =
      Queued auth body.namespace w v response.facts
      × (map (λ (f : AnalyzeAcceptedFact). f.text) response.facts ≡ facts)
      × (response.job_ids ≡ map (λ (f : AnalyzeAcceptedFact). f.job_id) response.facts)
      × (response.fact_count ≡ length response.facts)

  queue-Matches :
      (facts : List String) (w : World) (response : AnalyzeAcceptedResponse)
      → (queue facts w).0 ≡ ok response
      → Matches w (queue facts w).1 facts response
  queue-Matches [] w response h =
      let same : accepted auth.owner [] ≡ response = cc in
      subst (Matches w w []) same (Queued-nil env auth body.namespace w, refl, refl, refl)
  queue-Matches (fact ∷ facts) w response h =
      let accept = for_each (accept_fact env auth body.namespace) (fact ∷ facts) in
      let finish =
        λ (es : List AnalyzeAcceptedFact). pure {E = AppError} (accepted auth.owner es) in
      let (entries, p, h1) = >>=-eq-ok accept finish w h in
      let (texts, queued) = accept-Queued env auth body.namespace (fact ∷ facts) w entries p in
      let same : accepted auth.owner entries ≡ response = cc in
      let end : (queue (fact ∷ facts) w).1 ≡ (accept w).1 =
        ap (λ r. r.1) (>>=-at-ok accept finish w p) in
      subst (Matches w (queue (fact ∷ facts) w).1 (fact ∷ facts)) same
        (rw end (queued, texts, refl, length-map (λ (f : AnalyzeAcceptedFact). f.job_id) entries))

  queued_later :
      (w v : World) (facts : List String) (response : AnalyzeAcceptedResponse)
      → AreAnswered env config body.text w.calls facts
      → Matches (spend w) v facts response
      → Listed env config auth body w v response
  queued_later w v facts response answered h = (
    record {
      tasks = h.0.tasks;
      added = h.0.added;
      rows = h.0.rows;
      ids = h.0.ids;
      fresh = h.0.fresh;
    },
    subst (AreAnswered env config body.text w.calls) (sym h.1) answered,
    h.2,
    h.3,
  )

  -- When analysing succeeds, the texts of its response's facts are the trimmed lines, in their order
  -- and but for blank ones and NONE, of the first choice in the model's reply to the call that asks it for the facts of the text;
  -- for each fact in that order there is a spawned task, which carries its text and job id under the
  -- caller's owner and key and the request's namespace, and a new pending row of that id, owner and
  -- namespace at the end of `remember_jobs`; and the ids and the number given are those of the facts.
  pub analyze-Listed :
      (w : World) (response : AnalyzeAcceptedResponse)
      → (analyze env config auth body w).0 ≡ ok response
      → Listed env config auth body w (analyze env config auth body w).1 response
  unfolding analyze
  analyze-Listed w response h = elim (Bool-cases (str_eq body.text "")) [
    | inl blank ↦ (let none_given : ⊥ = cc in absurd none_given)
    | inr given ↦
        let extract = extract_facts_llm env config body.text in
        let all : analyze env config auth body w ≡ (extract >>= queue) w = rw given refl in
        let (facts, p, h1) = >>=-eq-ok extract queue w (ap (λ r. r.0) (sym all) ∙ h) in
        let (calls, answered) = extract-eq-ok env config body.text w facts p in
        let end : (analyze env config auth body w) ≡ queue facts (spend w) =
          all ∙ >>=-at-ok extract queue w p ∙ ap (queue facts) calls in
        rw end (
          queued_later w (queue facts (spend w)).1 facts response answered
            (queue-Matches facts (spend w) response (ap (λ r. r.0) (sym end) ∙ h)))
  ]
