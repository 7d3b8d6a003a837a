-- ===== src/Clients/ChatRules.antt =====
-- What the calls of the model (src/relayer/src/routes.rs) give.
use nautilus_memwal_relayer.Prelude.{
  ℕ, ◌≡◌, refl, sym, ap, ◌∙◌, inl, inr, String, ◌<>◌, ◌&&◌, not, some, retain, List, [], ◌∷◌, map,
  ok, trim, is_whitespace, lines, str_eq, eq_iff, Bool-cases, Option-cases, arith,
}
use nautilus_memwal_relayer.Types.{AppError, internal, Config}
use nautilus_memwal_relayer.World.State.{World}
use nautilus_memwal_relayer.World.Env
use nautilus_memwal_relayer.World.Env.{Env, Request, Reply, unreachable, reply}
use nautilus_memwal_relayer.World.Action.{pure}
use nautilus_memwal_relayer.World.Calls.{spend, send}
use nautilus_memwal_relayer.World.Rules.{>>=-eq-ok, >>=-at-ok}
use nautilus_memwal_relayer.Clients.Replies.{receive, json_body, internal_at}
use nautilus_memwal_relayer.Clients.Chat.{
  facts_of, extract_facts_llm, complete, first_choice, fact_extraction_prompt,
}

-- The text of the first choice, trimmed; without a choice there is none.
abbrev pub IsContent : List String → String → Type 0
IsContent [] content = content ≡ ""
IsContent (choice ∷ rest) content = content ≡ trim choice

-- The texts are what the model's reply to that call, which asks for the facts of a text, says: the trimmed lines of its first choice, in
-- their order, but for the blank ones and NONE.
abbrev pub AreAnswered : Env → Config → String → ℕ → List String → Type 0
AreAnswered env config text n texts =
    (key : String) × (status : ℕ) × (body : String) × (choices : List String) × (content : String)
    × (config.openai_api_key ≡ some key)
    × (env.http n (record {
      url = config.openai_api_base <> "/chat/completions";
      bearer = some key;
      payload =
          Env.chat config.llm_model (("system", fact_extraction_prompt) ∷ ("user", text) ∷ []) 1;
    })
        ≡ reply status body)
    × (env.parse_choices body ≡ ok choices)
    × IsContent choices content
    × (texts ≡ retain (λ l. not (str_eq l "") && not (str_eq l "NONE")) (map trim (lines content)))

nothing_said :
    retain (λ l. not (str_eq l "") && not (str_eq l "NONE")) (map trim (lines "NONE")) ≡ []
unfolding lines trim is_whitespace
nothing_said = refl

facts_of-lines :
    (content : String)
    → facts_of content
      ≡ retain (λ l. not (str_eq l "") && not (str_eq l "NONE")) (map trim (lines content))
unfolding facts_of lines
facts_of-lines content = elim (Bool-cases (str_eq content "NONE")) [
  | inl none_said ↦
      let same : content ≡ "NONE" = (eq_iff content "NONE").0 none_said in
      rw same (sym nothing_said)
  | inr said ↦ elim (Bool-cases (str_eq content "")) [
    | inl blank ↦ let same : content ≡ "" = (eq_iff content "").0 blank in rw same refl
    | inr given ↦ rw (said, given) refl
  ]
]

first_choice-IsContent : (choices : List String) → IsContent choices (first_choice "" choices)
first_choice-IsContent [] = refl
first_choice-IsContent (choice ∷ rest) = refl

received :
    (sent : String → AppError) (failed : ℕ → String → AppError) (env : Env) (prefix : String)
    (answer : Reply) (choices : List String)
    → receive sent failed (json_body prefix env.parse_choices) answer ≡ ok choices
    → (status : ℕ) × (body : String) × (answer ≡ reply status body)
      × (env.parse_choices body ≡ ok choices)
received sent failed env prefix (unreachable e) choices h = cc
received sent failed env prefix (reply status body) choices h =
    (status, body, refl, ground (arith, h))

-- The request that a completion sends
abbrev asks : Config → String → List (String × String) → ℕ → Request
asks config key messages temperature = record {
  url = config.openai_api_base <> "/chat/completions";
  bearer = some key;
  payload = Env.chat config.llm_model messages temperature;
}

complete-eq-ok :
    (env : Env) (config : Config) (key_missing send_failed status_failed : String)
    (messages : List (String × String)) (temperature : ℕ) (w : World) (choices : List String)
    → let done = complete env config key_missing send_failed status_failed messages temperature w in
      done.0 ≡ ok choices
      → (done.1 ≡ spend w)
        × ((key : String) × (status : ℕ) × (body : String) × (config.openai_api_key ≡ some key)
            × (env.http w.calls (asks config key messages temperature) ≡ reply status body)
            × (env.parse_choices body ≡ ok choices))
unfolding complete send
complete-eq-ok env config key_missing send_failed status_failed messages temperature w choices h =
    elim (Option-cases config.openai_api_key) [
      | inl e ↦ (let failed : ⊥ = ground (arith, e, h) in absurd failed)
      | inr (key, e) ↦
          let request = asks config key messages temperature in
          let (status, body, replied, parsed) =
            received (internal_at send_failed)
              (λ status body. internal (status_failed <> env.status_text status <> "): " <> body))
              env "Failed to parse LLM response: " (env.http w.calls request) choices
              (ground (arith, e, h)) in
          (ground (arith, e, h), (key, status, body, e, replied, parsed))
    ]

-- The call of the model changes nothing but its number, and gives the facts of its reply.
pub extract-eq-ok :
    (env : Env) (config : Config) (text : String) (w : World) (facts : List String)
    → (extract_facts_llm env config text w).0 ≡ ok facts
    → ((extract_facts_llm env config text w).1 ≡ spend w)
      × AreAnswered env config text w.calls facts
unfolding extract_facts_llm
extract-eq-ok env config text w facts h =
    let ask =
      complete env config "OPENAI_API_KEY required for fact extraction" "LLM API request failed: "
        "LLM API error (" (("system", fact_extraction_prompt) ∷ ("user", text) ∷ []) 1 in
    let (choices, p, h1) = >>=-eq-ok ask (λ cs. pure (facts_of (first_choice "" cs))) w h in
    let same : facts ≡ facts_of (first_choice "" choices) = cc in
    let (spent, (key, status, body, keyed, replied, parsed)) =
      complete-eq-ok env config _ _ _ _ _ w choices p in
    (
      ap (λ r. r.1) (>>=-at-ok ask (λ cs. pure (facts_of (first_choice "" cs))) w p) ∙ spent,
      (
        key,
        status,
        body,
        choices,
        first_choice "" choices,
        keyed,
        replied,
        parsed,
        first_choice-IsContent choices,
        same ∙ facts_of-lines (first_choice "" choices),
      ),
    )
