-- ===== src/Clients/Chat.antt =====
-- The chat completions that src/relayer/src/routes.rs asks for.
use nautilus_memwal_relayer.Prelude.{
  ℕ, String, ◌<>◌, some, List, [], ◌∷◌, str_eq, ◌&&◌, ◌||◌, not, map, retain, trim, lines, ok_or,
  if◌then◌else◌,
}
use nautilus_memwal_relayer.Types.{AppError, internal, Config}
use nautilus_memwal_relayer.World.Env
use nautilus_memwal_relayer.World.Env.{Env, Reply}
use nautilus_memwal_relayer.World.Action.{Action, ◌>>=◌, lift, pure}
use nautilus_memwal_relayer.World.Calls.{send}
use nautilus_memwal_relayer.Clients.Replies.{receive, json_body, internal_at}

abbrev pub fact_extraction_prompt : String
fact_extraction_prompt =
    "You are a fact extraction system. Given a text or conversation, extract distinct factual statements about the user that are worth remembering for future interactions.\n\nRules:\n- Extract personal preferences, habits, constraints, biographical info, and important facts\n- Each fact should be a single, self-contained statement\n- Skip greetings, small talk, and questions\n- If the text contains no memorable facts, respond with NONE\n- Return one fact per line, no numbering or bullets\n- Be concise but specific\n\nExamples:\nInput: \"I'm allergic to peanuts and I live in Hanoi. What's the weather like?\"\nOutput:\nUser is allergic to peanuts\nUser lives in Hanoi\n\nInput: \"Hey, how are you?\"\nOutput:\nNONE"

-- `choices.first()`, trimmed, or that text
abbrev pub first_choice : String → List String → String
first_choice otherwise [] = otherwise
first_choice otherwise (content ∷ rest) = trim content

-- One fact to a line; blank lines and `NONE` are none.
unfoldable pub facts_of : String → List String
facts_of content =
    if str_eq content "NONE" || str_eq content ""
    then []
    else retain (λ l. not (str_eq l "") && not (str_eq l "NONE")) (map trim (lines content))

module _ (env : Env) (config : Config) where
  -- The request and the reading of its answer, with the two errors' prefixes
  unfoldable pub complete :
      (key_missing send_failed status_failed : String)
      → List (String × String)
      → ℕ
      → Action AppError (List String)
  complete key_missing send_failed status_failed messages temperature = do
    api_key ← lift (ok_or config.openai_api_key (internal key_missing))
    answer ← send env (record {
      url = config.openai_api_base <> "/chat/completions";
      bearer = some api_key;
      payload = Env.chat config.llm_model messages temperature;
    })
    lift (
        receive (internal_at send_failed)
          (λ status body. internal (status_failed <> env.status_text status <> "): " <> body))
          (json_body "Failed to parse LLM response: " env.parse_choices) answer)

  unfoldable pub extract_facts_llm : String → Action AppError (List String)
  unfolding complete facts_of
  extract_facts_llm text = do
    choices ←
        complete "OPENAI_API_KEY required for fact extraction" "LLM API request failed: "
          "LLM API error (" (("system", fact_extraction_prompt) ∷ ("user", text) ∷ []) 1
    pure (facts_of (first_choice "" choices))
