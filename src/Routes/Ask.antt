-- ===== src/Routes/Ask.antt =====
-- POST /api/ask of src/relayer/src/routes.rs. The downloads, which the source runs at once, run here in
-- the order of the hits.
use nautilus_memwal_relayer.Prelude.{
  ℕ, String, ◌<>◌, Option, none, some, List, [], ◌∷◌, Result, ok, err, map, length, is_empty,
  flatten, unwrap_or, str_eq, if◌then◌else◌,
}
use nautilus_memwal_relayer.Types.{
  AppError, bad_request, blob_not_found, AuthInfo, Bytes, Config, SearchHit,
}
use nautilus_memwal_relayer.VectorDb.{search_similar}
use nautilus_memwal_relayer.World.Env.{Env}
use nautilus_memwal_relayer.World.Action.{Action, ◌>>=◌, ◌>>◌, pure, fail, lift, attempt, for_each}
use nautilus_memwal_relayer.Clients.Walrus.{download_blob}
use nautilus_memwal_relayer.Clients.Seal.{seal_decrypt}
use nautilus_memwal_relayer.Clients.Embeddings.{generate_embedding}
use nautilus_memwal_relayer.Clients.Chat.{complete, first_choice}
use nautilus_memwal_relayer.Routes.Recall.{RecallResult, decryption_key, cleanup_expired_blob}

pub record AskRequest : Type 0 where
  pub question : String
  pub limit : Option ℕ
  pub namespace : String

pub record AskResponse : Type 0 where
  pub answer : String
  pub memories_used : ℕ
  pub memories : List RecallResult

abbrev pub join_lines : List String → String
join_lines [] = ""
join_lines (l ∷ []) = l
join_lines (l ∷ m ∷ rest) = l <> "\n" <> join_lines (m ∷ rest)

module _ (env : Env) where
  abbrev pub memory_line : RecallResult → String
  memory_line m = "- " <> m.text <> " (relevance: " <> env.relevance_text m.distance <> ")"

  unfoldable pub memory_context : List RecallResult → String
  memory_context memories =
      if is_empty memories
      then "No memories found for this user yet."
      else "Known facts about this user:\n" <> join_lines (map memory_line memories)

  abbrev pub system_prompt : String → String
  system_prompt context =
      "You are a helpful AI assistant with access to the user's personal memories stored in memwal. Use the following context to provide personalized answers. If the memories don't contain relevant information, say so honestly.\n\n"
      <> context

  module _ (config : Config) (auth : AuthInfo) (private_key : String) where
    -- Unlike in `recall`, a decryption that fails deletes nothing.
    abbrev pub after_decrypt :
        SearchHit → Result AppError Bytes → Action AppError (Option RecallResult)
    after_decrypt hit (err e) = pure none
    after_decrypt hit (ok plaintext) = elim (env.from_utf8 plaintext) [
      | ok text ↦
          pure (some (record { blob_id = hit.blob_id; text = text; distance = hit.distance }))
      | err e ↦ pure none
    ]

    abbrev pub after_read :
        SearchHit → Result AppError Bytes → Action AppError (Option RecallResult)
    after_read hit (ok encrypted) = do
      decrypted ←
          attempt (seal_decrypt env config encrypted private_key config.package_id auth.account_id)
      after_decrypt hit decrypted
    after_read hit (err (blob_not_found msg)) =
        cleanup_expired_blob env hit.blob_id auth.owner >> pure none
    after_read hit (err e) = pure none

    -- The task of one hit
    unfoldable pub read_memory : SearchHit → Action AppError (Option RecallResult)
    read_memory hit = do
      downloaded ← attempt (download_blob env hit.blob_id)
      after_read hit downloaded

  module _ (config : Config) (auth : AuthInfo) (body : AskRequest) where
    -- Steps 2 and 3
    unfoldable pub answer_with : List RecallResult → Action AppError AskResponse
    unfolding memory_context complete
    answer_with memories = do
      choices ←
          complete env config "OPENAI_API_KEY required for /api/ask" "LLM request failed: "
            "LLM error ("
            (("system", system_prompt (memory_context memories)) ∷ ("user", body.question) ∷ []) 7
      pure (record {
        answer = first_choice "No response from LLM" choices;
        memories_used = length memories;
        memories = memories;
      })

    unfoldable pub ask : Action AppError AskResponse
    unfolding answer_with read_memory for_each
    ask = if str_eq body.question "" then fail (bad_request "Question cannot be empty") else do
      query_vector ← generate_embedding env config body.question
      hits ← search_similar env query_vector auth.owner body.namespace (unwrap_or body.limit 5)
      private_key ← lift (
          decryption_key auth config
            "Delegate key or SERVER_SUI_PRIVATE_KEY required for SEAL decryption")
      fetched ← for_each (read_memory config auth private_key) hits
      answer_with (flatten fetched)
