-- ===== src/Clients/Embeddings.antt =====
-- `generate_embedding` of src/relayer/src/routes.rs.
use nautilus_memwal_relayer.Prelude.{
  String, ◌<>◌, List, [], ◌∷◌, Result, ok, err, or_option, unwrap_or,
}
use nautilus_memwal_relayer.Types.{AppError, internal, Embedding, Config}
use nautilus_memwal_relayer.World.Env
use nautilus_memwal_relayer.World.Env.{Env}
use nautilus_memwal_relayer.World.Action.{Action, ◌>>=◌, lift}
use nautilus_memwal_relayer.World.Calls.{send}
use nautilus_memwal_relayer.Clients.Replies.{receive, json_body, internal_at}

-- `.into_iter().next().ok_or_else(…)`
abbrev first_embedding : List Embedding → Result AppError Embedding
first_embedding [] = err (internal "Embedding API returned no data")
first_embedding (vector ∷ rest) = ok vector

unfoldable pub generate_embedding : Env → Config → String → Action AppError Embedding
generate_embedding env config text = do
  answer ← send env (record {
    url = unwrap_or config.embedding_api_base config.openai_api_base <> "/embeddings";
    bearer = or_option config.embedding_api_key config.openai_api_key;
    payload = Env.embeddings config.embedding_model text config.embedding_dimensions;
  })
  vectors ← lift (
      receive (internal_at "Embedding API request failed: ")
        (λ status body.
          internal ("Embedding API error (" <> env.status_text status <> "): " <> body))
        (json_body "Failed to parse embedding response: " env.parse_embeddings) answer)
  lift (first_embedding vectors)
