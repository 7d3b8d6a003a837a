-- ===== src/Routes/IsolationReads.antt =====
-- POST /api/recall, /api/recall/manual and /api/ask (src/relayer/src/routes.rs) leave another owner's
-- rows as they are.
use nautilus_memwal_relayer.Prelude.{
  ℕ, inl, inr, String, Option, none, List, [], ◌∷◌, Result, ok, err, All, Bool-cases, str_eq,
  is_empty, flatten, unwrap_or, arith,
}
use nautilus_memwal_relayer.Types.{
  AppError, bad_request, unauthorized, internal, blob_not_found, rate_limited, quota_exceeded,
  AuthInfo, Bytes, Config, SearchHit,
}
use nautilus_memwal_relayer.Db.Vectors.{VectorEntry}
use nautilus_memwal_relayer.VectorDb.{search_similar}
use nautilus_memwal_relayer.World.Env.{Env}
use nautilus_memwal_relayer.World.Action.{Action, ◌>>=◌, ◌>>◌, pure, lift, attempt, for_each}
use nautilus_memwal_relayer.World.Calls.{send}
use nautilus_memwal_relayer.World.Preserves.{Preserves-bind, Preserves-for_each}
use nautilus_memwal_relayer.Clients.Walrus.{download_blob}
use nautilus_memwal_relayer.Clients.Seal.{seal_decrypt}
use nautilus_memwal_relayer.Clients.Embeddings.{generate_embedding}
use nautilus_memwal_relayer.Clients.Chat.{complete}
use nautilus_memwal_relayer.Routes.Recall
use nautilus_memwal_relayer.Routes.Recall.{
  RecallRequest, RecallManualRequest, RecallResult, cleanup_expired_blob, fetch_memory, recall,
  recall_with, recall_manual, decryption_key, is_permanent,
}
use nautilus_memwal_relayer.Routes.Ask
use nautilus_memwal_relayer.Routes.Ask.{AskRequest, AskResponse, read_memory, answer_with, ask}
use nautilus_memwal_relayer.Routes.Untouched.{
  Apart, Untouched, Leaves, Leaves-download, Leaves-decrypt, Leaves-embedding, Leaves-search,
  Leaves-cleanup,
}

-- A list of anything
pub All-any {ℓ} : {A : Type ℓ} (xs : List A) → All (λ x. Unit {0}) xs
All-any [] = tt
All-any (x ∷ xs) = (tt, All-any xs)

module _ (env : Env) (config : Config) (auth : AuthInfo) (owner : String) (rows : List VectorEntry)
    (apart : Apart env auth owner rows) where
  Leaves-drop :
      (blob_id : String)
      → Leaves owner rows (
          cleanup_expired_blob env {E = AppError} blob_id auth.owner
          >> pure {E = AppError} {A = Option RecallResult} none)
  Leaves-drop blob_id =
      Preserves-bind (Untouched owner rows)
        (cleanup_expired_blob env {E = AppError} blob_id auth.owner) (λ _. pure none)
        (Leaves-cleanup owner rows env auth apart blob_id) (λ _ _ _ w p. p)

  module _ (private_key : String) where
    Leaves-after_decrypt :
        (hit : SearchHit) (r : Result AppError Bytes)
        → Leaves owner rows (Recall.after_decrypt env config auth private_key hit r)
    Leaves-after_decrypt hit (ok plaintext) w p = ground (arith, p)
    Leaves-after_decrypt hit (err e) w p = elim (Bool-cases (is_permanent e)) [
      | inl lasting ↦ rw lasting (Leaves-drop hit.blob_id w p)
      | inr passing ↦ rw passing p
    ]

    -- What follows a download, for what follows its decryption
    Leaves-after_read :
        (hit : SearchHit) (r : Result AppError Bytes)
        → Leaves owner rows (Recall.after_read env config auth private_key hit r)
    Leaves-after_read hit (ok encrypted) =
        Preserves-bind (Untouched owner rows)
          (attempt
            (seal_decrypt env config encrypted private_key config.package_id auth.account_id))
          (Recall.after_decrypt env config auth private_key hit)
          (Leaves-decrypt owner rows env config encrypted private_key config.package_id
            auth.account_id)
          (λ r _ _. Leaves-after_decrypt hit r)
    Leaves-after_read hit (err (blob_not_found msg)) = Leaves-drop hit.blob_id
    Leaves-after_read hit (err (bad_request msg)) = λ w p. p
    Leaves-after_read hit (err (unauthorized msg)) = λ w p. p
    Leaves-after_read hit (err (internal msg)) = λ w p. p
    Leaves-after_read hit (err (rate_limited msg)) = λ w p. p
    Leaves-after_read hit (err (quota_exceeded msg)) = λ w p. p

    Leaves-fetch :
        (hit : SearchHit) → Leaves owner rows (fetch_memory env config auth private_key hit)
    unfolding fetch_memory
    Leaves-fetch hit =
        Preserves-bind (Untouched owner rows) (attempt (download_blob env hit.blob_id))
          (Recall.after_read env config auth private_key hit)
          (Leaves-download owner rows env hit.blob_id) (λ r _ _. Leaves-after_read hit r)

    Leaves-ask_decrypt :
        (hit : SearchHit) (r : Result AppError Bytes)
        → Leaves owner rows (Ask.after_decrypt env config auth private_key hit r)
    Leaves-ask_decrypt hit (ok plaintext) w p = ground (arith, p)
    Leaves-ask_decrypt hit (err e) w p = p

    Leaves-ask_read :
        (hit : SearchHit) (r : Result AppError Bytes)
        → Leaves owner rows (Ask.after_read env config auth private_key hit r)
    Leaves-ask_read hit (ok encrypted) =
        Preserves-bind (Untouched owner rows)
          (attempt
            (seal_decrypt env config encrypted private_key config.package_id auth.account_id))
          (Ask.after_decrypt env config auth private_key hit)
          (Leaves-decrypt owner rows env config encrypted private_key config.package_id
            auth.account_id)
          (λ r _ _. Leaves-ask_decrypt hit r)
    Leaves-ask_read hit (err (blob_not_found msg)) = Leaves-drop hit.blob_id
    Leaves-ask_read hit (err (bad_request msg)) = λ w p. p
    Leaves-ask_read hit (err (unauthorized msg)) = λ w p. p
    Leaves-ask_read hit (err (internal msg)) = λ w p. p
    Leaves-ask_read hit (err (rate_limited msg)) = λ w p. p
    Leaves-ask_read hit (err (quota_exceeded msg)) = λ w p. p

    Leaves-read :
        (hit : SearchHit) → Leaves owner rows (read_memory env config auth private_key hit)
    unfolding read_memory
    Leaves-read hit =
        Preserves-bind (Untouched owner rows) (attempt (download_blob env hit.blob_id))
          (Ask.after_read env config auth private_key hit)
          (Leaves-download owner rows env hit.blob_id) (λ r _ _. Leaves-ask_read hit r)

  Leaves-recall_with :
      (body : RecallRequest) (private_key : String)
      → Leaves owner rows (recall_with env config auth body private_key)
  unfolding recall_with
  Leaves-recall_with body private_key =
      let fetch = fetch_memory env config auth private_key in
      Preserves-bind (Untouched owner rows) (generate_embedding env config body.query) _
        (Leaves-embedding owner rows env config body.query)
        (λ vector _ _.
          Preserves-bind (Untouched owner rows)
            (search_similar env vector auth.owner body.namespace body.limit) _
            (Leaves-search owner rows env vector auth.owner body.namespace body.limit)
            (λ hits _ _.
              Preserves-bind (Untouched owner rows) (for_each fetch hits) _
                (Preserves-for_each (Untouched owner rows) (λ _. Unit {0}) fetch
                  (λ hit _. Leaves-fetch private_key hit) hits (All-any hits))
                (λ fetched _ _ w p. p)))

  pub Leaves-recall : (body : RecallRequest) → Leaves owner rows (recall env config auth body)
  unfolding recall
  Leaves-recall body w p = elim (Bool-cases (str_eq body.query "")) [
    | inl blank ↦ rw blank p
    | inr given ↦ rw given (
        Preserves-bind (Untouched owner rows) (lift (decryption_key auth config _))
          (recall_with env config auth body) (λ v q. q) (λ key _ _. Leaves-recall_with body key) w
          p)
  ]

  pub Leaves-recall_manual :
      (body : RecallManualRequest) → Leaves owner rows (recall_manual env auth body)
  unfolding recall_manual
  Leaves-recall_manual body w p = elim (Bool-cases (is_empty body.vector)) [
    | inl blank ↦ rw blank p
    | inr given ↦ rw given (
        Preserves-bind (Untouched owner rows)
          (search_similar env body.vector auth.owner body.namespace body.limit) _
          (Leaves-search owner rows env body.vector auth.owner body.namespace body.limit)
          (λ hits _ _ v q. q) w p)
  ]

  abbrev with_hits : AskRequest → List SearchHit → Action AppError AskResponse
  with_hits body hits = do
    private_key ← lift (
        decryption_key auth config
          "Delegate key or SERVER_SUI_PRIVATE_KEY required for SEAL decryption")
    fetched ← for_each (read_memory env config auth private_key) hits
    answer_with env config auth body (flatten fetched)

  Leaves-complete :
      (key_missing send_failed status_failed : String) (messages : List (String × String))
      (temperature : ℕ)
      → Leaves owner rows
          (complete env config key_missing send_failed status_failed messages temperature)
  unfolding complete send
  Leaves-complete key_missing send_failed status_failed messages temperature w p = ground (arith, p)

  Leaves-answer :
      (body : AskRequest) (memories : List RecallResult)
      → Leaves owner rows (answer_with env config auth body memories)
  unfolding answer_with
  Leaves-answer body memories =
      let prompt = λ (ms : List RecallResult).
        ("system", Ask.system_prompt env (Ask.memory_context env ms))
        ∷ ("user", body.question)
        ∷ [] in
      Preserves-bind (Untouched owner rows)
        (complete env config "OPENAI_API_KEY required for /api/ask" "LLM request failed: "
          "LLM error (" (prompt memories) 7)
        _ (Leaves-complete _ _ _ (prompt memories) 7) (λ choices _ _ w p. p)

  -- What follows the search
  Leaves-hits :
      (body : AskRequest) (hits : List SearchHit) → Leaves owner rows (with_hits body hits)
  Leaves-hits body hits =
      Preserves-bind (Untouched owner rows)
        (lift (
          decryption_key auth config
            "Delegate key or SERVER_SUI_PRIVATE_KEY required for SEAL decryption"))
        _ (λ w p. p)
        (λ key _ _.
          let read = read_memory env config auth key in
          Preserves-bind (Untouched owner rows) (for_each read hits)
            (λ fetched. answer_with env config auth body (flatten fetched))
            (Preserves-for_each (Untouched owner rows) (λ _. Unit {0}) read
              (λ hit _. Leaves-read key hit) hits (All-any hits))
            (λ fetched _ _. Leaves-answer body (flatten fetched)))

  pub Leaves-ask : (body : AskRequest) → Leaves owner rows (ask env config auth body)
  unfolding ask
  Leaves-ask body w p = elim (Bool-cases (str_eq body.question "")) [
    | inl blank ↦ rw blank p
    | inr given ↦ rw given (
        Preserves-bind (Untouched owner rows) (generate_embedding env config body.question) _
          (Leaves-embedding owner rows env config body.question)
          (λ vector _ _.
            let limit = unwrap_or body.limit 5 in
            Preserves-bind (Untouched owner rows)
              (search_similar env vector auth.owner body.namespace limit) _
              (Leaves-search owner rows env vector auth.owner body.namespace limit)
              (λ hits _ _. Leaves-hits body hits))
          w p)
  ]
