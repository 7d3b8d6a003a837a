-- ===== src/Routes/IsolationBulk.antt =====
-- POST /api/remember/bulk (src/relayer/src/routes.rs) leaves another owner's rows as they are.
use mathlib.Core.Path.{subst}
use nautilus_memwal_relayer.Prelude.{
  ℕ, ◌≡◌, inl, inr, String, none, List, [], ◌∷◌, Result, ok, All, Bool-cases, is_empty, length, ltb,
}
use nautilus_memwal_relayer.Types.{AppError, AuthInfo, Bytes, Config}
use nautilus_memwal_relayer.Db.Vectors.{VectorEntry}
use nautilus_memwal_relayer.VectorDb.{insert_vector, insert_remember_job, complete_remember_job}
use nautilus_memwal_relayer.World.State.{World}
use nautilus_memwal_relayer.World.Env.{Env}
use nautilus_memwal_relayer.World.Action.{Action, ◌>>=◌, pure, lift, attempt, for_each}
use nautilus_memwal_relayer.World.Calls.{new_uuid}
use nautilus_memwal_relayer.World.Rules.{>>=-eq-ok}
use nautilus_memwal_relayer.World.Preserves.{Preserves-bind, Preserves-for_each}
use nautilus_memwal_relayer.Clients.Walrus.{upload_blob}
use nautilus_memwal_relayer.Routes.Prepare.{require_key, embed_and_encrypt}
use nautilus_memwal_relayer.Routes.Bulk.{
  RememberBulkItem, RememberBulkResponse, remember_bulk, remember_item, new_ids, zip, check_items,
  max_bulk_items,
}
use nautilus_memwal_relayer.Routes.Untouched.{
  Apart, IsMade, Untouched, Leaves, Leaves-new_uuid, new_uuid-IsMade, Leaves-require_key,
  Leaves-upload, Leaves-embed_and_encrypt, Leaves-complete, Leaves-insert_job,
}
use nautilus_memwal_relayer.Routes.IsolationReads.{All-any}
use nautilus_memwal_relayer.Routes.IsolationManual.{Leaves-stored}

module _ (env : Env) (config : Config) (auth : AuthInfo) (owner : String) (rows : List VectorEntry)
    (apart : Apart env auth owner rows) where
  Leaves-item :
      (item : String × RememberBulkItem)
      → IsMade env item.0
      → Leaves owner rows (remember_item env config auth.owner item)
  unfolding remember_item
  Leaves-item (id, item) new =
      Preserves-bind (Untouched owner rows) (require_key "No Sui keys configured") _
        (Leaves-require_key owner rows "No Sui keys configured")
        (λ key_index _ _.
          Preserves-bind (Untouched owner rows) (embed_and_encrypt env config item.text auth.owner)
            _ (Leaves-embed_and_encrypt owner rows env config item.text auth.owner)
            (λ (made : List ℕ × Bytes) _ _.
              let encrypted = made.1 in
              Preserves-bind (Untouched owner rows)
                (upload_blob env config encrypted 50 auth.owner key_index item.namespace
                  config.package_id none)
                _
                (Leaves-upload owner rows env config encrypted 50 auth.owner key_index
                  item.namespace config.package_id none)
                (λ upload _ _.
                  Preserves-bind (Untouched owner rows) (insert_vector env _)
                    (λ _. complete_remember_job env id upload.blob_id)
                    (Leaves-stored env config auth owner rows apart id item.namespace upload.blob_id
                      made.0 (length encrypted) new)
                    (λ _ _ _. Leaves-complete owner rows env id upload.blob_id))))

  -- The ids of the items are made by the environment.
  new_ids-IsMade :
      (items : List RememberBulkItem) (w : World) (ids : List String)
      → (for_each (λ (item : RememberBulkItem). new_uuid env {E = AppError}) items w).0 ≡ ok ids
      → All (IsMade env) ids
  unfolding for_each
  new_ids-IsMade [] w ids h = let none_made : [] ≡ ids = cc in subst (All (IsMade env)) none_made tt
  new_ids-IsMade (item ∷ items) w ids h =
      let make = λ (i : RememberBulkItem). new_uuid env {E = AppError} in
      let (id, p1, h1) = >>=-eq-ok (make item) _ w h in
      let v : World = (make item w).1 in
      let (rest, p2, h2) = >>=-eq-ok (for_each make items) _ v h1 in
      let same : (id ∷ rest) ≡ ids = cc in
      subst (All (IsMade env)) same
        (new_uuid-IsMade owner rows env w id p1, new_ids-IsMade items v rest p2)

  All-zip :
      (ids : List String) (items : List RememberBulkItem)
      → All (IsMade env) ids
      → All (λ (p : String × RememberBulkItem). IsMade env p.0) (zip ids items)
  All-zip [] items h = tt
  All-zip (id ∷ ids) [] h = tt
  All-zip (id ∷ ids) (item ∷ items) h = (h.0, All-zip ids items h.1)

  Leaves-new_ids : (items : List RememberBulkItem) → Leaves owner rows (new_ids env items)
  unfolding new_ids
  Leaves-new_ids items =
      Preserves-for_each (Untouched owner rows) (λ _. Unit {0})
        (λ item. new_uuid env {E = AppError}) (λ item _. Leaves-new_uuid owner rows env) items
        (All-any items)

  abbrev insert_item : String × RememberBulkItem → Action AppError Unit
  insert_item p = insert_remember_job env p.0 auth.owner p.1.namespace

  abbrev attempt_item : String × RememberBulkItem → Action AppError (Result AppError Unit)
  attempt_item p = attempt {E = AppError} {F = AppError} (remember_item env config auth.owner p)

  -- After the checks, with the ids
  abbrev run_items : List RememberBulkItem → List String → Action AppError RememberBulkResponse
  run_items items job_ids = do
    _ ← for_each insert_item (zip job_ids items)
    _ ← for_each attempt_item (zip job_ids items)
    pure (record { job_ids = job_ids; total = length items; status = "accepted" })

  Leaves-items :
      (items : List RememberBulkItem) (ids : List String)
      → All (IsMade env) ids
      → Leaves owner rows (run_items items ids)
  Leaves-items items ids new =
      let pairs = zip ids items in
      Preserves-bind (Untouched owner rows) (for_each (insert_item) pairs) _
        (Preserves-for_each (Untouched owner rows) (λ _. Unit {0}) insert_item
          (λ (p : String × RememberBulkItem) _.
            Leaves-insert_job owner rows env p.0 auth.owner p.1.namespace)
          pairs (All-any pairs))
        (λ _ _ _.
          Preserves-bind (Untouched owner rows) (for_each attempt_item pairs) _
            (Preserves-for_each (Untouched owner rows)
              (λ (p : String × RememberBulkItem). IsMade env p.0) attempt_item
              (λ p n. Leaves-item p n) pairs (All-zip ids items new))
            (λ _ _ _ w q. q))

  pub Leaves-bulk :
      (items : List RememberBulkItem) → Leaves owner rows (remember_bulk env config auth items)
  unfolding remember_bulk new_ids
  Leaves-bulk items w p = elim (Bool-cases (is_empty items)) [
    | inl nothing ↦ rw nothing p
    | inr something ↦ rw something (elim (Bool-cases (ltb max_bulk_items (length items))) [
      | inl many ↦ rw many p
      | inr few ↦ rw few (
          Preserves-bind (Untouched owner rows) (lift (check_items 0 items))
            (λ _. new_ids env items >>= run_items items) (λ v q. q)
            (λ _ _ _.
              Preserves-bind (Untouched owner rows) (new_ids env items) (run_items items)
                (Leaves-new_ids items)
                (λ ids v made. Leaves-items items ids (new_ids-IsMade items v ids made)))
            w p)
    ])
  ]
