-- ===== src/Routes/AnalyzeQueue.antt =====
-- What the loop over the facts in POST /api/analyze (src/relayer/src/routes.rs) queues.
use mathlib.Core.Path.{subst}
use mathlib.Core.List.{append-nil, append_assoc}
use nautilus_memwal_relayer.Prelude.{
  ◌≡◌, refl, sym, ap, ◌∙◌, String, List, [], ◌∷◌, ◌++◌, map, none, some, All, All-append, ok, arith,
}
use nautilus_memwal_relayer.Types.{AppError, AuthInfo}
use nautilus_memwal_relayer.Db.Jobs.{RememberRow, pending, new_row}
use nautilus_memwal_relayer.Jobs.Types.{PrepareTask}
use nautilus_memwal_relayer.World.State.{World}
use nautilus_memwal_relayer.World.Env.{Env}
use nautilus_memwal_relayer.World.Action.{for_each, pure, ◌>>=◌, ◌>>◌}
use nautilus_memwal_relayer.World.Calls.{query, new_uuid, spawn, spend}
use nautilus_memwal_relayer.World.Rules.{>>=-eq-ok, >>=-at-ok}
use nautilus_memwal_relayer.Routes.Remember.{insert_job}
use nautilus_memwal_relayer.Routes.Analyze.{AnalyzeAcceptedFact, accept_fact, task_of}

-- A row of this caller and namespace that nothing has been done for yet
abbrev pub IsFresh : AuthInfo → String → RememberRow → Type 0
IsFresh auth namespace r =
    (r.owner ≡ auth.owner) × (r.namespace ≡ namespace) × (r.status ≡ pending) × (r.blob_id ≡ none)

-- What accepting some facts adds to the state: a task and a pending row for each, in their order
pub record Queued (auth : AuthInfo) (namespace : String) (w v : World)
    (entries : List AnalyzeAcceptedFact) : Type 0 where
  pub tasks :
      v.spawned
      ≡ w.spawned
        ++ map {B = PrepareTask}
            (λ (f : AnalyzeAcceptedFact). record {
              job_id = f.job_id;
              text = f.text;
              owner = auth.owner;
              namespace = namespace;
              agent_public_key = some auth.public_key;
            })
            entries
  pub added : List RememberRow
  pub rows : v.db.jobs ≡ w.db.jobs ++ added
  pub ids :
      map (λ (r : RememberRow). r.id) added ≡ map (λ (f : AnalyzeAcceptedFact). f.job_id) entries
  pub fresh : All (IsFresh auth namespace) added

map-append : {A B : Type 0} (f : A → B) (xs ys : List A) → map f (xs ++ ys) ≡ map f xs ++ map f ys
map-append f [] ys = refl
map-append f (x ∷ xs) ys = ap (◌∷◌ (f x)) (map-append f xs ys)

insert_job-eq-ok :
    (env : Env) (prefix id owner namespace : String) (w : World) (u : Unit {0})
    → (query env prefix (λ now db. insert_job now id owner namespace db) w).0 ≡ ok u
    → (query env prefix (λ now db. insert_job now id owner namespace db) w).1 ≡ record (spend w) {
      db = record w.db { jobs = w.db.jobs ++ new_row (env.clock w.calls) id owner namespace ∷ [] };
    }
unfolding query insert_job
insert_job-eq-ok env prefix id owner namespace w u h = ground arith

module _ (env : Env) (auth : AuthInfo) (namespace : String) where
  accept_fact-Queued :
      (text : String) (w : World) (fact : AnalyzeAcceptedFact)
      → (accept_fact env auth namespace text w).0 ≡ ok fact
      → (fact.text ≡ text)
        × Queued auth namespace w (accept_fact env auth namespace text w).1 (fact ∷ [])
  unfolding accept_fact new_uuid spawn
  accept_fact-Queued text w fact h =
      let id : String = env.new_uuid w.calls in
      let made : AnalyzeAcceptedFact = record { text = text; id = id; job_id = id } in
      let insert =
        query env "Failed to create analyze job row: "
          (λ now db. insert_job now id auth.owner namespace db) in
      let (u, p, h1) =
        >>=-eq-ok insert (λ _. spawn {E = AppError} (task_of auth namespace made) >> pure made)
          (spend w) h in
      let same : made ≡ fact = cc in
      let stored =
        insert_job-eq-ok env "Failed to create analyze job row: " id auth.owner namespace (spend w)
          u p in
      let after =
        >>=-at-ok insert (λ _. spawn {E = AppError} (task_of auth namespace made) >> pure made)
          (spend w) p in
      subst
        (λ (f : AnalyzeAcceptedFact).
          (f.text ≡ text)
          × Queued auth namespace w (accept_fact env auth namespace text w).1 (f ∷ []))
        same
        (
          refl,
          rw (after, stored)
              (record {
                tasks = refl;
                added = new_row (env.clock (spend w).calls) id auth.owner namespace ∷ [];
                rows = refl;
                ids = refl;
                fresh = ((refl, refl, refl, refl), tt);
              }),
        )

  -- The queue of no facts, and of one more
  pub Queued-nil : (w : World) → Queued auth namespace w w []
  Queued-nil w = record {
    tasks = sym (append-nil w.spawned);
    added = [];
    rows = sym (append-nil w.db.jobs);
    ids = refl;
    fresh = tt;
  }

  Queued-cons :
      (u v w : World) (fact : AnalyzeAcceptedFact) (rest : List AnalyzeAcceptedFact)
      → Queued auth namespace u v (fact ∷ [])
      → Queued auth namespace v w rest
      → Queued auth namespace u w (fact ∷ rest)
  Queued-cons u v w fact rest first more = record {
    tasks =
        more.tasks
        ∙ ap (λ l. l ++ map (task_of auth namespace) rest) first.tasks
        ∙ append_assoc u.spawned _ _;
    added = first.added ++ more.added;
    rows = more.rows ∙ ap (λ l. l ++ more.added) first.rows ∙ append_assoc u.db.jobs _ _;
    ids =
        map-append (λ (r : RememberRow). r.id) first.added more.added
        ∙ ap (λ l. l ++ map (λ (r : RememberRow). r.id) more.added) first.ids
        ∙ ap (◌∷◌ fact.job_id) more.ids;
    fresh = All-append (IsFresh auth namespace) first.added more.added first.fresh more.fresh;
  }

  pub accept-Queued :
      (texts : List String) (w : World) (entries : List AnalyzeAcceptedFact)
      → (for_each (accept_fact env auth namespace) texts w).0 ≡ ok entries
      → (map (λ (f : AnalyzeAcceptedFact). f.text) entries ≡ texts)
        × Queued auth namespace w (for_each (accept_fact env auth namespace) texts w).1 entries
  unfolding for_each
  accept-Queued [] w entries h =
      let none_left : [] ≡ entries = cc in
      subst (λ l. (map (λ (f : AnalyzeAcceptedFact). f.text) l ≡ []) × Queued auth namespace w w l)
        none_left (refl, Queued-nil w)
  accept-Queued (text ∷ texts) w entries h =
      let accept = accept_fact env auth namespace in
      let (fact, p1, h1) = >>=-eq-ok (accept text) _ w h in
      let v : World = (accept text w).1 in
      let (rest, p2, h2) = >>=-eq-ok (for_each accept texts) _ v h1 in
      let (same_text, first) = accept_fact-Queued text w fact p1 in
      let (same_texts, more) = accept-Queued texts v rest p2 in
      let same : (fact ∷ rest) ≡ entries = cc in
      let rest_of = λ (b : AnalyzeAcceptedFact). for_each accept texts >>= (λ bs. pure (b ∷ bs)) in
      let end : (for_each accept (text ∷ texts) w).1 ≡ (for_each accept texts v).1 =
        ap (λ r. r.1)
          (>>=-at-ok (accept text) rest_of w p1
            ∙ >>=-at-ok (for_each accept texts) (λ bs. pure (fact ∷ bs)) v p2) in
      subst
        (λ l.
          (map (λ (f : AnalyzeAcceptedFact). f.text) l ≡ text ∷ texts)
          × Queued auth namespace w (for_each accept (text ∷ texts) w).1 l)
        same
        (
          ap (λ t. t ∷ map (λ (f : AnalyzeAcceptedFact). f.text) rest) same_text
              ∙ ap (◌∷◌ text) same_texts,
          rw end (Queued-cons w v (for_each accept texts v).1 fact rest first more),
        )
