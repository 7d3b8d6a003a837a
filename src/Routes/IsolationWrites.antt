-- ===== src/Routes/IsolationWrites.antt =====
-- POST /api/remember, /api/analyze and GET /api/remember/:job_id (src/relayer/src/routes.rs) leave
-- another owner's rows as they are.
use nautilus_memwal_relayer.Prelude.{inl, inr, String, List, Bool-cases, str_eq, is_empty, arith}
use nautilus_memwal_relayer.Types.{AuthInfo, Config}
use nautilus_memwal_relayer.Db.Vectors.{VectorEntry}
use nautilus_memwal_relayer.World.Env.{Env}
use nautilus_memwal_relayer.World.Action.{for_each}
use nautilus_memwal_relayer.World.Calls.{query, new_uuid, spawn, send}
use nautilus_memwal_relayer.World.Preserves.{Preserves-bind, Preserves-for_each}
use nautilus_memwal_relayer.Clients.Chat.{extract_facts_llm, complete}
use nautilus_memwal_relayer.Routes.Remember.{RememberRequest, remember, remember_status, insert_job}
use nautilus_memwal_relayer.Routes.Analyze.{AnalyzeRequest, accept_fact, analyze}
use nautilus_memwal_relayer.Routes.Untouched.{Apart, Untouched, Leaves}
use nautilus_memwal_relayer.Routes.IsolationReads.{All-any}

module _ (env : Env) (config : Config) (auth : AuthInfo) (owner : String) (rows : List VectorEntry)
    (apart : Apart env auth owner rows) where
  pub Leaves-remember : (body : RememberRequest) → Leaves owner rows (remember env auth body)
  unfolding remember query new_uuid spawn insert_job
  Leaves-remember body w p = ground (arith, p)

  pub Leaves-status : (job_id : String) → Leaves owner rows (remember_status env auth job_id)
  unfolding remember_status query
  Leaves-status job_id w p = ground (arith, p)

  Leaves-accept :
      (namespace text : String) → Leaves owner rows (accept_fact env auth namespace text)
  unfolding accept_fact query new_uuid spawn insert_job
  Leaves-accept namespace text w p = ground (arith, p)

  Leaves-extract : (text : String) → Leaves owner rows (extract_facts_llm env config text)
  unfolding extract_facts_llm complete send
  Leaves-extract text w p = ground (arith, p)

  pub Leaves-analyze : (body : AnalyzeRequest) → Leaves owner rows (analyze env config auth body)
  unfolding analyze
  Leaves-analyze body w p = elim (Bool-cases (str_eq body.text "")) [
    | inl blank ↦ rw blank p
    | inr given ↦ rw given (
        Preserves-bind (Untouched owner rows) (extract_facts_llm env config body.text) _
          (Leaves-extract body.text)
          (λ facts _ _ v q. elim (Bool-cases (is_empty facts)) [
            | inl nothing ↦ rw nothing q
            | inr something ↦ rw something (
                Preserves-bind (Untouched owner rows)
                  (for_each (accept_fact env auth body.namespace) facts) _
                  (Preserves-for_each (Untouched owner rows) (λ _. Unit {0})
                    (accept_fact env auth body.namespace) (λ t _. Leaves-accept body.namespace t)
                    facts (All-any facts))
                  (λ entries _ _ x r. r) v q)
          ])
          w p)
  ]
