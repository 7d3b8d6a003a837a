-- ===== src/Routes/Analyze.antt =====
-- POST /api/analyze of src/relayer/src/routes.rs.
use nautilus_memwal_relayer.Prelude.{
  ℕ, String, some, List, [], map, length, is_empty, str_eq, if◌then◌else◌,
}
use nautilus_memwal_relayer.Types.{AppError, bad_request, AuthInfo, Config}
use nautilus_memwal_relayer.Jobs.Types.{PrepareTask}
use nautilus_memwal_relayer.World.Env.{Env}
use nautilus_memwal_relayer.World.Action.{Action, ◌>>=◌, ◌>>◌, pure, fail, for_each}
use nautilus_memwal_relayer.World.Calls.{query, new_uuid, spawn}
use nautilus_memwal_relayer.Clients.Chat.{extract_facts_llm}
use nautilus_memwal_relayer.Routes.Remember.{insert_job}

pub record AnalyzeRequest : Type 0 where
  pub text : String
  pub namespace : String

pub record AnalyzeAcceptedFact : Type 0 where
  pub text : String
  pub id : String
  pub job_id : String

pub record AnalyzeAcceptedResponse : Type 0 where
  pub job_ids : List String
  pub facts : List AnalyzeAcceptedFact
  pub fact_count : ℕ
  pub status : String
  pub owner : String

-- The response to those accepted facts
abbrev pub accepted : String → List AnalyzeAcceptedFact → AnalyzeAcceptedResponse
accepted owner facts =
    let job_ids = map (λ (f : AnalyzeAcceptedFact). f.job_id) facts in
    record {
      job_ids = job_ids;
      facts = facts;
      fact_count = length job_ids;
      status = "pending";
      owner = owner;
    }

-- What is spawned for a fact
abbrev pub task_of : AuthInfo → String → AnalyzeAcceptedFact → PrepareTask
task_of auth namespace fact = record {
  job_id = fact.job_id;
  text = fact.text;
  owner = auth.owner;
  namespace = namespace;
  agent_public_key = some auth.public_key;
}

module _ (env : Env) where
  -- One round of the loop: the row, then the task
  unfoldable pub accept_fact : AuthInfo → String → String → Action AppError AnalyzeAcceptedFact
  unfolding insert_job
  accept_fact auth namespace fact_text = do
    job_id ← new_uuid env
    query env "Failed to create analyze job row: "
        (λ now db. insert_job now job_id auth.owner namespace db)
    let fact : AnalyzeAcceptedFact = record { text = fact_text; id = job_id; job_id = job_id }
    spawn (task_of auth namespace fact)
    pure fact

  unfoldable pub analyze :
      Config → AuthInfo → AnalyzeRequest → Action AppError AnalyzeAcceptedResponse
  unfolding accept_fact for_each
  analyze config auth body =
      if str_eq body.text "" then fail (bad_request "Text cannot be empty") else do
        facts ← extract_facts_llm env config body.text
        if is_empty facts then pure (accepted auth.owner []) else do
          entries ← for_each (accept_fact auth body.namespace) facts
          pure (accepted auth.owner entries)
