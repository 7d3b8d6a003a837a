-- ===== src/Tests/RouteRuns.antt =====
-- Analysing, truncating and reading settings at concrete inputs.
use text.Mathlib.Text.{is_char_boundary}
use text.Mathlib.TextBridge.{IsPrefix}
use nautilus_memwal_relayer.Prelude.{
  ℕ, ◌≡◌, ◌≤◌, ◌⊎◌, refl, String, true, none, some, length, List, [], ◌∷◌, ok, All, len, trim,
  lines, is_whitespace,
}
use nautilus_memwal_relayer.Types.{Config, SearchHit}
use nautilus_memwal_relayer.Types.Settings.{parse_keys}
use nautilus_memwal_relayer.Types.KeyList.{IsKey, join_commas, has_comma, parse_keys-join_commas}
use nautilus_memwal_relayer.Db.Vectors.{search, delete_blob}
use nautilus_memwal_relayer.Db.Jobs.{row}
use nautilus_memwal_relayer.VectorDb.{search_similar}
use nautilus_memwal_relayer.World.Env.{Env, reply}
use nautilus_memwal_relayer.World.Action.{for_each}
use nautilus_memwal_relayer.World.Calls.{query, new_uuid, spawn, send, read_blob}
use nautilus_memwal_relayer.Clients.Chat.{extract_facts_llm, complete, facts_of}
use nautilus_memwal_relayer.Clients.Embeddings.{generate_embedding}
use nautilus_memwal_relayer.Clients.Seal.{seal_decrypt}
use nautilus_memwal_relayer.Clients.Walrus.{download_blob}
use nautilus_memwal_relayer.Routes.Recall.{fetch_memory}
use nautilus_memwal_relayer.Routes.RecallScope.{OfRow}
use nautilus_memwal_relayer.Routes.Ask.{AskRequest, AskResponse, read_memory, answer_with, ask}
use nautilus_memwal_relayer.Routes.AskScope.{read_memory-fetch_memory, ask-IsScoped}
use nautilus_memwal_relayer.Routes.Remember.{insert_job}
use nautilus_memwal_relayer.Routes.Analyze.{
  AnalyzeRequest, AnalyzeAcceptedResponse, analyze, accept_fact, accepted,
}
use nautilus_memwal_relayer.Routes.AnalyzeRules.{Listed, analyze-Listed}
use nautilus_memwal_relayer.Routes.Truncate.{truncate_str, truncate_str-longest}
use nautilus_memwal_relayer.Tests.Sample.{env, config, auth, world, rows}

-- A model that answers with one fact
abbrev chat_env : Env
chat_env = record env {
  http = λ n request. reply 200 "";
  parse_choices = λ s. ok ("likes tea" ∷ []);
}

abbrev chat_config : Config
chat_config = record config { openai_api_key = some "k" }

abbrev body : AnalyzeRequest
body = record { text = "I like tea"; namespace = "notes" }

abbrev response : AnalyzeAcceptedResponse
response = accepted "alice" (record { text = "likes tea"; id = "fresh"; job_id = "fresh" } ∷ [])

analyzed : (analyze chat_env chat_config auth body world).0 ≡ ok response
unfolding analyze extract_facts_llm complete facts_of send accept_fact query new_uuid spawn
    insert_job trim lines for_each is_whitespace row
analyzed = refl

analyze-Listed_example :
    Listed chat_env chat_config auth body world
      (analyze chat_env chat_config auth body world).1
      response
analyze-Listed_example = analyze-Listed chat_env chat_config auth body world response analyzed

truncate_str-longest_example :
    IsPrefix (truncate_str "aλb" 2) "aλb"
    × (len (truncate_str "aλb" 2) ≤ 2)
    × ((k : ℕ) → k ≤ 2 → is_char_boundary "aλb" k ≡ true → k ≤ len (truncate_str "aλb" 2))
truncate_str-longest_example = truncate_str-longest "aλb" 2

cut_short : truncate_str "aλb" 2 ≡ "a"
unfolding truncate_str
cut_short = refl

abbrev keys : List String
keys = "k0" ∷ "k1" ∷ []

keys-IsKey : All IsKey keys
unfolding has_comma trim is_whitespace
keys-IsKey = ((refl, refl, refl), ((refl, refl, refl), tt))

parse_keys-join_commas_example : parse_keys (join_commas ("k0" ∷ "k1" ∷ [])) ≡ "k0" ∷ "k1" ∷ []
parse_keys-join_commas_example = parse_keys-join_commas keys keys-IsKey

abbrev question : AskRequest
question = record { question = "What do I drink?"; limit = none; namespace = "notes" }

abbrev answer : AskResponse
answer = record {
  answer = "likes tea";
  memories_used = 1;
  memories = record { blob_id = "blob-1"; text = "hello"; distance = 5 } ∷ [];
}

asked : (ask chat_env chat_config auth question world).0 ≡ ok answer
unfolding ask generate_embedding send search_similar query search download_blob read_blob
    seal_decrypt answer_with complete trim is_whitespace
asked = refl

ask-IsScoped_example :
    All (OfRow "alice" "notes" rows) answer.memories
    × (length answer.memories ≤ 5)
    × (answer.memories_used ≡ length answer.memories)
ask-IsScoped_example = ask-IsScoped chat_env chat_config auth question world answer asked

abbrev hit : SearchHit
hit = record { blob_id = "blob-1"; distance = 5 }

read_memory-fetch_memory_example :
    ((read_memory env config auth "server" hit world).0
      ≡ (fetch_memory env config auth "server" hit world).0)
    × (((fetch_memory env config auth "server" hit world).1.db.vectors
          ≡ (read_memory env config auth "server" hit world).1.db.vectors)
        ⊎ ((fetch_memory env config auth "server" hit world).1.db.vectors
            ≡ delete_blob "blob-1" "alice"
                (read_memory env config auth "server" hit world).1.db.vectors))
read_memory-fetch_memory_example = read_memory-fetch_memory env config auth "server" hit world
