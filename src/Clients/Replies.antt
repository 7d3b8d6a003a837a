-- ===== src/Clients/Replies.antt =====
-- What the clients share: the request's bearer token, and the reading of a reply.
use nautilus_memwal_relayer.Prelude.{
  ℕ, String, ◌<>◌, Bool, ◌&&◌, none, some, Result, err, map_err, leb, ltb, if◌then◌else◌,
}
use nautilus_memwal_relayer.Types.{AppError, internal, Config}
use nautilus_memwal_relayer.World.Env.{Env, Request, Payload, Reply, unreachable, reply}

-- `StatusCode::is_success`
abbrev pub is_success : ℕ → Bool
is_success status = leb 200 status && ltb status 300

-- A failure to send, a status outside 200..300, and a body that does not parse, each with its error.
abbrev pub receive :
    {A : Type 0}
    → (String → AppError)
    → (ℕ → String → AppError)
    → (String → Result AppError A)
    → Reply
    → Result AppError A
receive sent failed read (unreachable e) = err (sent e)
receive sent failed read (reply status body) =
    if is_success status then read body else err (failed status body)

-- `SidecarError`'s text where the body is one, else the body.
abbrev pub sidecar_failed : Env → String → ℕ → String → AppError
sidecar_failed env prefix status body = elim (env.parse_error body) [
  | some e ↦ internal (prefix <> e)
  | none ↦ internal (prefix <> body)
]

abbrev pub internal_at : String → String → AppError
internal_at prefix e = internal (prefix <> e)

-- `resp.json()`
abbrev pub json_body :
    {A : Type 0} → String → (String → Result String A) → String → Result AppError A
json_body prefix parse body = map_err (internal_at prefix) (parse body)

abbrev pub sidecar_request : Config → String → Payload → Request
sidecar_request config path payload = record {
  url = config.sidecar_url <> path;
  bearer = config.sidecar_secret;
  payload = payload;
}
