-- ===== src/Gateway/Server.antt =====
-- api-gateway/src/server.ts: the origins that may call, the public routes in front of the application,
-- and the shutdown; lib/socket.ts has the same list of origins. Express's matching of paths, the
-- metrics' text and the operating system are parameters; helmet, morgan and the body parser, which
-- come first, are left out.
pub mod Origins
pub mod Public
mod Tests
use Prim.Native.Char.{Char, code}
use walmart_assignment.Base.{
  String, ℕ, Bool, true, false, ◌&&◌, ◌||◌, ◌==◌, leb, Option, none, some, List, [], ◌∷◌, map,
  filter_by, if◌then◌else◌,
}
use walmart_assignment.Base.Text.{str_eq, is_truthy}
use walmart_assignment.Base.Split.{split_at}
use walmart_assignment.Base.Js.{Outcome, ok, thrown, Action, pure, ◌>>=◌, ◌>>◌}
use walmart_assignment.Gateway.App.{AppServices, AppRequest, App, Sent, handle, on_world}

-- The white space and the line ends that `trim` takes away.
abbrev pub is_space : ℕ → Bool
is_space c =
    (leb 9 c && leb c 13)
    || c == 32
    || c == 160
    || c == 0x1680
    || (leb 0x2000 c && leb c 0x200A)
    || c == 0x2028
    || c == 0x2029
    || c == 0x202F
    || c == 0x205F
    || c == 0x3000
    || c == 0xFEFF

abbrev pub trim_start : String → String
trim_start String.[] = ""
trim_start (String.◌∷◌ c s) =
    let rest = trim_start s in if is_space (code c) then rest else String.◌∷◌ c s

-- A character in front of what is left of the rest.
abbrev pub trim_before : Char → String → String
trim_before c String.[] = if is_space (code c) then "" else String.◌∷◌ c ""
trim_before c (String.◌∷◌ d s) = String.◌∷◌ c (String.◌∷◌ d s)

abbrev pub trim_end : String → String
trim_end String.[] = ""
trim_end (String.◌∷◌ c s) = trim_before c (trim_end s)

unfoldable pub trim : String → String
trim s = trim_end (trim_start s)

-- `CORS_ORIGINS.split(',').map(o => o.trim()).filter(Boolean)`.
unfoldable pub origins_of : String → List String
origins_of text = filter_by is_truthy (map trim (split_at b',' text))

-- Who may call: every origin, which is what `cors({})` and `origin: '*'` allow, or those of a list.
pub data Cors : Type 0 where
  any_origin : Cors
  listed : List String → Cors

abbrev pub cors_for : List String → Cors
cors_for [] = any_origin
cors_for (o ∷ os) = listed (o ∷ os)

-- `createApp`, for `env.CORS_ORIGINS`.
unfoldable pub cors_of : String → Cors
cors_of text = cors_for (origins_of text)

-- `initSocket`, for `process.env.SOCKET_CORS_ORIGINS ?? ''`.
unfoldable pub socket_cors : Option String → Cors
socket_cors none = cors_for (origins_of "")
socket_cors (some text) = cors_for (origins_of text)

-- The answers of the public routes, and of what follows.
pub data Answer (V : Type 0) : Type 0 where
  health openapi docs : Answer V
  metrics : String → Answer V
  routed : Sent V → Answer V

-- `gets path url` says that Express runs a `get` handler of the path for the method and the URL;
-- `render_metrics` is `register.metrics()`.
pub record Front (W : Type 0) : Type 0 where
  pub gets : String → String → String → Bool
  pub mounted : String → String → Bool
  pub render_metrics : Action W String

module _ {Decoded Num V W : Type 0} (f : Front W) (v : AppServices Decoded Num V W) where
  abbrev pub send_metrics : Action (App W) (Answer V)
  send_metrics = do text ← on_world v f.render_metrics; pure (metrics text)

  abbrev pub route_request : AppRequest → Action (App W) (Answer V)
  route_request req = do sent ← handle v req; pure (routed sent)

  -- The layers of the application, for the method and the URL of a request.
  unfoldable pub serve : String → String → AppRequest → Action (App W) (Answer V)
  serve method url req =
      if f.gets "/healthz" method url
      then pure health
      else if f.gets "/metrics" method url
      then send_metrics
      else if f.gets "/docs-json" method url
      then pure openapi
      else if f.mounted "/docs" url
      then pure docs
      else route_request req

-- What the shutdown asks for, the latest first.
pub data Effect : Type 0 where
  close_server flush_logger exit_later : Effect

-- `shutdown`: `close_socket` is `socket.close()`, and `can_flush` whether the logger has `flush`.
unfoldable pub shutdown :
    {W : Type 0}
    → Action W (Unit {0})
    → Bool
    → List Effect
    → W
    → Outcome (Unit {0}) × (List Effect × W)
shutdown close_socket can_flush log w = elim (close_socket w).0 [
  | thrown e ↦ (thrown e, (log, (close_socket w).1))
  | ok _ ↦ (
    ok tt,
    (
      (if can_flush
          then exit_later ∷ flush_logger ∷ close_server ∷ log
          else exit_later ∷ close_server ∷ log),
      (close_socket w).1,
    ),
  )
]
