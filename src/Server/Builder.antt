-- ===== src/Server/Builder.antt =====
-- server.rs: the builder of a server, and the connections that it serves.
pub mod Laws
use touche.Base.{
  ℕ, zero, suc, ◌+◌, Option, none, some, List, [], ◌∷◌, Bool, true, false, Bytes, length,
  if◌then◌else◌,
}
use touche.Base.Result.{Result, ok, err, to_option}
use touche.Io.{IoError, Stream, Sink}
use touche.Crates.{Crates}
use touche.Body.{HttpBody, IoResult}
use touche.Server.{Service, Session, serve}

-- server.rs: ServerBuilder
pub record ServerBuilder : Type 0 where
  pub max_threads : ℕ
  pub read_timeout : Option ℕ
  pub nodelay : Bool

-- Default for ServerBuilder
abbrev pub default_builder : ServerBuilder
default_builder = record { max_threads = 512; read_timeout = none; nodelay = false }

-- ServerBuilder::max_threads, read_timeout and nodelay
abbrev pub set_max_threads : ℕ → ServerBuilder → ServerBuilder
set_max_threads n b = record b { max_threads = n }

abbrev pub set_read_timeout : Option ℕ → ServerBuilder → ServerBuilder
set_read_timeout timeout b = record b { read_timeout = timeout }

abbrev pub set_nodelay : Bool → ServerBuilder → ServerBuilder
set_nodelay nodelay b = record b { nodelay = nodelay }

-- TcpAcceptor as the iterator that it is, by the results of its calls of `accept`: an error ends it.
unfoldable pub accepted : {Conn : Type 0} → List (IoResult Conn) → List Conn
accepted [] = []
accepted (ok conn ∷ more) = conn ∷ accepted more
accepted (err e ∷ more) = []

-- What the server calls of a connection that came in: its options, and the sides that it serves.
pub record Sockets (World Conn : Type 0) : Type 0 where
  pub set_read_timeout : Conn → Option ℕ → World → IoResult (Unit {0}) × World
  pub set_nodelay : Conn → Bool → World → IoResult (Unit {0}) × World

module _ {World Conn : Type 0} (sockets : Sockets World Conn) where
  -- The closure of the `filter_map`: a connection whose options cannot be set is left out.
  unfoldable pub configured : ServerBuilder → Conn → World → Option Conn × World
  configured b conn w =
      let (timed, w₁) = sockets.set_read_timeout conn b.read_timeout w in
      let (delayed, w₂) = sockets.set_nodelay conn b.nodelay w₁ in
      elim timed [
        | err e ↦ (none, w₁)
        | ok u ↦ elim delayed [ err e ↦ (none, w₂) | ok v ↦ (some conn, w₂) ]
      ]

  unfoldable pub keep_configured : Option Conn → List Conn × World → List Conn × World
  keep_configured none rest = rest
  keep_configured (some conn) (conns, w) = (conn ∷ conns, w)

  -- ServerBuilder::from_connections, its iterator run to the end.
  unfoldable pub from_connections : ServerBuilder → List Conn → World → List Conn × World
  unfolding configured keep_configured
  from_connections b [] w = ([], w)
  from_connections b (conn ∷ conns) w =
      let (kept, w') = configured b conn w in keep_configured kept (from_connections b conns w')

  -- ServerBuilder::try_bind, by the listener: the results of its `accept`, or the error of binding.
  unfoldable pub try_bind :
      ServerBuilder → IoResult (List (IoResult Conn)) → World → IoResult (List Conn) × World
  unfolding from_connections accepted
  try_bind b (err e) w = (err e, w)
  try_bind b (ok accepts) w =
      let (conns, w') = from_connections b (accepted accepts) w in (ok conns, w')

  -- ServerBuilder::bind; `none` is its panic.
  unfoldable pub bind :
      ServerBuilder → IoResult (List (IoResult Conn)) → World → Option (List Conn) × World
  unfolding try_bind
  bind b listener w = let (conns, w') = try_bind b listener w in (to_option conns, w')

  -- Server::bind, with what Server::builder starts from.
  abbrev pub bind_default : IoResult (List (IoResult Conn)) → World → Option (List Conn) × World
  bind_default = bind default_builder

  -- From<TcpListener> for Server
  abbrev pub from_listener : List (IoResult Conn) → World → List Conn × World
  from_listener accepts = from_connections default_builder (accepted accepts)

module _ (c : Crates) {App Error Handler B : Type 0} (ops : HttpBody c.HeaderMap B)
    (service : Service c App Error Handler B) (now : ℕ → Bytes) where
  -- `serve` for one connection, with fuel for each byte that comes in.
  unfoldable pub serve_one :
      App → Stream × Sink → Option (Result IoError (Option Handler) × Session App)
  serve_one app (reader, writer) =
      serve c ops service now (suc (length reader.rest))
        (record { reader = reader; writer = writer; app = app; ticks = 0 })

  -- The sessions that were served, each from the application that the one before left.
  unfoldable pub then_serve :
      (App → Option (List (Result IoError (Option Handler) × Session App)))
      → Option (Result IoError (Option Handler) × Session App)
      → Option (List (Result IoError (Option Handler) × Session App))
  then_serve rest none = none
  then_serve rest (some (r, s)) = elim (rest s.app) [
    | none ↦ none
    | some done ↦ some ((r, s) ∷ done)
  ]

  -- Server::serve_single_thread: the results of the connections are ignored.
  unfoldable pub serve_single_thread :
      App → List (Stream × Sink) → Option (List (Result IoError (Option Handler) × Session App))
  unfolding serve_one then_serve
  serve_single_thread app [] = some []
  serve_single_thread app (conn ∷ conns) =
      then_serve (λ app'. serve_single_thread app' conns) (serve_one app conn)

  -- Server::make_service: a connection for which no service is made is dropped.
  unfoldable pub make_service :
      {MakeError : Type 0}
      → (Stream × Sink → Result MakeError App)
      → List (Stream × Sink)
      → Option (List (Result IoError (Option Handler) × Session App))
  unfolding serve_one then_serve
  make_service make [] = some []
  make_service make (conn ∷ conns) =
      let rest = make_service make conns in
      elim (make conn) [ err e ↦ rest | ok app ↦ then_serve (λ _. rest) (serve_one app conn) ]
