-- ===== src/Server/Builder/Laws.antt =====
-- Which connections a server serves, and that it comes to an end with each.
use touche.Base.{
  ℕ, suc, ◌≡◌, refl, ap, Option, some, List, [], ◌∷◌, ◌++◌, map, arith, length, Bytes, inl, inr,
}
use touche.Base.Result.{Result, ok, err, Result-cases}
use touche.Io.{IoError, Stream, Sink}
use touche.Crates.{Crates}
use touche.Body.{HttpBody, IoResult}
use touche.Server.{Service, Session}
use touche.Server.Fuel.{Shrinks, serve-ends}
use touche.Server.Builder.{accepted, serve_one, then_serve, serve_single_thread, make_service}

-- The connections that come in before the first error of `accept` are served, and none after it.
pub accepted-error :
    {Conn : Type 0} (conns : List Conn) (e : IoError) (more : List (IoResult Conn))
    → accepted (map ok conns ++ err e ∷ more) ≡ conns
unfolding accepted
accepted-error [] e more = refl
accepted-error (conn ∷ conns) e more = ap (λ l. conn ∷ l) (accepted-error conns e more)

module _ (c : Crates) {App Error Handler B : Type 0} (ops : HttpBody c.HeaderMap B)
    (service : Service c App Error Handler B) (now : ℕ → Bytes) where
  serve_one-ends :
      (app : App) (conn : Stream × Sink)
      → Shrinks c ops service now
      → (r : Result IoError (Option Handler) × Session App) × (serve_one c ops service now app conn
          ≡ some r)
  unfolding serve_one
  serve_one-ends app (reader, writer) h = serve-ends c ops service now _ _ h (omega arith)

  -- One thread serves every connection to its end, if the service puts nothing back: there is a session
  -- for each connection.
  pub serve_single_thread-ends :
      (app : App) (conns : List (Stream × Sink))
      → Shrinks c ops service now
      → (done : List (Result IoError (Option Handler) × Session App)) × (serve_single_thread c ops
            service now app conns
          ≡ some done)
        × (length done ≡ length conns)
  unfolding serve_single_thread then_serve
  serve_single_thread-ends app [] h = ([], refl, refl)
  serve_single_thread-ends app (conn ∷ conns) h =
      let (r, p) = serve_one-ends app conn h in
      let (done, q, l) = serve_single_thread-ends r.1.app conns h in
      (r ∷ done, rw (p, serve_single_thread) (rw q), ap suc l)

  -- A server that makes a service for each connection serves those for which it could make one, as if
  -- the others had not come in.
  pub make_service-skip :
      {MakeError : Type 0} (make : Stream × Sink → Result MakeError App)
      (before after : List (Stream × Sink)) (conn : Stream × Sink) (e : MakeError)
      → make conn ≡ err e
      → make_service c ops service now make (before ++ conn ∷ after)
        ≡ make_service c ops service now make (before ++ after)
  unfolding make_service
  make_service-skip make [] after conn e h = rw (h, make_service)
  make_service-skip make (other ∷ before) after conn e h = elim (Result-cases (make other)) [
    | inl (app, f) ↦ rw (f, make_service) (rw (make_service-skip make before after conn e h))
    | inr (x, f) ↦ rw (f, make_service) (make_service-skip make before after conn e h)
  ]
