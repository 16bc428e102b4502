-- ===== src/Server/Closing.antt =====
-- When the server closes a connection.
use touche.Base.{ℕ, ◌≡◌, inl, inr, arith, false, Bytes}
use touche.Base.Result.{ok, Act, ◌>>=◌, Result-cases}
use touche.Io.{flush}
use touche.Crates.{Crates}
use touche.Http.{Request}
use touche.Body.{BodyInner, HttpBody}
use touche.Response.Write.{Outcome, close, keep_alive, upgrade, write_response}
use touche.Server.{
  Service, Session, again, after_outcome, to_writer, call_service, stamped, conclude, deliver,
  answer,
}
use touche.Server.Rules.{demands_close, should_write_body}

-- The result that comes out of a chain is that of its last action.
bind-ok :
    {S E A B : Type 0} (m : Act S E A) (f : A → Act S E B) (s : S) (b : B)
    → ((m >>= f) s).0 ≡ ok b
    → (a : A) × (s' : S) × ((f a s').0 ≡ ok b)
bind-ok m f s b e = elim (Result-cases (m s).0) [
  | inl (a, g) ↦ (a, (m s).1, rw g at e)
  | inr (x, g) ↦ absurd (ground arith)
]

module _ (c : Crates) {App Error Handler B : Type 0} (ops : HttpBody c.HeaderMap B)
    (service : Service c App Error Handler B) (now : ℕ → Bytes) where
  conclude-again :
      (req : Request c (BodyInner c.HeaderMap)) (outcome : Outcome Handler) (s : Session App)
      → (conclude c ops service now req outcome s).0 ≡ ok again
      → (outcome ≡ keep_alive) × (demands_close c req.version req.headers ≡ false)
  unfolding conclude to_writer flush after_outcome
  conclude-again req keep_alive s e = ground arith
  conclude-again req close s e = ground arith
  conclude-again req (upgrade handler) s e = ground arith

  -- The server takes another request from a connection on which it answered one only if that request
  -- did not demand the connection's end.
  answer-again :
      (req : Request c (BodyInner c.HeaderMap)) (s : Session App)
      → (answer c ops service now req s).0 ≡ ok again
      → demands_close c req.version req.headers ≡ false
  unfolding answer deliver
  answer-again req s e =
      let (res, s₁, e₁) =
        bind-ok (call_service c ops service now req)
          (λ res. stamped c ops service now req res >>= deliver c ops service now req) s again e in
      let (res', s₂, e₂) =
        bind-ok (stamped c ops service now req res) (deliver c ops service now req) s₁ again e₁ in
      let (out, s₃, e₃) =
        bind-ok (to_writer (write_response c ops res' (should_write_body c req.method res'.status)))
          (conclude c ops service now req) s₂ again e₂ in
      (conclude-again req out s₃ e₃).1
