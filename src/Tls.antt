-- ===== src/Tls.antt =====
-- tls.rs: a TLS stream that the clones of a connection share, behind a lock and a count of its owners.
use touche.Base.{
  ℕ, zero, suc, ◌-◌, Option, none, some, List, [], ◌∷◌, ◌++◌, Bool, false, Bytes, length, ◌==◌,
  if◌then◌else◌,
}
use touche.Base.Result.{Result, ok, err, Act}
use touche.Io.{IoError, lock_failed}

-- What the program calls of a stream: TcpStream, UnixStream, and rustls's StreamOwned. `World` is the
-- state of the sockets.
pub record Socket (World Addr S : Type 0) : Type 0 where
  pub peer_addr : S → World → Result IoError Addr
  pub local_addr : S → World → Result IoError Addr
  pub set_read_timeout : S → Option ℕ → Act World IoError (Unit {0})
  pub set_nodelay : S → Bool → Act World IoError (Unit {0})
  pub read : S → ℕ → Act World IoError Bytes
  pub write : S → Bytes → Act World IoError ℕ
  pub flush : S → Act World IoError (Unit {0})
  pub try_clone : S → Act World IoError S

-- Arc<Mutex<StreamOwned<..>>>: the stream, how many handles own it, and whether a holder of the lock
-- panicked.
pub record Shared (S : Type 0) : Type 0 where
  pub owners : ℕ
  pub poisoned : Bool
  pub stream : S

-- RustlsConnection, by the place of its Arc among all that were made.
pub record RustlsConnection : Type 0 where
  pub place : ℕ

module _ {S : Type 0} where
  unfoldable pub at : ℕ → List (Shared S) → Option (Shared S)
  at i [] = none
  at zero (a ∷ arcs) = some a
  at (suc i) (a ∷ arcs) = at i arcs

  unfoldable pub put : ℕ → Shared S → List (Shared S) → List (Shared S)
  put i b [] = []
  put zero b (a ∷ arcs) = b ∷ arcs
  put (suc i) b (a ∷ arcs) = a ∷ put i b arcs

  -- From<StreamOwned>: a new Arc with one owner.
  unfoldable pub from_stream : S → List (Shared S) → RustlsConnection × List (Shared S)
  from_stream s arcs = (
    record { place = length arcs },
    arcs ++ record { owners = 1; poisoned = false; stream = s } ∷ [],
  )

  -- Arc::clone
  unfoldable pub clone_handle :
      RustlsConnection → List (Shared S) → RustlsConnection × List (Shared S)
  unfolding at put
  clone_handle t arcs = elim (at t.place arcs) [
    | none ↦ (t, arcs)
    | some a ↦ (t, put t.place (record a { owners = suc a.owners }) arcs)
  ]

  -- Drop for Arc
  unfoldable pub drop_handle : RustlsConnection → List (Shared S) → List (Shared S)
  unfolding at put
  drop_handle t arcs = elim (at t.place arcs) [
    | none ↦ arcs
    | some a ↦ put t.place (record a { owners = a.owners - 1 }) arcs
  ]

  -- What `into_inner` makes of the Arc at its place: `Arc::try_unwrap` gives the stream to its only owner,
  -- and the handle back to one of several. `none` is the panic at a poisoned lock.
  unfoldable pub unwrap :
      RustlsConnection
      → Option (Shared S)
      → List (Shared S)
      → Option (Result RustlsConnection S × List (Shared S))
  unfolding put
  unwrap t none arcs = none
  unwrap t (some a) arcs =
      if a.owners == 1
      then (if a.poisoned
          then none
          else some (ok a.stream, put t.place (record a { owners = 0 }) arcs))
      else some (err t, arcs)

  unfoldable pub into_inner :
      RustlsConnection → List (Shared S) → Option (Result RustlsConnection S × List (Shared S))
  unfolding at unwrap
  into_inner t arcs = unwrap t (at t.place arcs) arcs

  module _ {World Addr : Type 0} (socket : Socket World Addr S) where
    -- self.0.lock().unwrap(), for the operations that panic at a poisoned lock.
    unfoldable pub locked :
        {A : Type 0}
        → (S → Act World IoError A)
        → RustlsConnection
        → List (Shared S)
        → World
        → Option (Result IoError A × World)
    unfolding at
    locked f t arcs w = elim (at t.place arcs) [
      | none ↦ none
      | some a ↦ if a.poisoned then none else some (f a.stream w)
    ]

    -- self.0.lock().map_err(..)?, for those that report it.
    unfoldable pub try_locked :
        {A : Type 0}
        → (S → Act World IoError A)
        → RustlsConnection
        → List (Shared S)
        → Act World IoError A
    unfolding at
    try_locked f t arcs w = elim (at t.place arcs) [
      | none ↦ (err lock_failed, w)
      | some a ↦ if a.poisoned then (err lock_failed, w) else f a.stream w
    ]

    unfoldable pub set_read_timeout :
        Option ℕ
        → RustlsConnection
        → List (Shared S)
        → World
        → Option (Result IoError (Unit {0}) × World)
    unfolding locked
    set_read_timeout timeout = locked (λ s. socket.set_read_timeout s timeout)

    unfoldable pub set_nodelay :
        Bool
        → RustlsConnection
        → List (Shared S)
        → World
        → Option (Result IoError (Unit {0}) × World)
    unfolding locked
    set_nodelay nodelay = locked (λ s. socket.set_nodelay s nodelay)

    unfoldable pub peer_addr : RustlsConnection → List (Shared S) → World → Result IoError Addr
    unfolding try_locked
    peer_addr t arcs w = (try_locked (λ s v. (socket.peer_addr s v, v)) t arcs w).0

    unfoldable pub local_addr : RustlsConnection → List (Shared S) → World → Result IoError Addr
    unfolding try_locked
    local_addr t arcs w = (try_locked (λ s v. (socket.local_addr s v, v)) t arcs w).0

    unfoldable pub read : ℕ → RustlsConnection → List (Shared S) → Act World IoError Bytes
    unfolding try_locked
    read n = try_locked (λ s. socket.read s n)

    unfoldable pub write : Bytes → RustlsConnection → List (Shared S) → Act World IoError ℕ
    unfolding try_locked
    write bs = try_locked (λ s. socket.write s bs)

    unfoldable pub flush : RustlsConnection → List (Shared S) → Act World IoError (Unit {0})
    unfolding try_locked
    flush = try_locked socket.flush
