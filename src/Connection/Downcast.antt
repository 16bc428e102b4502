-- ===== src/Connection/Downcast.antt =====
-- What becomes of a connection that is downcast.
use mathlib.Core.Path.{subst}
use touche.Base.{
  sym, true, ◌≢◌, ◌⊎◌, ℕ, zero, suc, ◌-◌, ◌<◌, ◌≡◌, refl, ap, Option, none, some, List, [], ◌∷◌,
  ◌++◌, false, length, arith, ◌==◌, Bool-cases, inl, inr,
}
use touche.Base.Result.{Result, ok, err}
use touche.Tls.{
  Shared, RustlsConnection, at, put, into_inner, unwrap, from_stream, clone_handle, drop_handle,
}
use touche.Connection.{
  Connection, tcp, unix, rustls, Underlying, tcp_stream, unix_stream, tls_stream, TypeId, tcp_id,
  unix_id, tls_id, other_id, rewrap, downcast, downcast_tls, drop_connection, from_tcp, from_unix,
  from_tls,
}

module _ {S : Type 0} where
  at-append : (arcs : List (Shared S)) (a : Shared S) → at (length arcs) (arcs ++ a ∷ []) ≡ some a
  unfolding at
  at-append [] a = refl
  at-append (b ∷ arcs) a = at-append arcs a

  at-put :
      (i : ℕ) (arcs : List (Shared S)) (a b : Shared S)
      → at i arcs ≡ some a
      → at i (put i b arcs) ≡ some b
  unfolding at put
  at-put i [] a b e = ground arith
  at-put zero (c ∷ arcs) a b e = refl
  at-put (suc i) (c ∷ arcs) a b e = at-put i arcs a b e

  put-put :
      (i : ℕ) (arcs : List (Shared S)) (a b : Shared S)
      → at i arcs ≡ some a
      → put i a (put i b arcs) ≡ arcs
  unfolding at put
  put-put i [] a b e = refl
  put-put zero (c ∷ arcs) a b e = ground arith
  put-put (suc i) (c ∷ arcs) a b e = ap (λ l. c ∷ l) (put-put i arcs a b e)

module _ {Tcp Unix Owned : Type 0} where
  -- The stream that a connection stands for.
  abbrev of_shared : Option (Shared Owned) → Option (Underlying Tcp Unix Owned)
  of_shared none = none
  of_shared (some a) = some (tls_stream a.stream)

  unfoldable pub underlying :
      Connection Tcp Unix → List (Shared Owned) → Option (Underlying Tcp Unix Owned)
  underlying (tcp s) arcs = some (tcp_stream s)
  underlying (unix s) arcs = some (unix_stream s)
  underlying (rustls t) arcs = of_shared (at t.place arcs)

  abbrev pub type_of : Underlying Tcp Unix Owned → TypeId
  type_of (tcp_stream s) = tcp_id
  type_of (unix_stream s) = unix_id
  type_of (tls_stream s) = tls_id

  -- Nobody else has the connection's stream, nor has a thread panicked over it; a clone of a TLS connection
  -- has it too; the stream has one owner, and a thread has panicked over it.
  abbrev pub Sole : Connection Tcp Unix → List (Shared Owned) → Type 0
  Sole (rustls t) arcs =
      (a : Shared Owned) × (at t.place arcs ≡ some a) × (a.owners ≡ 1) × (a.poisoned ≡ false)
  Sole _ arcs = Unit

  abbrev pub Held : Connection Tcp Unix → List (Shared Owned) → Type 0
  Held (rustls t) arcs = (a : Shared Owned) × (at t.place arcs ≡ some a) × (a.owners ≢ 1)
  Held _ arcs = ⊥

  abbrev pub Poisoned : Connection Tcp Unix → List (Shared Owned) → Type 0
  Poisoned (rustls t) arcs =
      (a : Shared Owned) × (at t.place arcs ≡ some a) × (a.owners ≡ 1) × (a.poisoned ≡ true)
  Poisoned _ arcs = ⊥

  -- A TLS connection has its stream in the store.
  abbrev pub IsLive : Connection Tcp Unix → List (Shared Owned) → Type 0
  IsLive (rustls t) arcs = (a : Shared Owned) × (at t.place arcs ≡ some a)
  IsLive _ arcs = Unit

  abbrev pub Other : TypeId → Option (Underlying Tcp Unix Owned) → Type 0
  Other target none = ⊥
  Other target (some s) = type_of s ≢ target

  -- What a downcast makes of a connection, in each case by what it is due to.
  abbrev pub Gives :
      TypeId
      → Connection Tcp Unix
      → List (Shared Owned)
      → Option (Result (Connection Tcp Unix) (Underlying Tcp Unix Owned) × List (Shared Owned))
      → Type 0
  Gives target conn arcs none = Poisoned conn arcs
  Gives target conn arcs (some (ok s, arcs')) =
      (type_of s ≡ target) × (underlying conn arcs ≡ some s) × Sole conn arcs
  Gives target conn arcs (some (err conn', arcs')) =
      (underlying conn' arcs' ≡ underlying conn arcs)
      × ((Sole conn arcs × Other target (underlying conn arcs)) ⊎ Held conn arcs)

module _ (Tcp Unix : Type 0) {Owned : Type 0} where
  refused-Gives :
      (target : TypeId) (t : RustlsConnection) (a : Shared Owned) (arcs : List (Shared Owned))
      → at t.place arcs ≡ some a
      → a.owners ≡ 1
      → a.poisoned ≡ false
      → tls_id ≢ target
      → (arcs' : List (Shared Owned))
      → Gives {Tcp = Tcp} {Unix = Unix} target
          (rustls t)
          arcs
          (some (err (rustls (from_stream a.stream arcs').0), (from_stream a.stream arcs').1))
  unfolding underlying from_stream
  refused-Gives target t a arcs e one good other arcs' =
      let back : of_shared {Tcp = Tcp} {Unix = Unix} (at t.place arcs)
          ≡ some (tls_stream a.stream) =
        ap of_shared e in
      (
        rw (at-append arcs' (record { owners = 1; poisoned = false; stream = a.stream }))
            (sym back),
        inl ((a, e, one, good), rw e other),
      )

  sole-Gives :
      (target : TypeId) (t : RustlsConnection) (a : Shared Owned) (arcs : List (Shared Owned))
      → at t.place arcs ≡ some a
      → a.owners ≡ 1
      → a.poisoned ≡ false
      → (arcs' : List (Shared Owned))
      → Gives target
          (rustls t)
          arcs
          (rewrap {Tcp = Tcp} {Unix = Unix} target (some (ok a.stream, arcs')))
  unfolding rewrap underlying
  sole-Gives tls_id t a arcs e one good arcs' = (refl, rw e refl, (a, e, one, good))
  sole-Gives tcp_id t a arcs e one good arcs' =
      refused-Gives tcp_id t a arcs e one good (λ x. absurd (cc x)) arcs'
  sole-Gives unix_id t a arcs e one good arcs' =
      refused-Gives unix_id t a arcs e one good (λ x. absurd (cc x)) arcs'
  sole-Gives other_id t a arcs e one good arcs' =
      refused-Gives other_id t a arcs e one good (λ x. absurd (cc x)) arcs'

  unwrap-Gives :
      (target : TypeId) (t : RustlsConnection) (a : Shared Owned) (arcs : List (Shared Owned))
      → at t.place arcs ≡ some a
      → Gives target
          (rustls t)
          arcs
          (rewrap {Tcp = Tcp} {Unix = Unix} target (unwrap t (some a) arcs))
  unfolding unwrap
  unwrap-Gives target t a arcs e = elim (Bool-cases (a.owners == 1)) [
    | inl one ↦
        let sole : a.owners ≡ 1 = ground (arith, one) in
        elim (Bool-cases a.poisoned) [
          | inl bad ↦ rw (one, bad, unwrap) (unfold rewrap in (a, e, sole, bad))
          | inr good ↦ rw (one, good, unwrap) (sole-Gives target t a arcs e sole good _)
        ]
    | inr more ↦
        let held : a.owners ≢ 1 = ground (arith, more) in
        rw (more, unwrap) (unfold rewrap in (refl, inr (a, e, held)))
  ]

module _ {Tcp Unix Owned : Type 0} where
  -- A downcast gives the connection's stream exactly if it is of the type that was asked for and nobody
  -- else has it. It gives back a connection over the same stream if the type is another one, or if a clone
  -- has the stream. It panics, which is `none`, exactly if the last owner's lock is poisoned. The
  -- connection is live: a TLS connection has its stream in the store.
  pub downcast-Gives :
      (target : TypeId) (conn : Connection Tcp Unix) (arcs : List (Shared Owned))
      → IsLive conn arcs
      → Gives target conn arcs (downcast target conn arcs)
  unfolding downcast underlying into_inner
  downcast-Gives tcp_id (tcp s) arcs live = (refl, refl, tt)
  downcast-Gives unix_id (tcp s) arcs live = (refl, inl (tt, λ x. absurd (cc x)))
  downcast-Gives tls_id (tcp s) arcs live = (refl, inl (tt, λ x. absurd (cc x)))
  downcast-Gives other_id (tcp s) arcs live = (refl, inl (tt, λ x. absurd (cc x)))
  downcast-Gives unix_id (unix s) arcs live = (refl, refl, tt)
  downcast-Gives tcp_id (unix s) arcs live = (refl, inl (tt, λ x. absurd (cc x)))
  downcast-Gives tls_id (unix s) arcs live = (refl, inl (tt, λ x. absurd (cc x)))
  downcast-Gives other_id (unix s) arcs live = (refl, inl (tt, λ x. absurd (cc x)))
  downcast-Gives target (rustls t) arcs (a, e) =
      subst
        (λ o.
          Gives {Tcp = Tcp} {Unix = Unix} target (rustls t) arcs (rewrap target (unwrap t o arcs)))
        (sym e) (unwrap-Gives Tcp Unix target t a arcs e)

  -- While a clone of a TLS connection is alive no downcast goes through, and the connection comes back
  -- as it was; once the clone is dropped, the streams are owned as they were before.
  pub clone-downcast :
      (target : TypeId) (t : RustlsConnection) (a : Shared Owned) (arcs : List (Shared Owned))
      → at t.place arcs ≡ some a
      → 0 < a.owners
      → let (t', arcs') = clone_handle t arcs in
        (downcast {Tcp = Tcp} {Unix = Unix} target (rustls t) arcs' ≡ some (err (rustls t), arcs'))
        × (drop_connection {Tcp = Tcp} {Unix = Unix} (rustls t') arcs' ≡ arcs)
  unfolding clone_handle downcast into_inner rewrap downcast_tls unwrap drop_connection drop_handle
  clone-downcast target t a arcs e pos =
      let more = record a { owners = suc a.owners } in
      let one_less : suc a.owners - 1 ≡ a.owners = omega arith in
      (
        rw (e, clone_handle) (rw (at-put t.place arcs a more e, downcast) (ground arith)),
        rw (e, clone_handle)
            (rw (at-put t.place arcs a more e, drop_handle)
              (rw one_less (put-put t.place arcs a more e))),
      )

  -- The last owner of a TLS stream that nobody panicked over gets the stream.
  pub downcast-sole :
      (t : RustlsConnection) (a : Shared Owned) (arcs : List (Shared Owned))
      → at t.place arcs ≡ some a
      → a.owners ≡ 1
      → a.poisoned ≡ false
      → (arcs' : List (Shared Owned)) × (downcast {Tcp = Tcp} {Unix = Unix} tls_id (rustls t) arcs
          ≡ some (ok (tls_stream a.stream), arcs'))
  unfolding downcast into_inner rewrap downcast_tls unwrap
  downcast-sole t a arcs e one good =
      (put t.place (record a { owners = 0 }) arcs, rw (e, downcast) (rw (one, good)))

  -- A connection over a stream, as the conversions make it.
  abbrev connect :
      Underlying Tcp Unix Owned → List (Shared Owned) → Connection Tcp Unix × List (Shared Owned)
  connect (tcp_stream s) arcs = (from_tcp s, arcs)
  connect (unix_stream s) arcs = (from_unix s, arcs)
  connect (tls_stream s) arcs = from_tls s arcs

  -- A connection that was made from a stream, and not cloned, gives that stream back to a downcast to its
  -- type.
  pub connect-downcast :
      (s : Underlying Tcp Unix Owned) (arcs : List (Shared Owned))
      → (arcs' : List (Shared Owned)) × (downcast (type_of s) (connect s arcs).0 (connect s arcs).1
          ≡ some (ok s, arcs'))
  unfolding from_tcp from_unix from_tls from_stream downcast
  connect-downcast (tcp_stream s) arcs = (arcs, refl)
  connect-downcast (unix_stream s) arcs = (arcs, refl)
  connect-downcast (tls_stream s) arcs =
      let a : Shared Owned = record { owners = 1; poisoned = false; stream = s } in
      downcast-sole (record { place = length arcs }) a (arcs ++ a ∷ []) (at-append arcs a) refl refl
