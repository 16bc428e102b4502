-- ===== src/Connection.antt =====
-- connection.rs: the streams over which the program serves and asks, behind one type.
pub mod Downcast
use touche.Base.{ℕ, Option, none, some, List, Bool, true, false, Bytes, if◌then◌else◌}
use touche.Base.Result.{Result, ok, err, Act, to_option}
use touche.Io.{IoError}
use touche.Tls
use touche.Tls.{Socket, Shared, RustlsConnection}

-- ConnectionInner
pub data Connection (Tcp Unix : Type 0) : Type 0 where
  tcp : Tcp → Connection Tcp Unix
  unix : Unix → Connection Tcp Unix
  rustls : RustlsConnection → Connection Tcp Unix

-- A stream that a connection was downcast to.
pub data Underlying (Tcp Unix Owned : Type 0) : Type 0 where
  tcp_stream : Tcp → Underlying Tcp Unix Owned
  unix_stream : Unix → Underlying Tcp Unix Owned
  tls_stream : Owned → Underlying Tcp Unix Owned

-- TypeId::of::<T>(), where T is one of the types of streams, or another one.
pub data TypeId : Type 0 where
  tcp_id unix_id tls_id other_id : TypeId

abbrev pub is_tcp : TypeId → Bool
is_tcp tcp_id = true
is_tcp _ = false

abbrev pub is_unix : TypeId → Bool
is_unix unix_id = true
is_unix _ = false

abbrev pub is_tls : TypeId → Bool
is_tls tls_id = true
is_tls _ = false

module _ {Tcp Unix : Type 0} where
  -- From<TcpStream>, From<(TcpStream, SocketAddr)> and From<UnixStream>
  unfoldable pub from_tcp : Tcp → Connection Tcp Unix
  from_tcp s = tcp s

  unfoldable pub from_accepted : {Addr : Type 0} → Tcp × Addr → Connection Tcp Unix
  from_accepted (s, addr) = tcp s

  unfoldable pub from_unix : Unix → Connection Tcp Unix
  from_unix s = unix s

module _ {Tcp Unix Owned : Type 0} where
  -- The arm for TLS: a stream of another type is wrapped again.
  unfoldable pub downcast_tls :
      TypeId
      → Result RustlsConnection Owned × List (Shared Owned)
      → Result (Connection Tcp Unix) (Underlying Tcp Unix Owned) × List (Shared Owned)
  downcast_tls target (ok s, arcs) =
      let (t, arcs') = Tls.from_stream s arcs in
      if is_tls target then (ok (tls_stream s), arcs) else (err (rustls t), arcs')
  downcast_tls target (err t, arcs) = (err (rustls t), arcs)

  unfoldable pub rewrap :
      TypeId
      → Option (Result RustlsConnection Owned × List (Shared Owned))
      → Option (Result (Connection Tcp Unix) (Underlying Tcp Unix Owned) × List (Shared Owned))
  unfolding downcast_tls
  rewrap target none = none
  rewrap target (some r) = some (downcast_tls target r)

  -- Connection::downcast; `none` is the panic at a poisoned lock.
  unfoldable pub downcast :
      TypeId
      → Connection Tcp Unix
      → List (Shared Owned)
      → Option (Result (Connection Tcp Unix) (Underlying Tcp Unix Owned) × List (Shared Owned))
  unfolding rewrap
  downcast target (tcp s) arcs =
      some ((if is_tcp target then ok (tcp_stream s) else err (tcp s)), arcs)
  downcast target (unix s) arcs =
      some ((if is_unix target then ok (unix_stream s) else err (unix s)), arcs)
  downcast target (rustls t) arcs = rewrap target (Tls.into_inner t arcs)

  -- From<StreamOwned<..>>
  unfoldable pub from_tls : Owned → List (Shared Owned) → Connection Tcp Unix × List (Shared Owned)
  from_tls s arcs = let (t, arcs') = Tls.from_stream s arcs in (rustls t, arcs')

  module _ {World Addr : Type 0} (tcps : Socket World Addr Tcp) (unixs : Socket World Addr Unix)
      (tls : Socket World Addr Owned) where
    unfoldable pub peer_addr : Connection Tcp Unix → List (Shared Owned) → World → Option Addr
    peer_addr (tcp s) arcs w = to_option (tcps.peer_addr s w)
    peer_addr (unix s) arcs w = none
    peer_addr (rustls t) arcs w = to_option (Tls.peer_addr tls t arcs w)

    unfoldable pub local_addr : Connection Tcp Unix → List (Shared Owned) → World → Option Addr
    local_addr (tcp s) arcs w = to_option (tcps.local_addr s w)
    local_addr (unix s) arcs w = none
    local_addr (rustls t) arcs w = to_option (Tls.local_addr tls t arcs w)

    -- `none` is the panic at a poisoned lock, here and in `set_nodelay`.
    unfoldable pub set_read_timeout :
        Option ℕ
        → Connection Tcp Unix
        → List (Shared Owned)
        → World
        → Option (Result IoError (Unit {0}) × World)
    set_read_timeout timeout (tcp s) arcs w = some (tcps.set_read_timeout s timeout w)
    set_read_timeout timeout (unix s) arcs w = some (unixs.set_read_timeout s timeout w)
    set_read_timeout timeout (rustls t) arcs w = Tls.set_read_timeout tls timeout t arcs w

    -- A Unix socket has no such option.
    unfoldable pub set_nodelay :
        Bool
        → Connection Tcp Unix
        → List (Shared Owned)
        → World
        → Option (Result IoError (Unit {0}) × World)
    set_nodelay nodelay (tcp s) arcs w = some (tcps.set_nodelay s nodelay w)
    set_nodelay nodelay (unix s) arcs w = some (ok tt, w)
    set_nodelay nodelay (rustls t) arcs w = Tls.set_nodelay tls nodelay t arcs w

    unfoldable pub read : ℕ → Connection Tcp Unix → List (Shared Owned) → Act World IoError Bytes
    read n (tcp s) arcs w = tcps.read s n w
    read n (unix s) arcs w = unixs.read s n w
    read n (rustls t) arcs w = Tls.read tls n t arcs w

    unfoldable pub write : Bytes → Connection Tcp Unix → List (Shared Owned) → Act World IoError ℕ
    write bs (tcp s) arcs w = tcps.write s bs w
    write bs (unix s) arcs w = unixs.write s bs w
    write bs (rustls t) arcs w = Tls.write tls bs t arcs w

    unfoldable pub flush : Connection Tcp Unix → List (Shared Owned) → Act World IoError (Unit {0})
    flush (tcp s) arcs w = tcps.flush s w
    flush (unix s) arcs w = unixs.flush s w
    flush (rustls t) arcs w = Tls.flush tls t arcs w

    -- What a clone of a socket is wrapped in; `none` is the panic of a clone that failed.
    unfoldable pub cloned :
        {S : Type 0}
        → (S → Connection Tcp Unix)
        → Result IoError S × World
        → List (Shared Owned)
        → Option (Connection Tcp Unix × List (Shared Owned) × World)
    cloned wrap (ok s, w) arcs = some (wrap s, arcs, w)
    cloned wrap (err e, w) arcs = none

    -- Clone for Connection
    unfoldable pub clone :
        Connection Tcp Unix
        → List (Shared Owned)
        → World
        → Option (Connection Tcp Unix × List (Shared Owned) × World)
    unfolding cloned
    clone (tcp s) arcs w = cloned tcp (tcps.try_clone s w) arcs
    clone (unix s) arcs w = cloned unix (unixs.try_clone s w) arcs
    clone (rustls t) arcs w =
        let (t', arcs') = Tls.clone_handle t arcs in some (rustls t', arcs', w)

  -- Drop for Connection: a TLS stream loses an owner.
  unfoldable pub drop_connection : Connection Tcp Unix → List (Shared Owned) → List (Shared Owned)
  drop_connection (rustls t) arcs = Tls.drop_handle t arcs
  drop_connection _ arcs = arcs
