-- ===== src/Body/Channel.antt =====
-- body.rs, BodyChannel: the sender half of a body that another thread fills.
pub mod Laws
use touche.Base.{
  ℕ, ◌≡◌, refl, ap, sym, ◌∙◌, Option, none, some, List, [], ◌∷◌, ◌++◌, map, append-nil,
  append_assoc, Bool, true, false, arith, Bytes, concat, All, if◌then◌else◌,
}
use touche.Base.Result.{Result, ok, err, Act}
use touche.Io.{IoError, body_closed, aborted}
use touche.Crates.{Crates}
use touche.Body.{IoResult, Chunk, Source, BodyInner, bytes, trailers, listed, iter}

-- An mpsc channel: the messages sent and not yet received, oldest first, and whether the receiver, the
-- body, is still there.
pub record Channel (HeaderMap : Type 0) : Type 0 where
  pub queue : List (IoResult (Chunk HeaderMap))
  pub listening : Bool

pub data TrailerError : Type 0 where
  invalid_header : TrailerError
  io : IoError → TrailerError

module _ {HeaderMap : Type 0} where
  -- Sender::send; `false` when the receiver is gone.
  unfoldable pub post : IoResult (Chunk HeaderMap) → Channel HeaderMap → Bool × Channel HeaderMap
  post item ch =
      if ch.listening then (true, record ch { queue = ch.queue ++ item ∷ [] }) else (false, ch)

  abbrev or_closed : Bool × Channel HeaderMap → Result IoError (Unit {0}) × Channel HeaderMap
  or_closed (true, ch) = (ok tt, ch)
  or_closed (false, ch) = (err body_closed, ch)

  -- BodyChannel::send
  unfoldable pub send : Bytes → Act (Channel HeaderMap) IoError (Unit {0})
  unfolding post
  send bs ch = or_closed (post (ok (bytes bs)) ch)

  -- BodyChannel::send_trailers
  unfoldable pub send_trailers : HeaderMap → Act (Channel HeaderMap) IoError (Unit {0})
  unfolding post
  send_trailers t ch = or_closed (post (ok (trailers t)) ch)

  -- BodyChannel::abort; a receiver that is gone is no matter.
  unfoldable pub abort : Channel HeaderMap → Channel HeaderMap
  unfolding post
  abort ch = (post (err aborted) ch).1

  -- Body::channel: the body receives what is sent until the sender is gone. `from_channel` is the body
  -- of a channel whose sender is gone.
  abbrev pub channel : Channel HeaderMap
  channel = record { queue = []; listening = true }

  unfoldable pub from_channel : Channel HeaderMap → BodyInner HeaderMap
  from_channel ch = iter (listed ch.queue)

  -- Sends one after the other, each result looked at by nobody.
  unfoldable pub send_all : List Bytes → Channel HeaderMap → Channel HeaderMap
  unfolding send
  send_all [] ch = ch
  send_all (bs ∷ more) ch = send_all more (send bs ch).1

module _ (c : Crates) where
  open c use {HeaderMap, no_headers, append}

  -- BodyChannel::send_trailer: the name and the value must be well formed.
  unfoldable pub send_trailer : Bytes → Bytes → Act (Channel HeaderMap) TrailerError (Unit {0})
  unfolding send_trailers
  send_trailer name value ch = elim (append no_headers name value) [
    | none ↦ (err invalid_header, ch)
    | some t ↦
        let (r, ch') = send_trailers t ch in
        elim r [ ok u ↦ (ok u, ch') | err e ↦ (err (io e), ch') ]
  ]
