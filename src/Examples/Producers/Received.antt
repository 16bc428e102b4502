-- ===== src/Examples/Producers/Received.antt =====
-- What a client gets of a body that a thread filled.
use touche.Base.{
  ◌≡◌, refl, ap, ◌∙◌, Option, none, some, List, [], ◌∷◌, ◌++◌, map, append_assoc, append-nil, Bool,
  true, Bytes, codes, concat, crlf, All,
}
use touche.Base.Result.{ok}
use touche.Io.{Stream, with_rest}
use touche.Crates.{Crates}
use touche.Crates.Laws.{HeaderLaws, ReadsResponses, ReadsSizes}
use touche.Http.{Response}
use touche.Chunked.{read_chunks}
use touche.Chunked.RoundTrip.{IsSendable}
use touche.Wire.{header_lines}
use touche.Wire.Body.{chunked}
use touche.Body.{BodyInner, bytes, trailers, iter, decoded}
use touche.Body.Chunks.{Item}
use touche.Body.Chunks.Laws.{chunks-iter}
use touche.Body.Channel.{send, post, send_trailer, send_trailers, channel, from_channel}
use touche.Body.{len_inner}
use touche.Body.Consume.Agree.{IsOk, before_error-ok}
use touche.Body.Channel.Laws.{data_of}
use touche.Body.Consume.{inner_body, into_bytes, into_chunks, source_items}
use touche.Response.{parse_response}
use touche.Response.Encode.{choose_encoding}
use touche.Response.Written.{response_text}
use touche.Response.Parsed.{CanSend}
use touche.Response.RoundTrip.{extend_all}
use touche.Response.RoundTrip.Chunked.{chunked_round_trip}
use touche.Examples.Producers.{send_each, boxed, digest_thread}

module _ {HeaderMap : Type 0} where
  -- While the body is there each piece goes out.
  send_each-listening :
      (bss : List Bytes) (items : List (Item HeaderMap))
      → send_each bss (record { queue = items; listening = true })
        ≡ (ok tt, record { queue = items ++ data_of HeaderMap bss; listening = true })
  unfolding send_each send post
  send_each-listening [] items = rw append-nil refl
  send_each-listening (bs ∷ bss) items =
      send_each-listening bss (items ++ ok (bytes bs) ∷ [])
      ∙ ap (λ l. (ok tt, record { queue = l; listening = true }))
          (append_assoc items (ok (bytes bs) ∷ []) (data_of HeaderMap bss))

module _ (c : Crates) (digest : Bytes → Bytes) where
  open c use {HeaderMap, no_headers, append}

  digest_thread-channel :
      (bss : List Bytes) (t : HeaderMap)
      → append no_headers (codes "content-md5") (digest (concat bss)) ≡ some t
      → digest_thread c digest bss channel ≡ (
        ok tt,
        record { queue = data_of HeaderMap bss ++ ok (trailers t) ∷ []; listening = true },
      )
  unfolding digest_thread boxed send_trailer send_trailers post
  digest_thread-channel bss t e =
      rw (send_each-listening bss [], digest_thread, boxed) (rw (e, send_trailer) refl)

  -- What the thread sends to the body of its response.
  abbrev pub digest_body : List Bytes → BodyInner HeaderMap
  digest_body bss = from_channel (digest_thread c digest bss channel).1

  digested-IsOk :
      (bss : List Bytes) (t : HeaderMap) → All IsOk (data_of HeaderMap bss ++ ok (trailers t) ∷ [])
  digested-IsOk [] t = (tt, tt)
  digested-IsOk (bs ∷ bss) t = (tt, digested-IsOk bss t)

  digest_body-chunks :
      (bss : List Bytes) (t : HeaderMap)
      → append no_headers (codes "content-md5") (digest (concat bss)) ≡ some t
      → (inner_body c).into_chunks (digest_body bss)
        ≡ data_of HeaderMap bss ++ map (λ u. ok (trailers u)) (t ∷ [])
  unfolding from_channel into_chunks source_items
  digest_body-chunks bss t e =
      let items = data_of HeaderMap bss ++ ok (trailers t) ∷ [] in
      rw (digest_thread-channel bss t e)
        (chunks-iter items ∙ before_error-ok items (digested-IsOk bss t))

  -- A response whose body a thread fills, as that of trailers.rs does, is read back with its status,
  -- version, sent headers and the pieces put together, and the header with their digest stands behind them
  -- on the connection. It goes out in chunks, its head can be sent, no piece is empty or has 2 ^ 64 bytes,
  -- the digest can be the value of a header, and the response's own headers have a readable
  -- Transfer-Encoding, if any.
  pub digest_body-received :
      {Handler Handler' : Type 0} (res : Response c Handler (Unit {0})) (chosen : HeaderMap)
      (te : Option Bool) (bss : List Bytes) (t : HeaderMap) (s : Stream) (r : Bytes)
      → HeaderLaws c
      → ReadsResponses c
      → ReadsSizes c.parse_chunk_size
      → All IsSendable bss
      → append no_headers (codes "content-md5") (digest (concat bss)) ≡ some t
      → c.try_transfer_encoding res.headers ≡ ok te
      → choose_encoding c res.version res.headers none ≡ ok (chunked, chosen)
      → CanSend c res.version res.status chosen
      → let sent : Response c Handler (BodyInner HeaderMap) = record {
        status = res.status;
        version = res.version;
        headers = res.headers;
        upgrade = res.upgrade;
        body = digest_body bss;
      } in
        (s' : Stream) × (parse_response c {Handler = Handler'}
            (with_rest s ((response_text c (inner_body c) sent true).0 ++ r))
          ≡ (
            ok (record {
              status = res.status;
              version = res.version;
              headers = chosen;
              upgrade = none;
              body = iter (decoded s');
            }),
            s',
          ))
        × (into_bytes c (iter (decoded s')) ≡ ok (concat bss))
        × ((read_chunks c.parse_chunk_size s').1
            ≡ with_rest s (header_lines (c.iter (c.extend no_headers t)) ++ (crlf ++ r)))
  unfolding len_inner from_channel extend_all
  digest_body-received {Handler' = Handler'} res chosen te bss t s r laws heads sizes sendable e
        te_is encoded v =
      chunked_round_trip c laws {Handler' = Handler'} (inner_body c) _ chosen te bss (t ∷ []) s r
        heads sizes sendable (digest_body-chunks bss t e) te_is encoded v
