-- ===== src/Examples/Routes.antt =====
-- examples/routes.rs and file.rs: services that choose a response by the request or by a file.
use touche.Base.{
  ℕ, ◌≡◌, refl, ap, ◌∙◌, Option, none, List, [], Bool, true, ◌&&◌, Bytes, codes, if◌then◌else◌,
}
use mathlib.Core.List.{reverse, reverse-reverse}
use touche.Base.Result.{Result, ok, err}
use touche.Io.{Stream}
use touche.Crates.{Crates, http_11}
use touche.Http.{Response}
use touche.Body.{Body, BodyInner, IoResult, empty, buffered}
use touche.Body.Consume.{into_bytes}
use touche.Body.From.{Metadata, empty_body, from_path}
use touche.Examples.Chat.{same_text}

-- std::str: from_utf8, with the text of its error, and the bytes of characters.
pub record Text (Char : Type 0) : Type 0 where
  pub from_utf8 : Bytes → Result Bytes (List Char)
  pub to_bytes : List Char → Bytes

-- What the program relies on: characters are read back as they were written.
pub record TextLaws {Char : Type 0} (str : Text Char) : Type 0 where
  pub reads : (cs : List Char) → str.from_utf8 (str.to_bytes cs) ≡ ok cs

-- Result::unwrap_or_default
abbrev pub or_empty : IoResult Bytes → Bytes
or_empty (ok bs) = bs
or_empty (err e) = []

module _ (c : Crates) (Handler : Type 0) where
  open c use {HeaderMap, no_headers}

  abbrev pub routed : ℕ → BodyInner HeaderMap → Response c Handler (BodyInner HeaderMap)
  routed status body = record {
    status = status;
    version = http_11;
    headers = no_headers;
    upgrade = none;
    body = body;
  }

  module _ {Char : Type 0} (str : Text Char) where
    -- The arm of POST /reverse, by the message or why it is none.
    unfoldable pub reversed : Result Bytes (List Char) → Response c Handler (BodyInner HeaderMap)
    reversed (ok message) = routed 200 (buffered (str.to_bytes (reverse message)))
    reversed (err text) = routed 400 (buffered text)

    -- The match on the method, by whether it is POST, and on the path.
    unfoldable pub route :
        Bool → Bytes → BodyInner HeaderMap → Response c Handler (BodyInner HeaderMap)
    unfolding reversed same_text
    route is_post path body =
        if same_text path (codes "/")
        then routed 200 (buffered (codes "Usage: curl -d hello localhost:4444/echo\n"))
        else if is_post && same_text path (codes "/echo")
        then routed 200 body
        else if is_post && same_text path (codes "/reverse")
        then reversed (str.from_utf8 (or_empty (into_bytes c body)))
        else routed 404 empty

    route-once :
        TextLaws str
        → (body : BodyInner HeaderMap) (cs : List Char) → into_bytes c body ≡ ok (str.to_bytes cs)
        → into_bytes c (route true (codes "/reverse") body).body ≡ ok (str.to_bytes (reverse cs))
    unfolding route reversed same_text
    route-once laws body cs e = rw e (rw (laws.reads cs) (unfold into_bytes in refl))

    -- A text that is posted to /reverse comes back reversed, and posting what came back gives the text, if
    -- characters are read back as they are written.
    pub route-reverse :
        TextLaws str
        → (body : BodyInner HeaderMap) (cs : List Char) → into_bytes c body ≡ ok (str.to_bytes cs)
        → let once = route true (codes "/reverse") body in
          (into_bytes c once.body ≡ ok (str.to_bytes (reverse cs)))
          × (into_bytes c (route true (codes "/reverse") once.body).body ≡ ok (str.to_bytes cs))
    route-reverse laws body cs e =
        let once = route-once laws body cs e in
        let twice = route-once laws (route true (codes "/reverse") body).body (reverse cs) once in
        (once, twice ∙ ap (λ l. ok (str.to_bytes l)) (reverse-reverse cs))

  -- The closure of file.rs, by the opened file or the error of opening it; `none` is a body that was taken
  -- from, which a new one is not.
  unfoldable pub file_response :
      IoResult (IoResult Metadata × Stream) → Response c Handler (Option (BodyInner HeaderMap))
  unfolding from_path
  file_response opened =
      let reply : ℕ → Body HeaderMap → Response c Handler (Option (BodyInner HeaderMap)) =
        λ status body. record {
          status = status;
          version = http_11;
          headers = no_headers;
          upgrade = none;
          body = body.inner;
        } in
      elim (from_path opened) [ ok file ↦ reply 200 file | err e ↦ reply 404 empty_body ]
