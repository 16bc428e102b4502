-- ===== src/Examples/Lines.antt =====
-- examples/upgrade.rs: a connection that is upgraded to a protocol of lines, each of which is echoed.
pub mod Echo
use mathlib.Core.List.{reverse}
use touche.Base.{
  ℕ, zero, suc, Option, none, some, [], ◌∷◌, ◌++◌, Bool, true, false, not, ◌||◌, Bytes, codes,
  is_nil, cr, lf, ◌==◌, if◌then◌else◌,
}
use touche.Base.Result.{Result, ok, err, ◌>>◌}
use touche.Io.{IoError, Stream, Sink, read_line, write_all, flush}
use touche.Crates.{Crates, http_11}
use touche.Http.{Response}
use touche.Body.{BodyInner, empty}
use touche.Upgrade.{upgrade}
use touche.Examples.Chat.{same_text}

-- The end of a line, on the line read backwards.
unfoldable pub drop_cr : Bytes → Bytes
drop_cr [] = []
drop_cr (b ∷ bs) = if b == cr then bs else b ∷ bs

unfoldable pub drop_end : Bytes → Bytes
unfolding drop_cr
drop_end [] = []
drop_end (b ∷ bs) = if b == lf then drop_cr bs else b ∷ bs

-- What BufRead::lines makes of a line: its end, "\n" or "\r\n", is left out.
unfoldable pub strip_line : Bytes → Bytes
unfolding drop_end
strip_line line = reverse (drop_end (reverse line))

-- The handler's loop, by whether a line is UTF-8. An error of the writer is the panic of `unwrap`; `none` is
-- a run without an end within the fuel.
unfoldable pub echo_lines :
    (Bytes → Bool) → ℕ → Stream → Sink → Option (Result IoError (Unit {0}) × Sink)
unfolding same_text strip_line
echo_lines is_utf8 zero s w = none
echo_lines is_utf8 (suc fuel) s w =
    let (l, s') = read_line s in
    elim l [
      | err e ↦ some (ok tt, w)
      | ok line ↦
          let text = strip_line line in
          let (wrote, w') = (write_all (text ++ lf ∷ []) >> flush) w in
          let rest : Option (Result IoError (Unit {0}) × Sink) = echo_lines is_utf8 fuel s' w' in
          let echoed : Option (Result IoError (Unit {0}) × Sink) = elim wrote [
            | err e ↦ some (err e, w')
            | ok u ↦ rest
          ] in
          if is_nil line || (not (is_utf8 line) || same_text text (codes "quit"))
          then some (ok tt, w)
          else echoed
    ]

-- The response that the service answers every request with.
abbrev pub switching :
    (c : Crates) {Handler : Type 0}
    → c.HeaderMap
    → Handler
    → Response c Handler (BodyInner c.HeaderMap)
switching c headers handler =
    upgrade
      (record { status = 101; version = http_11; headers = headers; upgrade = none; body = empty })
      handler
