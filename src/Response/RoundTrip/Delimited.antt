-- ===== src/Response/RoundTrip/Delimited.antt =====
-- write_response and parse_response over a body that the end of the connection delimits.
use touche.Crates.{Crates}
use touche.Http.{Response}
