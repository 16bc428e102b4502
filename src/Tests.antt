-- ===== src/Tests.antt =====
-- Concrete instances of the third-party crates, and the theorems at concrete inputs.
mod Sizes
mod Sample
mod Maps
mod Splitting
mod Heads
mod Fixtures
mod RoundTrips
mod Pipelines
mod Connections
mod Rooms
mod Bodies
mod Messages
mod Serving
mod Queueing
mod Sockets
mod Refusals
mod Ends
