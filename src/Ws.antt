-- ===== src/Ws.antt =====
-- wotpy/protocols/ws: the JSON-RPC messages of the WebSockets binding.
pub mod Schemas
pub mod Messages
pub mod RoundTrip
pub mod Handler
pub mod Client
