-- ===== src/Gateway.antt =====
-- api-gateway: the authentication of requests, the counting of routes, the proxy, the usage header and
-- the sockets.
pub mod Auth
pub mod Metrics
pub mod Proxy
pub mod Usage
pub mod App
pub mod Sockets
pub mod Server
pub mod Env
mod Tests
