-- ===== src/Server.antt =====
-- apps/server: the HTTP API. A handler is a function from the server's state, and from the outcomes of
-- the calls that it awaits, to a response and the state after it.
pub mod Error
pub mod Handler
pub mod Files
pub mod RateLimit
pub mod KeyServer
pub mod Auth
pub mod Oauth
pub mod Purge
pub mod Config
pub mod Startup
pub mod Datasources
