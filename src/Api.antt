-- ===== src/Api.antt =====
-- internal/api: the HTTP interface. A request is what the router, a third-party package, makes of
-- it: the route it matches, with its path variables, query values and decoded body.
pub mod Server
pub mod Reads
pub mod Rpc
pub mod Writes
pub mod Admin
pub mod Routes
pub mod Limits
