-- ===== src/Session.antt =====
-- Session resumption: the reverse hash chain, the server's check of a presented link, the sessions that
-- it keeps, and the client's choice of a token.
pub mod Digest
pub mod HashChain
pub mod Server
pub mod Client
pub mod Reconnect
