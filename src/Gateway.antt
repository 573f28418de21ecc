-- ===== src/Gateway.antt =====
-- internal/gateway: the HTTP side that other agents reach. A request is admitted by its contact, its
-- key, its node, its signature and its nonce; a message is looked up before it is
-- handed to the local agent.
pub mod Access
pub mod Forward
pub mod Messages
pub mod Blob
