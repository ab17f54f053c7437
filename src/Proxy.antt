-- ===== src/Proxy.antt =====
-- src/internal/proxy: the data plane, from an accepted connection to the spliced session.
pub mod Cancel
pub mod Backoff
pub mod Negotiate
pub mod Relay
pub mod Dial
pub mod Session
pub mod Splice
pub mod Server
