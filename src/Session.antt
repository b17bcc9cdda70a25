-- ===== src/Session.antt =====
-- lib/protocol/Protocol.js: the requests of a session (pty, signal, environment, X11, subsystem, agent)
-- and the channels that a server opens, written, and read by lib/protocol/handlers.misc.js.
pub mod Outbound
pub mod Requests
pub mod Openings
pub mod Exchange
mod Tests
