-- ===== src/Session.antt =====
-- internal/session: the per-machine forward daemon.
pub mod System
pub mod RateLimit
pub mod Rebind
pub mod Reconnect
pub mod Supervise
pub mod Sessions
pub mod Add
pub mod Daemon
pub mod Holding
pub mod Ledger
pub mod Dispatch
pub mod Upstream
pub mod Bind
pub mod Bridge
pub mod Owner
pub mod Fwd
pub mod Table
