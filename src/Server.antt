-- ===== src/Server.antt =====
-- The server program, server/.
pub mod Parse
pub mod State
pub mod Sql
pub mod Users
pub mod Friends
pub mod Logins
pub mod Handlers
pub mod Dispatch
pub mod Accounts
pub mod Invariant
pub mod Sessions
pub mod Safety
pub mod Notify
pub mod Connection
pub mod Threads
