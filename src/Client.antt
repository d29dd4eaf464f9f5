-- ===== src/Client.antt =====
-- The client program, client/.
pub mod Serialize
pub mod Window
pub mod Friends
pub mod Talk
pub mod Terminal
pub mod Drawing
pub mod Notices
pub mod Requests
pub mod Keyboard
pub mod Commands
pub mod SendLoop
pub mod Config
pub mod Console
pub mod Program
