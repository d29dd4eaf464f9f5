-- ===== src/Protocol.antt =====
-- What the two programs say to each other: a message printed by one is read by the other.
pub mod Fields
pub mod Requests
pub mod Updates
pub mod FriendLists
pub mod Notices
pub mod NoticeLines
pub mod NoticeCalls
pub mod Calls
pub mod Sessions
pub mod Exchange
