-- ===== src/Channel.antt =====
-- src/channel.c and include/channel.h: bans, joining, sending and invitations. A flag word is a record
-- with a Boolean for each bit that the code reads, a `time_t` is a number of seconds, and the modules
-- below are about one operation each.
pub mod Types
pub mod Bans
pub mod Join
pub mod Spam
pub mod Flood
pub mod Send
pub mod Invites
pub mod Status
pub mod Registry
mod Tests
