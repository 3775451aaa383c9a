-- ===== src/Sjoin.antt =====
-- modules/core/m_sjoin.c, built with CHANAQ and HALFOPS: how a server takes in what another one says of a
-- channel. Letters reads the modes, Settle decides by the timestamps whose modes stay and joins them, Final
-- writes what changed, Members has the members and the whole of `ms_sjoin`. Relay leads from the modes of
-- one server, by what src/channel_mode.c writes of them, to those that the next one reads.
pub mod Letters
pub mod Settle
pub mod Final
pub mod Members
pub mod Relay
pub mod Agreement
mod Tests
