-- ===== src/Modes.antt =====
-- src/channel_mode.c, built with CHANAQ, HALFOPS and HAVE_LIBCRYPTO: the modes of a channel. Types has
-- the channel and the state of one MODE command; Masks, Params, Members and Lists are the handlers of the
-- mode letters, Table the table of them and the loop over the letters, Show and Send the texts.
pub mod Types
pub mod Masks
pub mod Params
pub mod Members
pub mod Lists
pub mod Table
pub mod Show
pub mod Send
pub mod Access
pub mod Walk
pub mod Standing
pub mod Counts
mod Tests
