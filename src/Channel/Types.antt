-- ===== src/Channel/Types.antt =====
-- The structs of include/channel.h and the fields of include/client.h that src/channel.c reads.
use unirc_ircd.Prelude.{ℕ, Bool, Option, List}
use unirc_ircd.Chars.{Bytes}

-- The bits of `mode` and the other fields of `struct Mode`.
pub record Mode : Type 0 where
  pub moderated : Bool
  pub invite_only : Bool
  pub no_privmsgs : Bool
  pub reg_only : Bool
  pub no_ctrl : Bool
  pub oper_only : Bool
  pub mod_reg : Bool
  pub no_spam : Bool
  pub no_notices : Bool
  pub no_flood : Bool
  pub ssl_only : Bool
  pub limit : ℕ
  pub key : Bytes
  pub msgs : ℕ
  pub per : ℕ

pub data BanType : Type 0 where
  hm_host : BanType
  hm_ipv4 : BanType

pub record Ban : Type 0 where
  pub name : Bytes
  pub username : Bytes
  pub host : Bytes
  pub addr : ℕ
  pub bits : ℕ
  pub kind : BanType

pub record Channel : Type 0 where
  pub id : ℕ
  pub chname : Bytes
  pub mode : Mode
  pub members : List ℕ
  pub banlist : List Ban
  pub exceptlist : List Ban
  pub invexlist : List Ban

-- `lmsg` is NULL, or the last message.
pub record Membership : Type 0 where
  pub chptr : ℕ
  pub owner : Bool
  pub protected : Bool
  pub chanop : Bool
  pub halfop : Bool
  pub voice : Bool
  pub ban_checked : Bool
  pub ban_silenced : Bool
  pub lmsg : Option Bytes
  pub nmsg : ℕ
  pub lsize : ℕ
  pub lmsg_time : ℕ

pub record Client : Type 0 where
  pub name : Bytes
  pub username : Bytes
  pub host : Bytes
  pub realhost : Bytes
  pub sockhost : Bytes
  pub is_inet : Bool
  pub ip : ℕ
  pub is_client : Bool
  pub is_server : Bool
  pub is_services : Bool
  pub my_client : Bool
  pub is_oper : Bool
  pub is_reg_nick : Bool
  pub is_ssl : Bool
  pub is_exempt_resv : Bool
  pub invited : List ℕ
  pub channel : List Membership
  pub since : ℕ

-- `ConfigChannel`, the fields of `ConfigFileEntry` that are read, and `CurrentTime`.
pub record Config : Type 0 where
  pub use_except : Bool
  pub use_invex : Bool
  pub quiet_on_ban : Bool
  pub restrict_channels : Bool
  pub disable_fake_channels : Bool
  pub oper_pass_resv : Bool
  pub current_time : ℕ
