-- ===== src/Channel/Tests.antt =====
-- Joining, bans and sending of src/channel.c on a concrete channel and client.
use unirc_ircd.Prelude.{
  ◌≡◌, refl, Bool, true, false, not, ◌&&◌, [], ◌∷◌, arith, none, some, ◌||◌, ◌==◌, if◌then◌else◌,
}
use unirc_ircd.Chars.{Bytes, to_lower}
use unirc_ircd.Channel.Types.{Mode, Ban, hm_host, Channel, Membership, Client, Config}
use unirc_ircd.Channel.Bans.{find_bmask, is_banned, any_names, is_banned-eq}
use unirc_ircd.Channel.Join.{can_join, err_channelisfull}
use unirc_ircd.Channel.Flood.{flood_run, flood_run-refuses}
use unirc_ircd.Channel.Send.{has_status}
use unirc_ircd.Channel.Invites.{Invites, add_invite, Invited, add_invite-Invited}
use unirc_ircd.Channel.Send.Modes.{IsQuietable}

abbrev mode : Mode
mode = record {
  moderated = false;
  invite_only = false;
  no_privmsgs = false;
  reg_only = false;
  no_ctrl = true;
  oper_only = false;
  mod_reg = false;
  no_spam = false;
  no_notices = true;
  no_flood = true;
  ssl_only = false;
  limit = 2;
  key = [];
  msgs = 3;
  per = 5;
}

-- `*!*@*.b`
abbrev ban : Ban
ban = record {
  name = b'*' ∷ [];
  username = b'*' ∷ [];
  host = b'*' ∷ b'.' ∷ b'b' ∷ [];
  addr = 0;
  bits = 0;
  kind = hm_host;
}

abbrev channel : Channel
channel = record {
  id = 1;
  chname = b'#' ∷ b'c' ∷ [];
  mode = mode;
  members = 10 ∷ [];
  banlist = [];
  exceptlist = [];
  invexlist = [];
}

abbrev banning : Channel
banning = record channel { banlist = ban ∷ [] }

abbrev ms : Membership
ms = record {
  chptr = 1;
  owner = false;
  protected = false;
  chanop = false;
  halfop = false;
  voice = false;
  ban_checked = false;
  ban_silenced = false;
  lmsg = none;
  nmsg = 0;
  lsize = 0;
  lmsg_time = 0;
}

abbrev who : Client
who = record {
  name = b'n' ∷ [];
  username = b'u' ∷ [];
  host = b'a' ∷ b'.' ∷ b'b' ∷ [];
  realhost = b'r' ∷ [];
  sockhost = b's' ∷ [];
  is_inet = false;
  ip = 0;
  is_client = true;
  is_server = false;
  is_services = false;
  my_client = true;
  is_oper = false;
  is_reg_nick = false;
  is_ssl = false;
  is_exempt_resv = true;
  invited = [];
  channel = ms ∷ [];
  since = 0;
}

abbrev conf : Config
conf = record {
  use_except = true;
  use_invex = true;
  quiet_on_ban = true;
  restrict_channels = false;
  disable_fake_channels = false;
  oper_pass_resv = true;
  current_time = 100;
}

abbrev no_resv : Bytes → Bool
no_resv s = false

full : can_join conf who (record channel { members = 10 ∷ 11 ∷ [] }) none ≡ err_channelisfull
unfolding can_join is_banned find_bmask
full = refl

banned : is_banned conf banning who ≡ true
unfolding is_banned find_bmask to_lower
banned = refl

-- A channel with a key.
abbrev locked : Channel
locked = record channel { mode = record channel.mode { key = b'k' ∷ [] } }

is_banned-eq_example :
    is_banned conf banning who ≡ (any_names who (ban ∷ []) && not (true && any_names who []))
is_banned-eq_example = is_banned-eq conf banning who

who-IsQuietable : IsQuietable conf no_resv banning who ms
unfolding has_status
who-IsQuietable = record {
  quiet = refl;
  local = refl;
  exempt = refl;
  no_server = refl;
  no_services = refl;
  no_status = refl;
}

flood_run-refuses_example : (flood_run mode (10 ∷ 12 ∷ 16 ∷ []) (false, ms)).0 ≡ true
flood_run-refuses_example =
    flood_run-refuses mode ms 10 (12 ∷ 16 ∷ []) (omega arith) (omega arith) (omega arith)
      (omega arith, omega arith, (omega arith, omega arith, tt))

-- The last message is 90 seconds old.
abbrev sent_before : Membership
sent_before = record ms { lmsg = some (b'h' ∷ b'i' ∷ []); lsize = 2; lmsg_time = 10 }

-- Client 9 is invited to the channels 1 and 2, and may have two invitations.
abbrev invitations : Invites
invitations = record {
  invited = 1 ∷ 2 ∷ [];
  invites = λ c. if (c == 1) || (c == 2) then 9 ∷ [] else [];
}

add_invite-Invited_example : Invited 2 3 9 (add_invite 2 3 9 invitations)
add_invite-Invited_example =
    add_invite-Invited 2 3 9 invitations (omega arith) (λ c. ground arith) (omega arith)
