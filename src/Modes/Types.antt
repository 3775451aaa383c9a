-- ===== src/Modes/Types.antt =====
-- The flags, records and numerics of src/channel_mode.c and include/channel_mode.h. A flag word is a
-- Boolean function of its flags, and the state that the handlers of letters share is one record.
use unirc_ircd.Prelude.{
  ℕ, ◌+◌, Bool, true, Option, none, List, [], ◌∷◌, ◌++◌, ◌==◌, ltb, if◌then◌else◌,
}
use unirc_ircd.Chars.{Bytes}
use unirc_ircd.Channel.Types.{Ban, BanType, Config}

-- The channel modes without a parameter.
pub data Flag : Type 0 where
  private secret moderated topic_limit invite_only no_privmsgs reg_only no_ctrl oper_only : Flag
  mod_reg no_spam bw_saver no_notices chan_reg strip_color no_flood ssl_only : Flag

abbrev pub bit : Flag → ℕ
bit private = 0x00001
bit secret = 0x00002
bit moderated = 0x00004
bit topic_limit = 0x00008
bit invite_only = 0x00010
bit no_privmsgs = 0x00020
bit reg_only = 0x00040
bit no_ctrl = 0x00080
bit oper_only = 0x00100
bit mod_reg = 0x00200
bit no_spam = 0x00400
bit bw_saver = 0x00800
bit no_notices = 0x01000
bit chan_reg = 0x02000
bit strip_color = 0x04000
bit no_flood = 0x08000
bit ssl_only = 0x20000

-- The flags of a membership.
pub data MemberFlag : Type 0 where
  owner protected chanop halfop voice deopped ban_checked ban_silenced : MemberFlag

abbrev pub member_bit : MemberFlag → ℕ
member_bit owner = 0x0001
member_bit protected = 0x0002
member_bit chanop = 0x0004
member_bit halfop = 0x0008
member_bit voice = 0x0010
member_bit deopped = 0x0020
member_bit ban_checked = 0x0080
member_bit ban_silenced = 0x0100

abbrev pub put_flag : Flag → Bool → (Flag → Bool) → Flag → Bool
put_flag f b flags = λ g. if bit g == bit f then b else flags g

abbrev pub put_member_flag : MemberFlag → Bool → (MemberFlag → Bool) → MemberFlag → Bool
put_member_flag f b flags = λ g. if member_bit g == member_bit f then b else flags g

-- `MODE_QUERY`, `MODE_ADD`, `MODE_DEL`
pub data Dir : Type 0 where
  query : Dir
  add : Dir
  del : Dir

-- `CHACCESS_*`, each one more than in the source, where the first is -1.
abbrev pub chaccess_notonchan : ℕ
chaccess_notonchan = 0

abbrev pub chaccess_peon : ℕ
chaccess_peon = 1

abbrev pub chaccess_halfop : ℕ
chaccess_halfop = 2

abbrev pub chaccess_chanop : ℕ
chaccess_chanop = 3

abbrev pub chaccess_protected : ℕ
chaccess_protected = 4

abbrev pub chaccess_owner : ℕ
chaccess_owner = 5

abbrev pub chaccess_remote : ℕ
chaccess_remote = 6

-- `struct Mode`; `limit`, `msgs` and `per` are unsigned numbers of 32 bits.
pub record ChannelMode : Type 0 where
  pub mode : Flag → Bool
  pub limit : ℕ
  pub key : Bytes
  pub forward : Bytes
  pub msgs : ℕ
  pub per : ℕ

-- The fields of `struct Channel` that modes are about; `flags` has the membership of each member.
pub record Channel : Type 0 where
  pub mode : ChannelMode
  pub members : List ℕ
  pub flags : ℕ → MemberFlag → Bool
  pub banlist : List Ban
  pub exceptlist : List Ban
  pub invexlist : List Ban

-- What is read of the members and targets.
pub record Person : Type 0 where
  pub name : Bytes
  pub id : Bytes
  pub is_client : Bool
  pub is_services : Bool
  pub is_ssl : Bool
  pub my_connect : Bool

-- The argument of a change: NULL, a text, or a pointer to `chptr->mode.key` or `chptr->mode.forward`,
-- which is read when the change is sent.
pub data Arg : Type 0 where
  no_arg : Arg
  text : Bytes → Arg
  key_buffer : Arg
  forward_buffer : Arg

pub data Mems : Type 0 where
  all_members only_chanops only_servers : Mems

-- The capabilities that a change needs, of `CAP_EX` and `CAP_IE`.
pub data Caps : Type 0 where
  no_caps cap_ex cap_ie : Caps

-- `struct ChModeChange`; `nocaps` is always 0.
pub record Change : Type 0 where
  pub letter : ℕ
  pub arg : Arg
  pub id : Option Bytes
  pub dir : Dir
  pub caps : Caps
  pub mems : Mems

-- `SM_ERR_*`
pub record Errors : Type 0 where
  pub noops : Bool
  pub unknown : Bool
  pub rpl_b : Bool
  pub rpl_e : Bool
  pub not_on_channel : Bool
  pub rpl_i : Bool
  pub not_oper : Bool

-- `source_p` and `client_p`
pub record Source : Type 0 where
  pub number : ℕ
  pub my_client : Bool
  pub is_oper : Bool
  pub is_services : Bool
  pub client_is_server : Bool

-- What a command runs in; `find_chasing` of src/client.c looks a nick up, `parse_netmask` is that of
-- src/hostmask.c, `nicklen` that of setup.h.
pub record Env : Type 0 where
  pub source : Source
  pub find_chasing : Bytes → Option ℕ
  pub parse_netmask : Bytes → BanType × ℕ × ℕ
  pub person : ℕ → Person
  pub nicklen : ℕ
  pub max_bans : ℕ
  pub conf : Config

-- The channel, `mode_changes`, `mode_limit`, `simple_modes_mask`, `errors`, the parameters that are left,
-- and the numerics of the replies.
pub record Work : Type 0 where
  pub chan : Channel
  pub changes : List Change
  pub mode_limit : ℕ
  pub simple_mask : Flag → Bool
  pub errors : Errors
  pub params : List Bytes
  pub replies : List ℕ

abbrev pub maxmodeparams : ℕ
maxmodeparams = 4

abbrev pub reply : ℕ → Work → Work
reply numeric w = record w { replies = w.replies ++ numeric ∷ [] }

abbrev pub add_change : Change → Work → Work
add_change c w = record w { changes = w.changes ++ c ∷ [] }

abbrev pub plain : ℕ → Dir → Arg → Change
plain letter dir arg = record {
  letter = letter;
  arg = arg;
  id = none;
  dir = dir;
  caps = no_caps;
  mems = all_members;
}

-- The refusal at the start of most handlers: 442 is ERR_NOTONCHANNEL, `numeric` what those on the channel get.
abbrev pub err_notonchannel : ℕ
err_notonchannel = 442

abbrev pub err_chanoprivsneeded : ℕ
err_chanoprivsneeded = 482

abbrev pub err_chanownprivneeded : ℕ
err_chanownprivneeded = 499

abbrev pub err_cannotchangechanmode : ℕ
err_cannotchangechanmode = 974

-- An error of which a command tells once.
unfoldable pub no_ops : ℕ → Work → Work
no_ops numeric w =
    let told = if w.errors.noops then w else reply numeric w in
    record told { errors = record (w.errors) { noops = true } }

unfoldable pub deny : ℕ → ℕ → Work → Work
deny numeric alev w = no_ops (if alev == chaccess_notonchan then err_notonchannel else numeric) w

-- `if(MyClient(source_p) && (++mode_limit > MAXMODEPARAMS)) return;`
abbrev pub limited : Env → Work → (Work → Work) → Work
limited env w go =
    let counted = record w { mode_limit = w.mode_limit + 1 } in
    if env.source.my_client
    then if ltb maxmodeparams (w.mode_limit + 1) then counted else go counted
    else go w
