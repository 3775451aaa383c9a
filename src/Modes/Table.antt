-- ===== src/Modes/Table.antt =====
-- `chm_nosuch`, `chm_simple`, `ModeTable`, `get_channel_access` and `set_channel_mode` of
-- src/channel_mode.c, without the sending at the end.
use unirc_ircd.Prelude.{
  ℕ, Bool, true, false, not, ◌&&◌, ◌||◌, Option, none, some, List, [], ◌∷◌, ◌==◌, ltb,
  if◌then◌else◌,
}
use unirc_ircd.Chars.{Bytes}
use unirc_ircd.Modes.Types.{
  Flag, private, secret, moderated, topic_limit, invite_only, no_privmsgs, reg_only, no_ctrl,
  oper_only, mod_reg, no_spam, bw_saver, no_notices, chan_reg, strip_color, no_flood, ssl_only, bit,
  put_flag, MemberFlag, owner, protected, chanop, halfop, Dir, query, add, del, no_arg, plain,
  Errors, Channel, Env, Work, chaccess_notonchan, chaccess_peon, chaccess_halfop, chaccess_chanop,
  chaccess_protected, chaccess_owner, chaccess_remote, err_chanoprivsneeded,
  err_cannotchangechanmode, add_change, reply, deny,
}
use unirc_ircd.Modes.Params.{on_mode, chm_limit, chm_floodtime, chm_key, chm_forward}
use unirc_ircd.Modes.Members.{chm_owner, chm_protect, chm_op, chm_hop, chm_voice}
use unirc_ircd.Modes.Lists.{chm_ban, chm_except, chm_invex}

abbrev pub err_unknownmode : ℕ
err_unknownmode = 472

abbrev pub err_noprivs : ℕ
err_noprivs = 723

unfoldable pub chm_nosuch : Work → Work
chm_nosuch w =
    if w.errors.unknown
    then w
    else reply err_unknownmode (record w { errors = record (w.errors) { unknown = true } })

-- `SM_ERR_NOTOPER`
unfoldable pub no_privs : Work → Work
no_privs w =
    let told = if w.errors.not_oper then w else reply err_noprivs w in
    record told { errors = record (w.errors) { not_oper = true } }

-- Whether some member that is no service has no secure connection.
unfoldable pub any_nonssl : Env → List ℕ → Bool
any_nonssl env [] = false
any_nonssl env (c ∷ cs) =
    if (env.person c).is_services
    then any_nonssl env cs
    else not (env.person c).is_ssl || any_nonssl env cs

abbrev pub set_simple : Flag → Bool → Dir → ℕ → Work → Work
set_simple f b dir c w =
    add_change (plain c dir no_arg) (on_mode (λ m. record m { mode = put_flag f b m.mode }) w)

unfoldable pub simple_dir : Flag → Dir → ℕ → Work → Work
simple_dir f query c w = w
simple_dir f add c w = if w.chan.mode.mode f then w else set_simple f true add c w
simple_dir f del c w = if w.chan.mode.mode f then set_simple f false del c w else w

-- A simple mode is dealt with once in a command.
unfoldable pub once : Flag → Dir → ℕ → Work → Work
once f dir c w =
    if w.simple_mask f
    then w
    else simple_dir f dir c (record w { simple_mask = put_flag f true w.simple_mask })

abbrev pub is_add_dir : Dir → Bool
is_add_dir add = true
is_add_dir _ = false

unfoldable pub chm_simple : Env → Flag → ℕ → Dir → ℕ → Work → Work
chm_simple env f alev dir c w =
    if ltb alev chaccess_halfop || bit f == bit private && ltb alev chaccess_chanop
    then deny err_chanoprivsneeded alev w
    else if bit f == bit oper_only && ltb alev chaccess_remote && not env.source.is_oper
    then no_privs w
    else if bit f == bit chan_reg && ltb alev chaccess_remote && not env.source.is_services
    then no_privs w
    else if bit f == bit ssl_only
        && is_add_dir dir
        && ltb alev chaccess_remote
        && any_nonssl env w.chan.members
    then reply err_cannotchangechanmode w
    else once f dir c w

-- The functions of `ModeTable`.
pub data Handler : Type 0 where
  nosuch : Handler
  simple : Flag → Handler
  limit_mode floodtime key_mode forward_mode ban except invex owner_mode protect op hop voice_mode :
      Handler

unfoldable pub mode_table : ℕ → Handler
mode_table c =
    if c == b'B'
    then simple bw_saver
    else if c == b'C'
    then simple strip_color
    else if c == b'E'
    then simple ssl_only
    else if c == b'F'
    then forward_mode
    else if c == b'I'
    then invex
    else if c == b'M'
    then simple mod_reg
    else if c == b'N'
    then simple no_notices
    else if c == b'O'
    then simple oper_only
    else if c == b'R'
    then simple reg_only
    else if c == b'S'
    then simple no_spam
    else if c == b'a'
    then protect
    else if c == b'b'
    then ban
    else if c == b'c'
    then simple no_ctrl
    else if c == b'd'
    then simple no_flood
    else if c == b'e'
    then except
    else if c == b'f'
    then floodtime
    else if c == b'h'
    then hop
    else if c == b'i'
    then simple invite_only
    else if c == b'k'
    then key_mode
    else if c == b'l'
    then limit_mode
    else if c == b'm'
    then simple moderated
    else if c == b'n'
    then simple no_privmsgs
    else if c == b'o'
    then op
    else if c == b'p'
    then simple private
    else if c == b'q'
    then owner_mode
    else if c == b'r'
    then simple chan_reg
    else if c == b's'
    then simple secret
    else if c == b't'
    then simple topic_limit
    else if c == b'v'
    then voice_mode
    else nosuch

unfoldable pub handle : Env → ℕ → Dir → ℕ → Handler → Work → Work
handle env alev dir c nosuch w = chm_nosuch w
handle env alev dir c (simple f) w = chm_simple env f alev dir c w
handle env alev dir c limit_mode w = chm_limit alev dir c w
handle env alev dir c floodtime w = chm_floodtime alev dir c w
handle env alev dir c key_mode w = chm_key env alev dir c w
handle env alev dir c forward_mode w = chm_forward env alev dir c w
handle env alev dir c ban w = chm_ban env alev dir w
handle env alev dir c except w = chm_except env alev dir w
handle env alev dir c invex w = chm_invex env alev dir w
handle env alev dir c owner_mode w = chm_owner env alev dir w
handle env alev dir c protect w = chm_protect env alev dir w
handle env alev dir c op w = chm_op env alev dir w
handle env alev dir c hop w = chm_hop env alev dir w
handle env alev dir c voice_mode w = chm_voice env alev dir w

-- The loop over the letters.
abbrev pub next_dir : ℕ → Dir → Dir
next_dir c dir =
    if c == b'+' then add else if c == b'-' then del else if c == b'=' then query else dir

abbrev pub is_sign : ℕ → Bool
is_sign c = c == b'+' || c == b'-' || c == b'='

unfoldable pub letters : Env → ℕ → Dir → Bytes → Work → Work
letters env alev dir [] w = w
letters env alev dir (c ∷ s) w =
    letters env alev (next_dir c dir) s
      (if is_sign c then w else handle env alev dir c (mode_table c) w)

-- `get_channel_access`, for the membership of the source.
unfoldable pub get_channel_access : Bool → Option (MemberFlag → Bool) → ℕ
get_channel_access false member = chaccess_remote
get_channel_access true none = chaccess_notonchan
get_channel_access true (some flags) =
    if flags owner
    then chaccess_owner
    else if flags protected
    then chaccess_protected
    else if flags chanop
    then chaccess_chanop
    else if flags halfop
    then chaccess_halfop
    else chaccess_peon

abbrev pub no_errors : Errors
no_errors = record {
  noops = false;
  unknown = false;
  rpl_b = false;
  rpl_e = false;
  not_on_channel = false;
  rpl_i = false;
  not_oper = false;
}

abbrev pub start : Channel → List Bytes → Work
start ch params = record {
  chan = ch;
  changes = [];
  mode_limit = 0;
  simple_mask = λ f. false;
  errors = no_errors;
  params = params;
  replies = [];
}

-- `set_channel_mode`, for `parv[0]` and the parameters behind it.
unfoldable pub set_channel_mode :
    Env → Option (MemberFlag → Bool) → Bytes → List Bytes → Channel → Work
set_channel_mode env member modes params ch =
    letters env (get_channel_access env.source.my_client member) add modes (start ch params)
