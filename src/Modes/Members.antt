-- ===== src/Modes/Members.antt =====
-- The modes of members of src/channel_mode.c: `chm_owner`, `chm_protect`, `chm_op`, `chm_hop` and
-- `chm_voice`. What the five functions have in common is written once.
use unirc_ircd.Prelude.{
  ℕ, Bool, true, false, not, ◌&&◌, Option, none, some, List, [], ◌∷◌, ◌==◌, ltb, if◌then◌else◌,
}
use unirc_ircd.Chars.{Bytes}
use unirc_ircd.Dlink.Chain.{has}
use unirc_ircd.Modes.Types.{
  Dir, query, add, del, private, MemberFlag, owner, protected, chanop, halfop, voice, deopped,
  put_member_flag, Change, text, no_caps, all_members, Env, Work, chaccess_halfop, chaccess_chanop,
  chaccess_protected, chaccess_owner, chaccess_remote, err_chanoprivsneeded, err_chanownprivneeded,
  err_cannotchangechanmode, add_change, reply, no_ops, deny, limited,
}

abbrev pub err_usernotinchannel : ℕ
err_usernotinchannel = 441

-- The target is not on the channel: `SM_ERR_NOTONCHANNEL`.
unfoldable pub not_member : Env → Work → Work
not_member env w =
    let told =
      if not w.errors.not_on_channel && env.source.my_client
      then reply err_usernotinchannel w
      else w in
    record told { errors = record (w.errors) { not_on_channel = true } }

-- From the parameter to the member that it names.
abbrev pub found_member : Env → (ℕ → Work → Work) → Option ℕ → Work → Work
found_member env go none w = w
found_member env go (some t) w =
    if not (env.person t).is_client
    then w
    else if has t w.chan.members
    then go t w
    else not_member env w

abbrev pub named_member : Env → (ℕ → Work → Work) → List Bytes → Work → Work
named_member env go [] w = w
named_member env go (p ∷ ps) w = found_member env go (env.find_chasing p) (record w { params = ps })

abbrev pub with_member : Env → Dir → (ℕ → Work → Work) → Work → Work
with_member env query go w = w
with_member env add go w = named_member env go w.params w
with_member env del go w = named_member env go w.params w

-- `AddMemberFlag` and `DelMemberFlag`
abbrev pub put_status : ℕ → MemberFlag → Bool → Work → Work
put_status t f b w = record w {
  chan = record (w.chan) {
    flags = λ c. if c == t then put_member_flag f b (w.chan.flags c) else w.chan.flags c;
  };
}

abbrev pub member_change : Env → ℕ → ℕ → Dir → Change
member_change env letter t dir = record {
  letter = letter;
  arg = text (env.person t).name;
  id = some (env.person t).id;
  dir = dir;
  caps = no_caps;
  mems = all_members;
}

abbrev pub clears_deopped : MemberFlag → Bool
clears_deopped voice = false
clears_deopped _ = true

-- Adding takes `CHFL_DEOPPED` away, but for a voice.
abbrev pub give : Env → ℕ → MemberFlag → ℕ → Work → Work
give env letter f t w =
    let given = put_status t f true (add_change (member_change env letter t add) w) in
    if clears_deopped f then put_status t deopped false given else given

abbrev pub take_away : Env → ℕ → MemberFlag → ℕ → Work → Work
take_away env letter f t w = put_status t f false (add_change (member_change env letter t del) w)

-- Redundant changes are none. `guard` stands before a removal.
unfoldable pub change_status :
    Env → ℕ → MemberFlag → (ℕ → Work → (Work → Work) → Work) → Dir → ℕ → Work → Work
change_status env letter f guard query t w = w
change_status env letter f guard add t w = if w.chan.flags t f then w else give env letter f t w
change_status env letter f guard del t w =
    if not (w.chan.flags t f) then w else guard t w (take_away env letter f t)

abbrev pub no_guard : ℕ → Work → (Work → Work) → Work
no_guard t w go = go w

-- Services, and owners and protected members but for themselves, keep their status against others.
unfoldable pub guarded : Env → ℕ → ℕ → Work → (Work → Work) → Work
guarded env alev t w go =
    if (env.person t).is_services && ltb alev chaccess_remote
    then no_ops err_cannotchangechanmode w
    else if w.chan.flags t owner && ltb alev chaccess_owner && not (env.source.number == t)
    then no_ops err_cannotchangechanmode w
    else if w.chan.flags t protected && ltb alev chaccess_owner && not (env.source.number == t)
    then no_ops err_cannotchangechanmode w
    else go w

unfoldable pub chm_owner : Env → ℕ → Dir → Work → Work
chm_owner env alev dir w =
    if ltb alev chaccess_owner
    then deny err_chanownprivneeded alev w
    else with_member env dir (λ t w1. limited env w1 (change_status env b'q' owner no_guard dir t))
        w

abbrev pub protect_member : Env → ℕ → Dir → ℕ → Work → Work
protect_member env alev dir t w =
    if ltb alev chaccess_owner && not (env.source.number == t)
    then no_ops err_chanownprivneeded w
    else limited env w (change_status env b'a' protected no_guard dir t)

unfoldable pub chm_protect : Env → ℕ → Dir → Work → Work
chm_protect env alev dir w =
    if ltb alev chaccess_protected
    then deny err_chanownprivneeded alev w
    else with_member env dir (protect_member env alev dir) w

abbrev pub guarded_member : Env → ℕ → ℕ → MemberFlag → Dir → ℕ → Work → Work
guarded_member env alev letter f dir t w =
    limited env w (change_status env letter f (guarded env alev) dir t)

unfoldable pub chm_op : Env → ℕ → Dir → Work → Work
chm_op env alev dir w =
    if ltb alev chaccess_chanop
    then deny err_chanoprivsneeded alev w
    else with_member env dir (guarded_member env alev b'o' chanop dir) w

unfoldable pub chm_hop : Env → ℕ → Dir → Work → Work
chm_hop env alev dir w =
    if ltb alev (if w.chan.mode.mode private then chaccess_chanop else chaccess_halfop)
    then deny err_chanoprivsneeded alev w
    else with_member env dir (guarded_member env alev b'h' halfop dir) w

unfoldable pub chm_voice : Env → ℕ → Dir → Work → Work
chm_voice env alev dir w =
    if ltb alev chaccess_halfop
    then deny err_chanoprivsneeded alev w
    else with_member env dir (guarded_member env alev b'v' voice dir) w
