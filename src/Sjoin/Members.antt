-- ===== src/Sjoin/Members.antt =====
-- The members in a SJOIN of modules/core/m_sjoin.c: `remove_our_modes`, the loop over the nicks, `remove_ban_list`,
-- and the whole of `ms_sjoin`. What is sent to clients and servers is left out, but for the texts that decide
-- whether a burst is too long; so is the control of floods of joins.
pub mod Rule
pub mod Taken
use unirc_ircd.Prelude.{
  ℕ, ◌+◌, ◌-◌, Bool, true, false, not, ◌&&◌, ◌||◌, Option, none, some, List, [], ◌∷◌, ◌++◌, ◌==◌,
  ltb, leb, if◌then◌else◌, length,
}
use unirc_ircd.Chars.{Bytes}
use unirc_ircd.Dlink.Chain.{has}
use unirc_ircd.Channel.Join.{check_channel_name}
use unirc_ircd.Modes.Types.{
  MemberFlag, owner, protected, chanop, halfop, voice, deopped, put_member_flag, ChannelMode,
  Channel, Env,
}
use unirc_ircd.Modes.Params.{decimal_from}
use unirc_ircd.Modes.Masks.{clear_ban_cache}
use unirc_ircd.Modes.Show.{channel_modes, has_text}
use unirc_ircd.Sjoin.Letters.{no_modes, sjoin_modes}
use unirc_ircd.Sjoin.Settle.{mended, keep, kept_modes}
use unirc_ircd.Sjoin.Final.{set_final_mode}

-- The channel, with `channelts`.
pub record Room : Type 0 where
  pub ts : ℕ
  pub chan : Channel

-- What is read besides the message: `atol` of the C library, of a text that is no negative number; the target's `from`
-- is `client_p`; `HasID(source_p)` and `ID(source_p)`; what a change of modes runs in.
pub record Burst : Type 0 where
  pub atol : Bytes → ℕ
  pub is_client : Bool
  pub has_id : Bool
  pub id : Bytes
  pub ignore_bogus_ts : Bool
  pub from_there : ℕ → Bool
  pub env : Env

-- `make_channel`
abbrev pub new_room : ℕ → Room
new_room now = record {
  ts = now;
  chan = record {
    mode = no_modes;
    members = [];
    flags = λ c f. false;
    banlist = [];
    exceptlist = [];
    invexlist = [];
  };
}

-- `remove_a_mode`
unfoldable pub remove_a_mode : MemberFlag → Channel → Channel
remove_a_mode f ch = record ch {
  flags = λ c. if has c ch.members then put_member_flag f false (ch.flags c) else ch.flags c;
}

unfoldable pub remove_our_modes : Channel → Channel
remove_our_modes ch =
    remove_a_mode voice (
      remove_a_mode halfop
        (remove_a_mode chanop (remove_a_mode protected (remove_a_mode owner ch))))

-- The prefixes in front of a nick, and the nick.
abbrev pub prefix_flag : ℕ → Option MemberFlag
prefix_flag c =
    if c == b'~'
    then some owner
    else if c == b'&'
    then some protected
    else if c == b'@'
    then some chanop
    else if c == b'%'
    then some halfop
    else if c == b'+'
    then some voice
    else none

unfoldable pub prefixes : Bytes → (MemberFlag → Bool) → (MemberFlag → Bool) × Bytes
prefixes [] fl = (fl, [])
prefixes (c ∷ s) fl = elim (prefix_flag c) [
  | none ↦ (fl, c ∷ s)
  | some f ↦ prefixes s (put_member_flag f true fl)
]

abbrev pub no_flags : MemberFlag → Bool
no_flags f = false

-- What a newcomer has on the channel.
unfoldable pub granted : Bool → (MemberFlag → Bool) → MemberFlag → Bool
granted keep_new_modes fl =
    if keep_new_modes
    then fl
    else if fl owner || (fl protected || (fl chanop || fl halfop))
    then put_member_flag deopped true no_flags
    else no_flags

-- `add_user_to_channel`
unfoldable pub add_member : ℕ → (MemberFlag → Bool) → Channel → Channel
add_member t fl ch = record ch {
  members = t ∷ ch.members;
  flags = λ c. if c == t then fl else ch.flags c;
}

-- One nick.
unfoldable pub take_nick : Burst → Bool → Option ℕ → (MemberFlag → Bool) → Channel → Channel
take_nick b keep_new_modes none fl ch = ch
take_nick b keep_new_modes (some t) fl ch =
    if not (b.from_there t) || not (b.env.person t).is_client
    then ch
    else if has t ch.members
    then ch
    else add_member t (granted keep_new_modes fl) ch

abbrev pub take_word : Burst → Bool → Bytes → Channel → Channel
take_word b keep_new_modes w ch =
    let (fl, nick) = prefixes w no_flags in
    take_nick b keep_new_modes (b.env.find_chasing nick) fl ch

-- The nicks with their prefixes, with spaces between them.
abbrev pub put_first : ℕ → Bytes → List Bytes → List Bytes
put_first c [] rest = (c ∷ []) ∷ rest
put_first c (d ∷ s) [] = (c ∷ []) ∷ []
put_first c (d ∷ s) (t ∷ rest) = if d == b' ' then (c ∷ []) ∷ t ∷ rest else (c ∷ t) ∷ rest

unfoldable pub nick_words : Bytes → List Bytes
nick_words [] = []
nick_words (c ∷ s) = let rest = nick_words s in if c == b' ' then rest else put_first c s rest

unfoldable pub take_words : Burst → Bool → List Bytes → Channel → Channel
take_words b keep_new_modes [] ch = ch
take_words b keep_new_modes (w ∷ ws) ch =
    take_words b keep_new_modes ws (take_word b keep_new_modes w ch)

-- `modebuf` and `parabuf` of the message to other servers, which are members for `channel_modes`.
abbrev pub relayed_modes : Bool → Bytes → Bytes × Bytes → ChannelMode → Bytes × Bytes
relayed_modes keep_new_modes [] told m =
    if keep_new_modes then channel_modes true m else (b'0' ∷ [], told.1)
relayed_modes keep_new_modes (c ∷ s) told m =
    if not (c == b'0') && keep_new_modes then channel_modes true m else (b'0' ∷ [], told.1)

-- `uid_buf`, up to the nicks.
abbrev pub relay_head : Bytes → ℕ → Bytes → Bytes × Bytes → Bytes
relay_head id ts chname (modebuf, parabuf) =
    b':' ∷ id
    ++ b' ' ∷ b'S' ∷ b'J' ∷ b'O' ∷ b'I' ∷ b'N' ∷ b' ' ∷ decimal_from 20 ts []
    ++ b' ' ∷ chname
    ++ b' ' ∷ modebuf
    ++ b' ' ∷ parabuf
    ++ b':' ∷ []

abbrev pub ircd_bufsize : ℕ
ircd_bufsize = 512

abbrev pub idlen : ℕ
idlen = 12

abbrev pub too_long : ℕ → Bytes → Bool
too_long nicklen head =
    leb (ircd_bufsize - (if ltb idlen nicklen then nicklen else idlen) - 2 - 5 - 1) (length head)

-- `remove_ban_list` of the three lists, and `clear_ban_cache`.
unfoldable pub remove_lists : Env → Channel → Channel
remove_lists env ch =
    clear_ban_cache env (record ch { banlist = []; exceptlist = []; invexlist = [] })

-- What follows the loop over the nicks.
abbrev pub after_nicks : Burst → Bool → Bool → Bytes → Room → Option Room
after_nicks b isnew keep_our_modes nicks r =
    if length r.chan.members == 0 && isnew
    then none
    else if not (has_text nicks)
    then some r
    else if b.has_id && not keep_our_modes
    then some (record r { chan = remove_lists b.env r.chan })
    else some r

-- `isnew`, and `chptr`.
abbrev pub is_new : Option Room → Bool
is_new none = true
is_new (some r) = false

abbrev pub room_or_new : ℕ → Option Room → Room
room_or_new now none = new_room now
room_or_new now (some r) = r

-- From the decision on the modes on; a message that is too long is not read further.
unfoldable pub from_nicks : Burst → Bool → Bool → Bool → Bool → Bytes → Room → Option Room
from_nicks b long isnew our theirs nicks r =
    if long
    then some r
    else after_nicks b isnew our nicks
        (record r { chan = take_words b theirs (nick_words nicks) r.chan })

-- A message that passed the tests at the start, with the modes that it has and the nicks. `old` is the channel that
-- there is; its name is that of the message but for the case.
unfoldable pub take_burst :
    Burst → ℕ → Bytes → Bytes → ChannelMode → Bytes → Option Room → Option Room
take_burst b ts chname letters modes nicks old =
    let room = room_or_new b.env.conf.current_time old in
    let (tstosend, our, theirs) = keep (is_new old) room.ts (mended b.ignore_bogus_ts room.ts ts) in
    let mode = kept_modes our theirs room.chan.mode modes in
    let settled = record (room.chan) { mode = mode } in
    let left = if our then settled else remove_our_modes settled in
    let relayed = relayed_modes theirs letters (set_final_mode mode room.chan.mode) mode in
    let long = too_long b.env.nicklen (relay_head b.id tstosend chname relayed) in
    from_nicks b long (is_new old) our theirs nicks (record { ts = tstosend; chan = left })

abbrev pub with_modes :
    Burst → ℕ → Bytes → Bytes → Option (ChannelMode × List Bytes) → Option Room → Option Room
with_modes b ts chname letters none old = old
with_modes b ts chname letters (some (modes, [])) old = old
with_modes b ts chname letters (some (modes, nicks ∷ more)) old =
    take_burst b ts chname letters modes nicks old

-- `ms_sjoin`: the parameters behind the sender, and the channel of that name before and after.
unfoldable pub ms_sjoin : Burst → List Bytes → Option Room → Option Room
ms_sjoin b (ts ∷ ((c ∷ name) ∷ (letters ∷ (p ∷ ps)))) old =
    if b.is_client || not (c == b'#')
    then old
    else if not (check_channel_name b.env.conf (c ∷ name) false)
    then old
    else with_modes b (b.atol ts) (c ∷ name) letters (sjoin_modes letters (p ∷ ps) no_modes) old
ms_sjoin b _ old = old
