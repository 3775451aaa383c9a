-- ===== src/Channel/Send.antt =====
-- `find_channel_link` and `can_send` of src/channel.c. The result is the code, the membership as the
-- call leaves it (the caches of the ban check and of the last message), and the client's `since`.
pub mod Modes
pub mod Repeats
use unirc_ircd.Prelude.{
  ℕ, ◌+◌, ◌-◌, Bool, true, false, not, ◌&&◌, ◌||◌, Option, none, some, List, [], ◌∷◌, ◌==◌, leb,
  ltb, length, if◌then◌else◌,
}
use unirc_ircd.Chars.{Bytes}
use unirc_ircd.Channel.Types.{Channel, Client, Config, Membership}
use unirc_ircd.Channel.Bans.{is_banned}
use unirc_ircd.Channel.Flood.{check_for_chan_flood}
use unirc_ircd.Channel.Spam.{msg_has_ctrls, check_nospam}

-- CAN_SEND_NO, _NONOP, _OPV, _NOREGNICK and _NOCTRLS, and the codes -4 (spam), -5 (repeated) and -6
-- (too many messages).
pub data SendCode : Type 0 where
  can_send_no : SendCode
  can_send_nonop : SendCode
  can_send_opv : SendCode
  can_send_noregnick : SendCode
  can_send_noctrls : SendCode
  spam_text : SendCode
  repeated_text : SendCode
  flooding : SendCode

pub record Sent : Type 0 where
  pub code : SendCode
  pub link : Option Membership
  pub since : ℕ

pub find_link : ℕ → List Membership → Option Membership
find_link ch [] = none
find_link ch (m ∷ ms) = if m.chptr == ch then some m else find_link ch ms

pub find_channel_link : Client → Channel → Option Membership
find_channel_link who ch = if not who.is_client then none else find_link ch.id who.channel

unfoldable pub has_status : Membership → Bool
has_status ms = ms.owner || ms.protected || ms.chanop || ms.halfop || ms.voice

-- `strncasecmp` of the C library and the part of a text from its first `#` on, up to a space.
fold_ascii : ℕ → ℕ
fold_ascii c = if leb b'A' c && leb c b'Z' then c + 32 else c

pub same_name : Bytes → Bytes → Bool
same_name [] [] = true
same_name [] (d ∷ t) = false
same_name (c ∷ s) [] = false
same_name (c ∷ s) (d ∷ t) = if fold_ascii c == fold_ascii d then same_name s t else false

pub up_to_space : Bytes → Bytes
up_to_space [] = []
up_to_space (c ∷ t) = let rest = up_to_space t in if c == b' ' then [] else c ∷ rest

-- `cp = strchr(text, '#')` and what the code does with it: true is -4.
pub names_other_channel : Bytes → Bytes → Bool
names_other_channel chname [] = false
names_other_channel chname (c ∷ t) =
    if c == b'#' then not (same_name (up_to_space (c ∷ t)) chname) else names_other_channel chname t

pub same_text : Bytes → Bytes → Bool
same_text [] [] = true
same_text [] (d ∷ t) = false
same_text (c ∷ s) [] = false
same_text (c ∷ s) (d ∷ t) = if c == d then same_text s t else false

-- `ms->lmsg && ms->lsize == msgsize && CurrentTime - ms->lmsg_time < ChanFloodTime && !strcmp(...)`
pub repeats : ℕ → Option Bytes → Membership → Bytes → Bool
repeats now none ms text = false
repeats now (some last) ms text =
    ms.lsize == length text && ltb (now - ms.lmsg_time) 10 && same_text last text

-- The block of `MODE_NOFLOOD`.
unfoldable pub last_message : ℕ → Channel → ℕ → Option Membership → Bytes → Sent
unfolding repeats same_text
last_message now ch since none text = record { code = can_send_nonop; link = none; since = since }
last_message now ch since (some ms) text =
    if ch.mode.no_flood
    then if repeats now ms.lmsg ms text
      then record { code = repeated_text; link = some ms; since = since }
      else record {
        code = can_send_nonop;
        link = some (record ms { lmsg = some text; lsize = length text; lmsg_time = now });
        since = since;
      }
    else record { code = can_send_nonop; link = some ms; since = since }

-- The block of `MODE_NOSPAM` and what follows.
pub text_checks : ℕ → Channel → ℕ → Option Membership → Bytes → Sent
text_checks now ch since link text =
    if ch.mode.no_spam && (check_nospam text || names_other_channel ch.chname text)
    then record { code = spam_text; link = link; since = since }
    else last_message now ch since link text

-- `if(text) { ... }` and the end
pub with_text : ℕ → Channel → ℕ → Option Membership → Option Bytes → Sent
with_text now ch since link none = record { code = can_send_nonop; link = link; since = since }
with_text now ch since none (some text) = text_checks now ch since none text
with_text now ch since (some ms) (some text) =
    let (refused, ms') = check_for_chan_flood now ch.mode ms in
    if refused
    then record { code = flooding; link = some ms'; since = now + 10 }
    else text_checks now ch since (some ms') text

pub has_ctrls : Option Bytes → Bool
has_ctrls none = false
has_ctrls (some text) = msg_has_ctrls text

-- From the test of `MODE_MODERATED` on.
pub mode_checks : ℕ → Channel → Client → Option Membership → Option Bytes → Bool → Sent
mode_checks now ch who link text notice =
    let answer : SendCode → Sent = λ code. record { code = code; link = link; since = who.since } in
    if ch.mode.moderated
    then answer can_send_no
    else if ch.mode.mod_reg && not who.is_reg_nick
    then answer can_send_noregnick
    else if ch.mode.no_ctrl && has_ctrls text
    then answer can_send_noctrls
    else if notice && ch.mode.no_notices
    then answer can_send_no
    else with_text now ch who.since link text

-- The cached ban check of a member without status: whether it may not speak, and the new cache.
pub quiet_check : Config → Channel → Client → Membership → Bool × Membership
quiet_check conf ch who ms =
    if conf.quiet_on_ban && who.my_client
    then if ms.ban_silenced
      then (true, ms)
      else if ms.ban_checked
      then (false, ms)
      else if is_banned conf ch who
      then (true, record ms { ban_checked = true; ban_silenced = true })
      else (false, record ms { ban_checked = true })
    else (false, ms)

pub member_checks : Config → Channel → Client → Option Membership → Option Bytes → Bool → Sent
member_checks conf ch who none text notice =
    if ch.mode.no_privmsgs
    then record { code = can_send_no; link = none; since = who.since }
    else mode_checks conf.current_time ch who none text notice
member_checks conf ch who (some ms) text notice =
    let (silenced, ms') = quiet_check conf ch who ms in
    if has_status ms
    then record { code = can_send_opv; link = some ms; since = who.since }
    else if silenced
    then record { code = can_send_no; link = some ms'; since = who.since }
    else mode_checks conf.current_time ch who (some ms') text notice

abbrev pub or_link : Option Membership → Option Membership → Option Membership
or_link none found = found
or_link (some ms) found = some ms

-- `hash_find_resv` is given as whether the channel's name has an entry.
unfoldable pub can_send :
    Config → (Bytes → Bool) → Channel → Client → Option Membership → Option Bytes → Bool → Sent
unfolding member_checks quiet_check mode_checks with_text text_checks find_channel_link find_link
    has_status has_ctrls
can_send conf find_resv ch who ms text notice =
    let link = or_link ms (find_channel_link who ch) in
    if who.is_server || who.is_services
    then record { code = can_send_opv; link = ms; since = who.since }
    else if who.my_client
        && not who.is_exempt_resv
        && not (who.is_oper && conf.oper_pass_resv)
        && (if find_resv ch.chname then not conf.restrict_channels else conf.restrict_channels)
    then record { code = can_send_no; link = ms; since = who.since }
    else member_checks conf ch who link text notice
