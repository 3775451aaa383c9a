-- ===== src/Channel/Send/Modes.antt =====
-- What `can_send` (src/channel.c) lets through: the modes of the channel, and the cached ban check.
use unirc_ircd.Prelude.{ℕ, ◌≡◌, refl, ap, ◌∙◌, Bool, true, false, Option, none, some}
use unirc_ircd.Chars.{Bytes}
use unirc_ircd.Channel.Types.{Channel, Client, Config, Membership}
use unirc_ircd.Channel.Bans.{is_banned}
use unirc_ircd.Channel.Flood.{check_for_chan_flood}
use unirc_ircd.Channel.Spam.{check_nospam}
use unirc_ircd.Channel.Send.{
  Sent, can_send_no, names_other_channel, repeats, has_ctrls, has_status, quiet_check,
  member_checks, can_send,
}

-- What +S asks of a text.
abbrev pub NoSpam : Channel → Bytes → Type 0
NoSpam ch text =
    ch.mode.no_spam ≡ true
    → (check_nospam text ≡ false) × (names_other_channel ch.chname text ≡ false)

-- The membership after the ban check.
abbrev pub checked : Config → Channel → Client → Option Membership → Option Membership
checked conf ch who none = none
checked conf ch who (some ms) = some (quiet_check conf ch who ms).1

-- What a text must be: no spam for +S, within the numbers of +f, and no repetition for the mode against them.
abbrev pub TextMayPass : ℕ → Channel → Option Membership → Option Bytes → Type 0
TextMayPass now ch link none = Unit {0}
TextMayPass now ch none (some text) = NoSpam ch text
TextMayPass now ch (some ms) (some text) =
    let counted = check_for_chan_flood now ch.mode ms in
    (counted.0 ≡ false)
    × NoSpam ch text
    × (ch.mode.no_flood ≡ true → repeats now counted.1.lmsg counted.1 text ≡ false)

-- For +n a client must be on the channel, with or without status.
abbrev pub OnChannel : Option Membership → Type 0
OnChannel none = ⊥
OnChannel (some ms) = Unit {0}

-- A member has no status; under `quiet_on_ban` a local one is neither known as banned nor, where the
-- bans are not looked at yet, banned.
abbrev pub NotSilenced : Config → Channel → Client → Option Membership → Type 0
NotSilenced conf ch who none = Unit {0}
NotSilenced conf ch who (some ms) =
    (has_status ms ≡ false)
    × (conf.quiet_on_ban ≡ true
        → who.my_client ≡ true
        → (ms.ban_silenced ≡ false) × (ms.ban_checked ≡ false → is_banned conf ch who ≡ false))

-- What a channel asks of a message of a client that has no status on it.
pub record MaySpeak (conf : Config) (ch : Channel) (who : Client) (link : Option Membership)
    (text : Option Bytes) (notice : Bool) : Type 0 where
  pub member : ch.mode.no_privmsgs ≡ true → OnChannel link
  pub not_silenced : NotSilenced conf ch who link
  pub not_moderated : ch.mode.moderated ≡ false
  pub registered : ch.mode.mod_reg ≡ true → who.is_reg_nick ≡ true
  pub no_ctrls : ch.mode.no_ctrl ≡ true → has_ctrls text ≡ false
  pub no_notice : notice ≡ true → ch.mode.no_notices ≡ false
  pub text_passed : TextMayPass conf.current_time ch (checked conf ch who link) text

-- A member of a channel under `quiet_on_ban`: a local client with no status, no server and no
-- services, whom no reservation of the name stops.
pub record IsQuietable (conf : Config) (find_resv : Bytes → Bool) (ch : Channel) (who : Client)
    (ms : Membership) : Type 0 where
  pub quiet : conf.quiet_on_ban ≡ true
  pub local : who.my_client ≡ true
  pub exempt : who.is_exempt_resv ≡ true
  pub no_server : who.is_server ≡ false
  pub no_services : who.is_services ≡ false
  pub no_status : has_status ms ≡ false

abbrev pub silenced : Membership → Membership
silenced ms = record ms { ban_checked = true; ban_silenced = true }

module _ (conf : Config) (find_resv : Bytes → Bool) (ch : Channel) (who : Client) (ms : Membership)
    (text : Option Bytes) (notice : Bool) (q : IsQuietable conf find_resv ch who ms) where
  can_send-member :
      can_send conf find_resv ch who (some ms) text notice
      ≡ member_checks conf ch who (some ms) text notice
  unfolding can_send
  can_send-member = rw (q.no_server, q.no_services, q.local, q.exempt)

  first_refused :
      ms.ban_checked ≡ false
      → ms.ban_silenced ≡ false
      → is_banned conf ch who ≡ true
      → can_send conf find_resv ch who (some ms) text notice
        ≡ record { code = can_send_no; link = some (silenced ms); since = who.since }
  unfolding member_checks quiet_check
  first_refused hc hs hb = can_send-member ∙ simp (q.no_status, q.quiet, q.local, hc, hs, hb)

  still_refused :
      ms.ban_silenced ≡ true
      → (can_send conf find_resv ch who (some ms) text notice).code ≡ can_send_no
  unfolding member_checks quiet_check
  still_refused hs =
      ap (λ (r : Sent). r.code) can_send-member ∙ simp (q.no_status, q.quiet, q.local, hs)

IsQuietable-silenced :
    {conf : Config} {find_resv : Bytes → Bool} {ch : Channel} {who : Client} {ms : Membership}
    (later : Channel)
    → IsQuietable conf find_resv ch who ms
    → IsQuietable conf find_resv later who (silenced ms)
unfolding has_status
IsQuietable-silenced later q = record {
  quiet = q.quiet;
  local = q.local;
  exempt = q.exempt;
  no_server = q.no_server;
  no_services = q.no_services;
  no_status = q.no_status;
}

-- Under `quiet_on_ban` a banned member whose ban has not been checked may not send, and the check is
-- kept: with the membership that the call leaves, a later call on any state of the channel, with any
-- text, says no again without looking at the bans.
can_send_quiet :
    (conf : Config) (find_resv : Bytes → Bool) (ch later : Channel) (who : Client) (ms : Membership)
    (text text' : Option Bytes) (notice notice' : Bool)
    → IsQuietable conf find_resv ch who ms
    → ms.ban_checked ≡ false
    → ms.ban_silenced ≡ false
    → is_banned conf ch who ≡ true
    → let first = can_send conf find_resv ch who (some ms) text notice in
      (first.code ≡ can_send_no)
      × (first.link ≡ some (silenced ms))
      × ((can_send conf find_resv later who first.link text' notice').code ≡ can_send_no)
can_send_quiet conf find_resv ch later who ms text text' notice notice' q hc hs hb =
    let e = first_refused conf find_resv ch who ms text notice q hc hs hb in
    rw e (
      refl,
      refl,
      still_refused conf find_resv later who (silenced ms) text' notice'
          (IsQuietable-silenced later q) refl,
    )
