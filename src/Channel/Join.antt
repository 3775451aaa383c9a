-- ===== src/Channel/Join.antt =====
-- `check_channel_name` and `can_join` of src/channel.c, with the numerics of include/numeric.h.
use unirc_ircd.Prelude.{
  map, ℕ, ◌≡◌, ◌<◌, ◌⊎◌, Bool, true, false, not, ◌&&◌, ◌||◌, Option, none, some, List, [], ◌∷◌,
  ◌==◌, leb, length, if◌then◌else◌,
}
use unirc_ircd.Chars.{
  all_chars, Bytes, to_upper, is_chan_prefix, is_chan_char, is_visible_chan_char,
}
use unirc_ircd.Match.Case.{NoNul, irccmp}
use unirc_ircd.Channel.Types.{Channel, Client, Config}
use unirc_ircd.Channel.Bans.{as_test, find_bmask, is_banned}

abbrev pub err_channelisfull : ℕ
err_channelisfull = 471

abbrev pub err_inviteonlychan : ℕ
err_inviteonlychan = 473

abbrev pub err_bannedfromchan : ℕ
err_bannedfromchan = 474

abbrev pub err_badchannelkey : ℕ
err_badchannelkey = 475

abbrev pub err_operonlychan : ℕ
err_operonlychan = 476

abbrev pub err_needreggednick : ℕ
err_needreggednick = 477

abbrev pub err_chanbanreason : ℕ
err_chanbanreason = 485

-- `dlinkFind` in a list of channels.
pub invited_to : ℕ → List ℕ → Bool
invited_to ch [] = false
invited_to ch (c ∷ cs) = if c == ch then true else invited_to ch cs

-- `chptr->mode.key[0] && (!key || irccmp(chptr->mode.key, key))`
pub bad_key : Bytes → Option Bytes → Bool
bad_key [] key = false
bad_key (c ∷ k) none = true
bad_key (c ∷ k) (some key) = as_test (irccmp (c ∷ k) key)

unfoldable pub can_join : Config → Client → Channel → Option Bytes → ℕ
unfolding invited_to bad_key
can_join conf who ch key =
    if is_banned conf ch who
    then err_bannedfromchan
    else if ch.mode.invite_only
        && not (invited_to ch.id who.invited)
        && (not conf.use_invex || not (find_bmask who ch.invexlist))
    then err_inviteonlychan
    else if ch.mode.oper_only && not who.is_oper
    then err_operonlychan
    else if not (ch.mode.limit == 0) && leb ch.mode.limit (length ch.members)
    then err_channelisfull
    else if ch.mode.reg_only && not who.is_reg_nick
    then err_needreggednick
    else if ch.mode.ssl_only && not who.is_ssl
    then err_chanbanreason
    else if bad_key ch.mode.key key
    then err_badchannelkey
    else 0

-- A channel without a key asks for none, and another one for its key, in any case.
abbrev pub RightKey : Bytes → Option Bytes → Type 0
RightKey [] key = Unit {0}
RightKey (c ∷ k) none = ⊥
RightKey (c ∷ k) (some key) = map to_upper (c ∷ k) ≡ map to_upper key

abbrev pub KeyNoNul : Option Bytes → Type 0
KeyNoNul none = Unit {0}
KeyNoNul (some key) = NoNul key

-- What the modes of a channel ask of a client that joins.
pub record MayJoin (conf : Config) (who : Client) (ch : Channel) (key : Option Bytes) : Type 0 where
  pub not_banned : is_banned conf ch who ≡ false
  pub may_enter :
      ch.mode.invite_only ≡ true
      → (invited_to ch.id who.invited ≡ true)
        ⊎ ((conf.use_invex ≡ true) × (find_bmask who ch.invexlist ≡ true))
  pub oper : ch.mode.oper_only ≡ true → who.is_oper ≡ true
  pub has_room : (ch.mode.limit ≡ 0) ⊎ (length ch.members < ch.mode.limit)
  pub registered : ch.mode.reg_only ≡ true → who.is_reg_nick ≡ true
  pub secure : ch.mode.ssl_only ≡ true → who.is_ssl ≡ true
  pub right_key : RightKey ch.mode.key key

-- `check_channel_name`
abbrev pub max_name_length : Bool → ℕ
max_name_length local = if local then 50 else 200

unfoldable pub check_channel_name : Config → Bytes → Bool → Bool
unfolding all_chars
check_channel_name conf [] local = false
check_channel_name conf (p ∷ s) local =
    if not (is_chan_prefix p)
    then false
    else if not local || not conf.disable_fake_channels
    then if all_chars is_chan_char s then leb (length (p ∷ s)) (max_name_length local) else false
    else if all_chars is_visible_chan_char s
    then leb (length (p ∷ s)) (max_name_length local)
    else false
