-- ===== src/Channel/Bans.antt =====
-- `match_ipv4` (src/hostmask.c), `find_bmask` and `is_banned` (src/channel.c).
use unirc_ircd.Prelude.{
  ℕ, ◌-◌, ◌*◌, ◌/◌, ◌^◌, ◌≡◌, refl, ◌∙◌, ap, Bool, true, false, not, ◌&&◌, ◌||◌, List, [], ◌∷◌,
  arith, ◌==◌, Bool-cases, if◌then◌else◌, inl, inr,
}
use unirc_ircd.Chars.{Bytes}
use unirc_ircd.Match.{Outcome, returns, fault, out_of_fuel, match}
use unirc_ircd.Match.Reference.{glob}
use unirc_ircd.Match.Correct.{match-eq-glob}
use unirc_ircd.Channel.Types.{Ban, BanType, hm_host, hm_ipv4, Channel, Client, Config}

-- The truth value of a call of `match`, which returns for all strings.
abbrev pub as_test : Outcome → Bool
as_test (returns b) = b
as_test fault = false
as_test out_of_fuel = false

abbrev pub matches : Bytes → Bytes → Bool
matches mask name = as_test (match mask name)

-- `addr` and the mask in host order, for 1 to 32 bits: the low `32 - bits` bits of `addr` are cleared.
-- (A shift by 32, for no bits, is undefined in C.)
unfoldable pub match_ipv4 : ℕ → ℕ → ℕ → Bool
match_ipv4 addr mask bits = addr / 2 ^ (32 - bits) * 2 ^ (32 - bits) == mask

abbrev pub rejected_prefix : Bytes
rejected_prefix = b'r' ∷ b'/' ∷ b'*' ∷ []

pub match_host : Client → Ban → Bool
match_host who b =
    matches b.host who.host || matches b.host who.realhost || matches b.host who.sockhost

-- The `switch` over the type of the ban.
pub match_type : BanType → Client → Ban → Bool
match_type hm_host who b = match_host who b
match_type hm_ipv4 who b = (who.is_inet && match_ipv4 who.ip b.addr b.bits) || match_host who b

pub match_ban : Client → Ban → Bool
match_ban who b =
    not (matches rejected_prefix b.name)
    && (matches b.name who.name && matches b.username who.username)
    && match_type b.kind who b

unfoldable pub find_bmask : Client → List Ban → Bool
unfolding match_ban match_type match_host match_ipv4 match
find_bmask who [] = false
find_bmask who (b ∷ bs) = if match_ban who b then true else find_bmask who bs

unfoldable pub is_banned : Config → Channel → Client → Bool
is_banned conf ch who =
    if find_bmask who ch.banlist
    then if not conf.use_except || not (find_bmask who ch.exceptlist) then true else false
    else false

-- What it means that a ban names a client, by the meaning of its masks.
abbrev pub glob_host : Client → Bytes → Bool
glob_host who mask = glob mask who.host || glob mask who.realhost || glob mask who.sockhost

abbrev pub in_network : BanType → Client → ℕ → ℕ → Bool
in_network hm_host who net bits = false
in_network hm_ipv4 who net bits = who.is_inet && match_ipv4 who.ip net bits

abbrev pub names_client : Client → Ban → Bool
names_client who b =
    not (glob rejected_prefix b.name)
    && (glob b.name who.name && glob b.username who.username)
    && (in_network b.kind who b.addr b.bits || glob_host who b.host)

abbrev pub any_names : Client → List Ban → Bool
any_names who [] = false
any_names who (b ∷ bs) = names_client who b || any_names who bs

matches-eq-glob : (mask name : Bytes) → matches mask name ≡ glob mask name
matches-eq-glob mask name = ap as_test (match-eq-glob mask name)

match_type-names :
    (k : BanType) (who : Client) (b : Ban)
    → match_type k who b ≡ (in_network k who b.addr b.bits || glob_host who b.host)
unfolding match_type match_host
match_type-names hm_host who b = simp matches-eq-glob
match_type-names hm_ipv4 who b = simp matches-eq-glob

match_ban-names : (who : Client) (b : Ban) → match_ban who b ≡ names_client who b
unfolding match_ban
match_ban-names who b = simp (matches-eq-glob, match_type-names)

find_bmask-cons :
    (who : Client) (b : Ban) (bs : List Ban)
    → find_bmask who (b ∷ bs) ≡ (match_ban who b || find_bmask who bs)
unfolding find_bmask
find_bmask-cons who b bs = elim (Bool-cases (match_ban who b)) [ inl h ↦ rw h | inr h ↦ rw h ]

pub find_bmask-any_names : (who : Client) (bs : List Ban) → find_bmask who bs ≡ any_names who bs
find_bmask-any_names who [] = unfold find_bmask in refl
find_bmask-any_names who (b ∷ bs) =
    find_bmask-cons who b bs ∙ rw (match_ban-names who b, find_bmask-any_names who bs)

-- A client is banned exactly if a ban names it and exceptions are off or none names it, where a ban
-- names a client by the meaning of its masks for nick, user name and one of the three host names, or
-- by its network; a ban whose nick mask has the prefix `r/` names nobody.
pub is_banned-eq :
    (conf : Config) (ch : Channel) (who : Client)
    → is_banned conf ch who
      ≡ (any_names who ch.banlist && not (conf.use_except && any_names who ch.exceptlist))
unfolding is_banned
is_banned-eq conf ch who =
    rw (find_bmask-any_names who ch.banlist, find_bmask-any_names who ch.exceptlist) (ground arith)
