-- ===== src/Modes/Masks.antt =====
-- `check_string`, `add_id`, `del_id` and `clear_ban_cache` of src/channel_mode.c, and `split_nuh` of
-- src/s_conf.c: the masks of the lists of bans, exceptions and invitations.
pub mod Undo
use unirc_ircd.Prelude.{
  ℕ, ◌+◌, ◌-◌, Bool, true, false, ◌&&◌, ◌||◌, Option, none, some, List, [], ◌∷◌, ◌++◌, ◌==◌, leb,
  if◌then◌else◌, length, take,
}
use unirc_ircd.Chars.{Bytes, has_attr, space_c}
use unirc_ircd.Match.Case.{collapse}
use unirc_ircd.Hash.{names_equal}
use unirc_ircd.Dlink.Chain.{has}
use unirc_ircd.Channel.Types.{Ban}
use unirc_ircd.Modes.Types.{ban_checked, ban_silenced, put_member_flag, Channel, Env, Work, reply}

unfoldable pub is_space : ℕ → Bool
unfolding has_attr
is_space = has_attr space_c

abbrev pub star : Bytes
star = b'*' ∷ []

-- `check_string`: up to the first white space; `*` for an empty string.
unfoldable pub up_to_white : Bytes → Bytes
up_to_white [] = []
up_to_white (c ∷ s) = let rest = up_to_white s in if is_space c then [] else c ∷ rest

unfoldable pub check_string : Bytes → Bytes
check_string [] = star
check_string (c ∷ s) = up_to_white (c ∷ s)

-- `strchr`, and what stands before and behind the byte.
unfoldable pub split_on : ℕ → Bytes → Option (Bytes × Bytes)
split_on c [] = none
split_on c (d ∷ s) =
    let rest = split_on c s in
    if d == c then some ([], s) else elim rest [ none ↦ none | some (a, b) ↦ some (d ∷ a, b) ]

abbrev pub userlen : ℕ
userlen = 10

abbrev pub hostlen : ℕ
hostlen = 63

-- `strlcpy` over the `*` that a part begins as, unless the text is empty; `size` counts the NUL.
abbrev pub part : ℕ → Bytes → Bytes
part size [] = star
part size (c ∷ s) = take (size - 1) (c ∷ s)

abbrev pub Mask : Type 0
Mask = Bytes × Bytes × Bytes

-- `strpbrk(mask, ".:")`
unfoldable pub has_dot_colon : Bytes → Bool
has_dot_colon [] = false
has_dot_colon (c ∷ s) = (c == b'.' || c == b':') || has_dot_colon s

abbrev pub user_host : ℕ → Bytes → Option (Bytes × Bytes) → Mask
user_host nicklen mask (some (user, host)) =
    (star, part (userlen + 1) user, part (hostlen + 1) host)
user_host nicklen mask none =
    if has_dot_colon mask
    then (star, star, take hostlen mask)
    else (take (nicklen - 1) mask, star, star)

abbrev pub behind_nick : ℕ → Bytes → Bytes → Option (Bytes × Bytes) → Mask
behind_nick nicklen nick rest (some (user, host)) =
    (part nicklen nick, part (userlen + 1) user, part (hostlen + 1) host)
behind_nick nicklen nick rest none = (part nicklen nick, part (userlen + 1) rest, star)

abbrev pub at_bang : ℕ → Bytes → Option (Bytes × Bytes) → Mask
at_bang nicklen mask (some (nick, rest)) = behind_nick nicklen nick rest (split_on b'@' rest)
at_bang nicklen mask none = user_host nicklen mask (split_on b'@' mask)

-- `split_nuh`, where all three parts are asked for.
unfoldable pub split_nuh : ℕ → Bytes → Mask
split_nuh nicklen mask = at_bang nicklen mask (split_on b'!' mask)

abbrev pub mask_text : Mask → Bytes
mask_text (nick, user, host) = nick ++ (b'!' ∷ (user ++ (b'@' ∷ host)))

-- `CHFL_BAN`, `CHFL_EXCEPTION`, `CHFL_INVEX`
pub data Kind : Type 0 where
  chfl_ban chfl_exception chfl_invex : Kind

abbrev pub list_of : Kind → Channel → List Ban
list_of chfl_ban ch = ch.banlist
list_of chfl_exception ch = ch.exceptlist
list_of chfl_invex ch = ch.invexlist

abbrev pub put_list : Kind → List Ban → Channel → Channel
put_list chfl_ban bs ch = record ch { banlist = bs }
put_list chfl_exception bs ch = record ch { exceptlist = bs }
put_list chfl_invex bs ch = record ch { invexlist = bs }

unfoldable pub clear_ban_cache : Env → Channel → Channel
clear_ban_cache env ch = record ch {
  flags = λ c.
      if has c ch.members && (env.person c).my_connect
      then put_member_flag ban_silenced false (put_member_flag ban_checked false (ch.flags c))
      else ch.flags c;
}

abbrev pub cleared_for : Kind → Env → Channel → Channel
cleared_for chfl_ban env ch = clear_ban_cache env ch
cleared_for chfl_exception env ch = clear_ban_cache env ch
cleared_for chfl_invex env ch = ch

-- The comparison of a mask with an entry, in any case.
unfoldable pub same_mask : Mask → Ban → Bool
same_mask (nick, user, host) b =
    names_equal b.name nick && (names_equal b.username user && names_equal b.host host)

unfoldable pub any_same : Mask → List Ban → Bool
any_same m [] = false
any_same m (b ∷ bs) = same_mask m b || any_same m bs

unfoldable pub remove_same : Mask → List Ban → List Ban
remove_same m [] = []
remove_same m (b ∷ bs) = let rest = remove_same m bs in if same_mask m b then bs else b ∷ rest

abbrev pub new_ban : Env → Mask → Ban
new_ban env (nick, user, host) =
    let (kind, addr, bits) = env.parse_netmask host in
    record { name = nick; username = user; host = host; addr = addr; bits = bits; kind = kind }

abbrev pub on_chan : (Channel → Channel) → Work → Work
on_chan f w = record w { chan = f w.chan }

-- The two functions once the mask is split: whether they succeed, the text that is left in `banid`, and the state.
abbrev pub insert_id : Env → Kind → Mask → Work → Bool × Bytes × Work
insert_id env kind m w =
    let cleared = on_chan (cleared_for kind env) w in
    if any_same m (list_of kind w.chan)
    then (false, mask_text m, cleared)
    else (true, mask_text m, on_chan (put_list kind (new_ban env m ∷ list_of kind w.chan)) cleared)

abbrev pub num_masks : Channel → ℕ
num_masks ch = length ch.banlist + length ch.exceptlist + length ch.invexlist

abbrev pub err_banlistfull : ℕ
err_banlistfull = 478

unfoldable pub add_id : Env → Kind → Bytes → Work → Bool × Bytes × Work
add_id env kind banid w =
    if env.source.my_client && leb env.max_bans (num_masks w.chan)
    then (false, banid, reply err_banlistfull w)
    else insert_id env kind
        (split_nuh env.nicklen
          (check_string (if env.source.my_client then collapse banid else banid)))
        w

abbrev pub delete_id : Env → Kind → Mask → Work → Bool × Bytes × Work
delete_id env kind m w = (
  any_same m (list_of kind w.chan),
  mask_text m,
  on_chan (put_list kind (remove_same m (list_of kind w.chan))) (on_chan (cleared_for kind env) w),
)

unfoldable pub del_id : Env → Kind → Bytes → Work → Bool × Bytes × Work
del_id env kind banid w = delete_id env kind (split_nuh env.nicklen (check_string banid)) w
