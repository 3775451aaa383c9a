-- ===== src/Modes/Masks/Undo.antt =====
-- Masks that src/channel_mode.c prints are read again by `split_nuh` as they are, so that what `add_id` adds `del_id`
-- takes away.
use unirc_ircd.Prelude.{
  ap, ℕ, zero, suc, ◌+◌, ◌-◌, ◌<◌, ◌≤◌, ◌≡◌, refl, ◌∙◌, true, false, some, List, [], ◌∷◌, ◌++◌,
  ◌==◌, arith, length, length-append, take,
}
use unirc_ircd.Chars.{Bytes}
use unirc_ircd.Match.Case.{NoNul}
use unirc_ircd.Hash.{names_equal}
use unirc_ircd.Hash.Names.{names_equal_iff}
use unirc_ircd.Channel.Types.{Ban}
use unirc_ircd.Modes.Types.{Channel, Env, Work}
use unirc_ircd.Modes.Masks.{
  Kind, chfl_ban, chfl_exception, chfl_invex, is_space, up_to_white, check_string, split_on, part,
  split_nuh, behind_nick, at_bang, mask_text, list_of, put_list, same_mask, any_same, remove_same,
  new_ban, add_id, del_id, hostlen, userlen,
}

abbrev pub Without : ℕ → Bytes → Type 0
Without c [] = Unit {0}
Without c (d ∷ s) = ((d == c) ≡ false) × Without c s

abbrev pub NoWhite : Bytes → Type 0
NoWhite [] = Unit {0}
NoWhite (c ∷ s) = (is_space c ≡ false) × NoWhite s

-- A mask as it is printed, whose parts fit the buffers of `add_id`, are not empty, have no NUL and no white space, the
-- nick no exclamation mark and the user name no at sign.
pub record IsMask (nicklen : ℕ) (nick user host : Bytes) : Type 0 where
  pub some_nick : 0 < length nick
  pub some_user : 0 < length user
  pub some_host : 0 < length host
  pub nick_fits : length nick < nicklen
  pub user_fits : length user ≤ userlen
  pub host_fits : length host ≤ hostlen
  pub no_bang : Without b'!' nick
  pub no_at : Without b'@' user
  pub no_white : NoWhite (mask_text (nick, user, host))
  pub no_nul : NoNul nick × NoNul user × NoNul host

take_all : (n : ℕ) (s : Bytes) → length s ≤ n → take n s ≡ s
take_all zero [] h = refl
take_all (suc n) [] h = refl
take_all zero (c ∷ s) h = absurd (omega arith)
take_all (suc n) (c ∷ s) h = ap (λ r. c ∷ r) (take_all n s (omega arith))

part_all : (size : ℕ) (s : Bytes) → 0 < length s → length s ≤ size - 1 → part size s ≡ s
part_all size [] h f = absurd (omega arith)
part_all size (c ∷ s) h f = take_all (size - 1) (c ∷ s) f

pub split_on-first : (c : ℕ) (s t : Bytes) → Without c s → split_on c (s ++ c ∷ t) ≡ some (s, t)
unfolding split_on
split_on-first c [] t h = ground arith
split_on-first c (d ∷ s) t (n, h) = rw n (rw (split_on-first c s t h) refl)

up_to_white_all : (s : Bytes) → NoWhite s → up_to_white s ≡ s
unfolding up_to_white
up_to_white_all [] h = refl
up_to_white_all (c ∷ s) (n, h) = rw n (ap (λ r. c ∷ r) (up_to_white_all s h))

check_string_all : (s : Bytes) → 0 < length s → NoWhite s → check_string s ≡ s
unfolding check_string
check_string_all [] l h = absurd (omega arith)
check_string_all (c ∷ s) l h = up_to_white_all (c ∷ s) h

split_nuh-first :
    (nicklen : ℕ) (mask nick rest : Bytes)
    → split_on b'!' mask ≡ some (nick, rest)
    → split_nuh nicklen mask ≡ behind_nick nicklen nick rest (split_on b'@' rest)
unfolding split_nuh
split_nuh-first nicklen mask nick rest h = ap (at_bang nicklen mask) h

-- What is printed is read again.
split_nuh-mask_text :
    (nicklen : ℕ) (nick user host : Bytes)
    → IsMask nicklen nick user host
    → split_nuh nicklen (check_string (mask_text (nick, user, host))) ≡ (nick, user, host)
split_nuh-mask_text nicklen nick user host m =
    let whole : split_nuh nicklen (mask_text (nick, user, host))
        ≡ behind_nick nicklen nick (user ++ b'@' ∷ host) (split_on b'@' (user ++ b'@' ∷ host)) =
      split_nuh-first nicklen (mask_text (nick, user, host)) nick (user ++ b'@' ∷ host)
        (split_on-first b'!' nick (user ++ b'@' ∷ host) m.no_bang) in
    rw
      (check_string_all (mask_text (nick, user, host))
        (omega (arith, m.some_nick, length-append nick (b'!' ∷ (user ++ b'@' ∷ host)))) m.no_white)
      (whole
        ∙ rw (split_on-first b'@' user host m.no_at) (
            rw
              (
                part_all nicklen nick m.some_nick (omega (arith, m.nick_fits)),
                part_all (userlen + 1) user m.some_user (omega (arith, m.user_fits)),
                part_all (hostlen + 1) host m.some_host (omega (arith, m.host_fits)),
              )
              refl))

same_name : (s : Bytes) → NoNul s → names_equal s s ≡ true
same_name s h = (names_equal_iff s s h h).1 refl

list_of-put : (kind : Kind) (bs : List Ban) (ch : Channel) → list_of kind (put_list kind bs ch) ≡ bs
list_of-put chfl_ban bs ch = refl
list_of-put chfl_exception bs ch = refl
list_of-put chfl_invex bs ch = refl

-- What `add_id` adds comes first in the list, as the mask it was printed as.
same_mask-new :
    (env : Env) (nick user host : Bytes)
    → NoNul nick × NoNul user × NoNul host
    → same_mask (nick, user, host) (new_ban env (nick, user, host)) ≡ true
unfolding same_mask
same_mask-new env nick user host (n, u, h) =
    rw (same_name nick n, same_name user u, same_name host h) refl

add_id_lem :
    (env : Env) (kind : Kind) (nick user host : Bytes) (w : Work)
    → env.source.my_client ≡ false
    → IsMask env.nicklen nick user host
    → any_same (nick, user, host) (list_of kind w.chan) ≡ false
    → ((add_id env kind (mask_text (nick, user, host)) w).0 ≡ true)
      × ((add_id env kind (mask_text (nick, user, host)) w).1 ≡ mask_text (nick, user, host))
      × (list_of kind (add_id env kind (mask_text (nick, user, host)) w).2.chan
          ≡ new_ban env (nick, user, host) ∷ list_of kind w.chan)
unfolding add_id
add_id_lem env kind nick user host w remote m fresh = rw remote (
    rw (split_nuh-mask_text env.nicklen nick user host m)
      (rw fresh (refl, refl, list_of-put kind _ _)))

del_id_lem :
    (env : Env) (kind : Kind) (nick user host : Bytes) (rest : List Ban) (w : Work)
    → IsMask env.nicklen nick user host
    → list_of kind w.chan ≡ new_ban env (nick, user, host) ∷ rest
    → ((del_id env kind (mask_text (nick, user, host)) w).0 ≡ true)
      × (list_of kind (del_id env kind (mask_text (nick, user, host)) w).2.chan ≡ rest)
unfolding del_id any_same remove_same
del_id_lem env kind nick user host rest w m first =
    let same = same_mask-new env nick user host m.no_nul in
    rw (split_nuh-mask_text env.nicklen nick user host m)
      (rw first (rw same refl), list_of-put kind _ _ ∙ rw first (rw same refl))

-- A mask that is printed as it is kept (`IsMask`), added for a source that is on another server to a list that does not
-- have it in any case, is added first in the list and printed unchanged; deleting what was printed then succeeds,
-- and leaves the list as it was.
pub add_id-del_id :
    (env : Env) (kind : Kind) (nick user host : Bytes) (w : Work)
    → env.source.my_client ≡ false
    → IsMask env.nicklen nick user host
    → any_same (nick, user, host) (list_of kind w.chan) ≡ false
    → let (done, banid, added) = add_id env kind (mask_text (nick, user, host)) w in
      let (undone, again, deleted) = del_id env kind banid added in
      (done ≡ true)
      × (banid ≡ mask_text (nick, user, host))
      × (list_of kind added.chan ≡ new_ban env (nick, user, host) ∷ list_of kind w.chan)
      × (undone ≡ true)
      × (list_of kind deleted.chan ≡ list_of kind w.chan)
add_id-del_id env kind nick user host w remote m fresh =
    let (done, printed, first) = add_id_lem env kind nick user host w remote m fresh in
    let (undone, as_it_was) =
      del_id_lem env kind nick user host (list_of kind w.chan)
        (add_id env kind (mask_text (nick, user, host)) w).2 m first in
    (done, printed, first, rw printed undone, rw printed as_it_was)
