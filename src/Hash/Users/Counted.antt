-- ===== src/Hash/Users/Counted.antt =====
-- The table of src/hash.c as counts by user and host.
use unirc_ircd.Prelude.{
  ap, ℕ, ◌≡◌, ◌≤◌, refl, ◌∙◌, Bool, true, false, false, ◌&&◌, Option, none, some, [], ◌∷◌, ◌==◌,
  if-case, length,
}
use unirc_ircd.Chars.{Bytes}
use unirc_ircd.Match.Case.{NoNul}
use unirc_ircd.Hash.{names_equal}
use unirc_ircd.Hash.Spec.{added, FoundBy}
use unirc_ircd.Hash.Users.{
  Counts, UserHosts, count_up, count_down, counts_of, on_names, find_userhost, found_or_new,
  find_or_add_userhost, new_userhost, hostlen, userlen, add_user_host, delete_user_host,
  delete_counted, delete_at, add_name, has_ident, behind_tilde,
}
use unirc_ircd.Hash.Users.Edits.{changed, left_of}
use unirc_ircd.Hash.Users.Hosts.{
  Sound, counts, find_userhost-FoundBy, find_userhost-Sound, find_userhost-counts,
}
use unirc_ircd.Hash.Users.Fresh.{new_userhost-Sound, new_userhost-counts, new_userhost-FoundBy}
use unirc_ircd.Hash.Users.Tally.{one_more, one_less, count_up-eq, left_of-eq}
use unirc_ircd.Hash.Users.Places.{Counted, add_at, delete_at_block, not_there}

NoNul-behind_tilde : (user : Bytes) → NoNul user → NoNul (behind_tilde user)
NoNul-behind_tilde [] z = z
NoNul-behind_tilde (c ∷ user) z = if-case {A = Bytes} NoNul (c == b'~') (λ e. z.2) (λ e. z)

-- What an operation does behind the search for the host.
behind_find :
    (key : ℕ) (objects : ℕ → Bool) (s : UserHosts) (f : Counts → Counts) (user host : Bytes)
    (t : UserHosts)
    → Sound key objects s
    → NoNul host
    → Counted key f user host (find_userhost key host s).1 t
    → Counted key f user host s t
behind_find key objects s f user host t sound z (kept, done) = (
  kept,
  λ u h nu nh.
      done u h nu nh
      ∙ ap (changed f (names_equal host h && names_equal user u))
          (find_userhost-counts key objects s sound host u h z nh),
)

module _ (key : ℕ) (objects : ℕ → Bool) (s : UserHosts) (fresh : ℕ) (user host : Bytes)
    (global : Bool) (sound : Sound key objects s) (z : NoNul host) (zu : NoNul user) where
  found-Sound : Sound key objects (find_userhost key host s).1
  found-Sound = find_userhost-Sound key objects s sound host z

  delete-Counted :
      Counted key
        (λ c. left_of (count_down global (has_ident user) c))
        (behind_tilde user)
        host
        s
        (delete_user_host key user host global s)
  unfolding delete_user_host
  delete-Counted =
      behind_find key objects s (λ c. left_of (count_down global (has_ident user) c))
        (behind_tilde user) host (delete_user_host key user host global s) sound z
        (by_found (find_userhost key host s).0 (find_userhost-FoundBy key objects s sound host z))
    where
      by_name :
          (a : ℕ) (o : Option Counts)
          → FoundBy key s.host host objects (some a)
          → counts_of (behind_tilde user) (s.names a) ≡ o
          → Counted key
              (λ c. left_of (count_down global (has_ident user) c))
              (behind_tilde user)
              host
              (find_userhost key host s).1
              (delete_counted key global user a o (find_userhost key host s).1)
      by_name a none at e =
          not_there key objects (find_userhost key host s).1 found-Sound host (behind_tilde user) z
            (NoNul-behind_tilde user zu) global (has_ident user) (some a) at e
      by_name a (some c) at e =
          delete_at_block key objects (find_userhost key host s).1 found-Sound host
            (behind_tilde user) z (NoNul-behind_tilde user zu) global (has_ident user) a c at e

      by_found :
          (r : Option ℕ)
          → FoundBy key s.host host objects r
          → Counted key
              (λ c. left_of (count_down global (has_ident user) c))
              (behind_tilde user)
              host
              (find_userhost key host s).1
              (delete_at key global user r (find_userhost key host s).1)
      by_found none at =
          not_there key objects (find_userhost key host s).1 found-Sound host (behind_tilde user) z
            (NoNul-behind_tilde user zu) global (has_ident user) none at refl
      by_found (some a) at = by_name a (counts_of (behind_tilde user) (s.names a)) at refl

  add-Counted :
      objects fresh ≡ false
      → length host ≤ hostlen
      → length (behind_tilde user) ≤ userlen
      → Counted key
          (count_up global (has_ident user))
          (behind_tilde user)
          host
          s
          (add_user_host key fresh user host global s)
  unfolding add_user_host find_or_add_userhost
  add-Counted unused lh lu =
      behind_find key objects s (count_up global (has_ident user)) (behind_tilde user) host
        (add_user_host key fresh user host global s) sound z
        (by_found (find_userhost key host s).0 (find_userhost-FoundBy key objects s sound host z))
    where
      s1 : UserHosts
      s1 = (find_userhost key host s).1

      by_found :
          (r : Option ℕ)
          → FoundBy key s.host host objects r
          → let found = found_or_new key fresh host (r, s1) in
            Counted key
              (count_up global (has_ident user))
              (behind_tilde user)
              host
              s1
              (on_names (add_name global (has_ident user) (behind_tilde user)) found.0 found.1)
      by_found (some a) at =
          add_at key objects s1 found-Sound host (behind_tilde user) z (NoNul-behind_tilde user zu)
            global (has_ident user) a lu at
      by_found none missing =
          let new = new_userhost key fresh host s1 in
          let added_at =
            add_at key (added fresh objects) new
              (new_userhost-Sound key objects s1 found-Sound fresh host unused z lh missing) host
              (behind_tilde user) z (NoNul-behind_tilde user zu) global (has_ident user) fresh lu
              (new_userhost-FoundBy key objects s1 found-Sound fresh host unused z lh missing) in
          (
            added_at.0,
            λ u h nu nh.
                added_at.1 u h nu nh
                ∙ ap
                    (changed (count_up global (has_ident user))
                      (names_equal host h && names_equal (behind_tilde user) u))
                    (new_userhost-counts key objects s1 found-Sound fresh host unused z lh missing u
                      h nh),
          )

Counted-eq :
    (key : ℕ) (f g : Counts → Counts) (user host : Bytes) (s t : UserHosts)
    → ((c : Counts) → f c ≡ g c)
    → Counted key f user host s t
    → Counted key g user host s t
Counted-eq key f g user host s t same (kept, done) = (
  kept,
  λ u h nu nh.
      done u h nu nh ∙ by_test (names_equal host h && names_equal user u) (counts key u h s),
)
  where
    by_test : (b : Bool) (c : Counts) → changed f b c ≡ changed g b c
    by_test true c = same c
    by_test false c = refl

-- On a sound table of user hosts, `add_user_host` and `delete_user_host` leave a sound table, and
-- what `count_user_host` gives, which is no counts where it writes nothing, changes for the names
-- equal in any case to the user, behind its tilde, at the hosts equal to the host, and for no
-- others. The first counts one client more and the second one less: among all, among the local ones
-- where it is local, and among those with ident where it is local and has no tilde; the second
-- forgets all three counts when those of all and of local clients are 0. It is asked that the names
-- have no NUL, that user and host fit the arrays, and that the new block is in no table.
pub user_host-Counted :
    (key : ℕ) (objects : ℕ → Bool) (s : UserHosts) (fresh : ℕ) (user host : Bytes) (global : Bool)
    → Sound key objects s
    → NoNul host
    → NoNul user
    → objects fresh ≡ false
    → length host ≤ hostlen
    → length (behind_tilde user) ≤ userlen
    → Counted key
        (one_more global (has_ident user))
        (behind_tilde user)
        host
        s
        (add_user_host key fresh user host global s)
      × Counted key
          (one_less global (has_ident user))
          (behind_tilde user)
          host
          s
          (delete_user_host key user host global s)
user_host-Counted key objects s fresh user host global sound z zu unused lh lu = (
  Counted-eq key (count_up global (has_ident user)) (one_more global (has_ident user))
      (behind_tilde user) host s (add_user_host key fresh user host global s)
      (count_up-eq global (has_ident user))
      (add-Counted key objects s fresh user host global sound z zu unused lh lu),
  Counted-eq key (λ c. left_of (count_down global (has_ident user) c))
      (one_less global (has_ident user)) (behind_tilde user) host s
      (delete_user_host key user host global s) (left_of-eq global (has_ident user))
      (delete-Counted key objects s fresh user host global sound z zu),
)
