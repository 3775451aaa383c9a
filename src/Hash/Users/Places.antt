-- ===== src/Hash/Users/Places.antt =====
-- What a change at the block of one host of src/hash.c does to the counts by user and host.
use unirc_ircd.Prelude.{
  ap, ℕ, ◌≡◌, ◌≤◌, refl, sym, ◌∙◌, Bool, true, false, ◌&&◌, Option, none, some, List, [], ◌∷◌,
  arith, length,
}
use unirc_ircd.Chars.{Bytes}
use unirc_ircd.Match.Case.{NoNul}
use unirc_ircd.Hash.{names_equal}
use unirc_ircd.Hash.Names.{names_equal_iff}
use unirc_ircd.Hash.Spec.{deleted, FoundBy}
use unirc_ircd.Hash.Users.{
  Counts, NameHost, UserHosts, no_counts, count_up, count_down, counts_of, on_names, counts_at,
  userlen, delete_name, add_name, drop_empty,
}
use unirc_ircd.Hash.Users.Names.{or_none, names_in, Different, counts_of-same}
use unirc_ircd.Hash.Users.Edits.{
  changed, left_of, add_name-Different, add_name-changed, delete_name-Different,
  delete_name-changed,
}
use unirc_ircd.Hash.Users.Hosts.{Sound, counts, counts_here, on_names-Sound}
use unirc_ircd.Hash.Users.Blocks.{Alike, on_names-counts, without-Sound, without-counts}

-- An operation left the blocks of some set in the table, and changed the counts of one user at one host.
abbrev pub Counted : ℕ → (Counts → Counts) → Bytes → Bytes → UserHosts → UserHosts → Type 0
Counted key f user host s t =
    ((objects : ℕ → Bool) × Sound key objects t)
    × ((u h : Bytes)
        → NoNul u
        → NoNul h
        → counts key u h t
          ≡ changed f (names_equal host h && names_equal user u) (counts key u h s))

module _ (key : ℕ) (objects : ℕ → Bool) (s : UserHosts) (sound : Sound key objects s)
    (host user : Bytes) (zh : NoNul host) (zu : NoNul user) (global ident : Bool) where
  -- The name is added at the block of its host.
  pub add_at :
      (a : ℕ)
      → length user ≤ userlen
      → FoundBy key s.host host objects (some a)
      → Counted key (count_up global ident) user host s (on_names (add_name global ident user) a s)
  add_at a l at = (
    (objects, on_names-Sound key objects s (add_name global ident user) a sound d),
    λ u h nu nh.
        on_names-counts key objects s sound host u h zh nh (add_name global ident user)
          (count_up global ident) user a at d
          (add_name-changed global ident user u (s.names a) zu nu l (sound.names a)),
  )
    where
      d : Different (names_in (add_name global ident user (s.names a)))
      d = add_name-Different global ident user (s.names a) zu l (sound.names a)

  -- The name is taken off, and the block with it where it was the last.
  pub delete_at_block :
      (a : ℕ) (c : Counts)
      → FoundBy key s.host host objects (some a)
      → counts_of user (s.names a) ≡ some c
      → let left = on_names (delete_name global ident user) a s in
        Counted key
          (λ x. left_of (count_down global ident x))
          user
          host
          s
          (drop_empty key a (left.names a) left)
  delete_at_block a c at there = by_left (left.names a) refl
    where
      left : UserHosts
      left = on_names (delete_name global ident user) a s

      d : Different (names_in (delete_name global ident user (s.names a)))
      d = delete_name-Different global ident user (s.names a) (sound.names a)

      kept : Sound key objects left
      kept = on_names-Sound key objects s (delete_name global ident user) a sound d

      taken :
          (u h : Bytes)
          → NoNul u
          → NoNul h
          → counts key u h left
            ≡ changed
                (λ x. left_of (count_down global ident x))
                (names_equal host h && names_equal user u)
                (counts key u h s)
      taken u h nu nh =
          on_names-counts key objects s sound host u h zh nh (delete_name global ident user)
            (λ x. left_of (count_down global ident x)) user a at d
            (delete_name-changed global ident user u (s.names a) c zu nu (sound.names a) there)

      by_left :
          (ns : List NameHost)
          → left.names a ≡ ns
          → Counted key
              (λ x. left_of (count_down global ident x))
              user
              host
              s
              (drop_empty key a ns left)
      by_left [] e = (
        (deleted a objects, without-Sound key objects left kept a),
        λ u h nu nh. without-counts key objects left kept a u h nh at.0 e ∙ taken u h nu nh,
      )
      by_left (n ∷ ns) e = ((objects, kept), taken)

-- What is not counted stays so.
none_left :
    (global ident b : Bool) (c : Counts)
    → (b ≡ true → c ≡ no_counts)
    → c ≡ changed (λ x. left_of (count_down global ident x)) b c
unfolding count_down
none_left global ident false c e = refl
none_left true ident true c e = rw (e refl) refl
none_left false ident true c e = rw (e refl) refl

module _ (key : ℕ) (objects : ℕ → Bool) (s : UserHosts) (sound : Sound key objects s)
    (host user : Bytes) (zh : NoNul host) (zu : NoNul user) where
  pub not_there :
      (global ident : Bool) (r : Option ℕ)
      → FoundBy key s.host host objects r
      → counts_at user r s.names ≡ none
      → Counted key (λ x. left_of (count_down global ident x)) user host s s
  not_there global ident r at nobody = (
    (objects, sound),
    λ u h nu nh.
        none_left global ident (names_equal host h && names_equal user u) (counts key u h s) (λ e.
          let eh : names_equal host h ≡ true = ground (arith, e) in
          let eu : names_equal user u ≡ true = ground (arith, e) in
          counts_here key objects s sound u h r nh
            (moved h r (sym ((names_equal_iff host h zh nh).0 eh)) at)
          ∙ ap or_none (sym (same u nu eu r) ∙ nobody)),
  )
    where
      moved :
          (h : Bytes) (r : Option ℕ)
          → Alike h host
          → FoundBy key s.host host objects r
          → FoundBy key s.host h objects r
      moved h none e at = λ a o k. at a o (sym e ∙ k)
      moved h (some a) e at = (at.0, e ∙ at.1)

      same :
          (u : Bytes)
          → NoNul u
          → names_equal user u ≡ true
          → (r : Option ℕ) → counts_at user r s.names ≡ counts_at u r s.names
      same u nu e none = refl
      same u nu e (some a) = counts_of-same user u (s.names a) zu nu (sound.names a) e
