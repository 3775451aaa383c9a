-- ===== src/Hash/Tests.antt =====
-- The tables of src/hash.c with concrete names.
use unirc_ircd.Prelude.{ℕ, refl, false, List, [], ◌∷◌, arith, ◌==◌, if◌then◌else◌, if-case}
use unirc_ircd.Chars.{Bytes}
use unirc_ircd.Match.Case.{NoNul}
use unirc_ircd.Hash.{Table}
use unirc_ircd.Hash.Spec.{add, find, Represents, apply_to, Answers, added, hash-Represents}
use unirc_ircd.Hash.Users.{Counts, NameHost, UserHosts, add_user_host, delete_user_host}
use unirc_ircd.Hash.Users.Names.{names_in, Different}
use unirc_ircd.Hash.Users.Hosts.{Sound}
use unirc_ircd.Hash.Users.Tally.{one_more, one_less}
use unirc_ircd.Hash.Users.Counted.{user_host-Counted}
use unirc_ircd.Hash.Users.Places.{Counted}

abbrev nick : Bytes
nick = b'n' ∷ b'[' ∷ []

-- Object 1 is called `n[`, all others `x`.
abbrev name_of : ℕ → Bytes
name_of a = if a == 1 then nick else b'x' ∷ []

name_of-NoNul : (a : ℕ) → NoNul (name_of a)
name_of-NoNul a = ground arith

abbrev empty : Table
empty = λ h. []

empty-Represents : Represents 7 name_of empty (λ a. false)
empty-Represents a h = ground arith

abbrev one_nick : Table
one_nick = (apply_to 7 name_of (add 1) empty).1

hash-Represents_example :
    Represents 7 name_of
      (apply_to 7 name_of (find (b'N' ∷ b'{' ∷ [])) one_nick).1
      (added 1 (λ a. false))
    × Answers 7 name_of
        (find (b'N' ∷ b'{' ∷ []))
        (added 1 (λ a. false))
        (apply_to 7 name_of (find (b'N' ∷ b'{' ∷ [])) one_nick).0
hash-Represents_example =
    hash-Represents 7 name_of one_nick (added 1 (λ a. false)) (find (b'N' ∷ b'{' ∷ []))
      name_of-NoNul
      (hash-Represents 7 name_of empty (λ a. false) (add 1) name_of-NoNul empty-Represents refl).0
      (omega arith)

abbrev bob : Bytes
bob = b'b' ∷ b'o' ∷ b'b' ∷ []

abbrev once : Counts
once = record { gcount = 1; lcount = 1; icount = 0 }

-- Block 1 is the host `n[`, where bob is counted.
abbrev at_host : UserHosts
at_host = record {
  table = one_nick;
  host = name_of;
  names = λ a. if a == 1 then record { name = bob; counts = once } ∷ [] else [];
}

at_host-Sound : Sound 7 (added 1 (λ a. false)) at_host
at_host-Sound = record {
  table =
      (hash-Represents 7 name_of empty (λ a. false) (add 1) name_of-NoNul empty-Represents refl).0;
  named = name_of-NoNul;
  single = λ a b oa ob e. ground (arith, oa, ob);
  names = λ a.
      if-case {A = List NameHost} (λ l. Different (names_in l)) (a == 1)
        (λ e. (omega arith, tt, tt)) (λ e. tt);
}

-- One more bob, with a tilde, at the host `N{`.
user_host-Counted_example :
    Counted 7
      (one_more false false)
      bob
      (b'N' ∷ b'{' ∷ [])
      at_host
      (add_user_host 7 2 (b'~' ∷ bob) (b'N' ∷ b'{' ∷ []) false at_host)
    × Counted 7
        (one_less false false)
        bob
        (b'N' ∷ b'{' ∷ [])
        at_host
        (delete_user_host 7 (b'~' ∷ bob) (b'N' ∷ b'{' ∷ []) false at_host)
user_host-Counted_example =
    user_host-Counted 7 (added 1 (λ a. false)) at_host 2 (b'~' ∷ bob) (b'N' ∷ b'{' ∷ []) false
      at_host-Sound (omega arith) (omega arith) refl (omega arith) (omega arith)
