-- ===== src/Hash/Users/Hosts.antt =====
-- The table of hosts of src/hash.c, and the lists of user names at it.
use unirc_ircd.Prelude.{
  ap, ℕ, ◌≡◌, refl, sym, ◌∙◌, Bool, true, Option, none, some, List, ◌==◌, if-case,
}
use unirc_ircd.Chars.{Bytes}
use unirc_ircd.Match.Case.{NoNul}
use unirc_ircd.Hash.{names_equal}
use unirc_ircd.Hash.Names.{names_equal_iff}
use unirc_ircd.Hash.Spec.{Represents, FoundBy, find, hash-Represents}
use unirc_ircd.Hash.Users.{
  Counts, NameHost, UserHosts, on_names, find_userhost, counts_at, count_user_host,
}
use unirc_ircd.Hash.Users.Names.{or_none, names_in, Different}

-- The blocks of `objects` are in the table by their hosts, C strings of which no two are equal in any case; no list of
-- names has one twice.
pub record Sound (key : ℕ) (objects : ℕ → Bool) (s : UserHosts) : Type 0 where
  pub table : Represents key s.host s.table objects
  pub named : (a : ℕ) → NoNul (s.host a)
  pub single :
      (a b : ℕ)
      → objects a ≡ true
      → objects b ≡ true
      → names_equal (s.host a) (s.host b) ≡ true
      → a ≡ b
  pub names : (a : ℕ) → Different (names_in (s.names a))

-- What is counted for a client's user name and host.
abbrev pub counts : ℕ → Bytes → Bytes → UserHosts → Counts
counts key user host s = or_none (count_user_host key user host s).0

module _ (key : ℕ) (objects : ℕ → Bool) (s : UserHosts) (sound : Sound key objects s) where
  -- A host is found in one way.
  pub found_unique :
      (h : Bytes) (r q : Option ℕ)
      → NoNul h
      → FoundBy key s.host h objects r
      → FoundBy key s.host h objects q
      → r ≡ q
  found_unique h none none z f g = refl
  found_unique h none (some b) z f g = absurd (f b g.0 g.1)
  found_unique h (some a) none z f g = absurd (g a f.0 f.1)
  found_unique h (some a) (some b) z f g = ap some (
      sound.single a b f.0 g.0
        ((names_equal_iff (s.host a) (s.host b) (sound.named a) (sound.named b)).1 (sym f.1 ∙ g.1)))

  pub find_userhost-FoundBy :
      (h : Bytes) → NoNul h → FoundBy key s.host h objects (find_userhost key h s).0
  find_userhost-FoundBy h z =
      (hash-Represents key s.host s.table objects (find h) sound.named sound.table z).1

  pub find_userhost-Sound : (h : Bytes) → NoNul h → Sound key objects (find_userhost key h s).1
  find_userhost-Sound h z = record {
    table = (hash-Represents key s.host s.table objects (find h) sound.named sound.table z).0;
    named = sound.named;
    single = sound.single;
    names = sound.names;
  }

  -- The counts where the block of the host is known.
  pub counts_here :
      (u h : Bytes) (r : Option ℕ)
      → NoNul h
      → FoundBy key s.host h objects r
      → counts key u h s ≡ or_none (counts_at u r s.names)
  unfolding count_user_host
  counts_here u h r z f =
      ap (λ q. or_none (counts_at u q s.names))
        (found_unique h (find_userhost key h s).0 r z (find_userhost-FoundBy h z) f)

-- A search does not change what is counted.
pub find_userhost-counts :
    (key : ℕ) (objects : ℕ → Bool) (s : UserHosts)
    → Sound key objects s
    → (g u h : Bytes) → NoNul g
    → NoNul h
    → counts key u h (find_userhost key g s).1 ≡ counts key u h s
find_userhost-counts key objects s sound g u h zg zh =
    let r = (find_userhost key h s).0 in
    let f = find_userhost-FoundBy key objects s sound h zh in
    counts_here key objects (find_userhost key g s).1 (find_userhost-Sound key objects s sound g zg)
      u h r zh f
    ∙ sym (counts_here key objects s sound u h r zh f)

pub on_names-Sound :
    (key : ℕ) (objects : ℕ → Bool) (s : UserHosts) (f : List NameHost → List NameHost) (a : ℕ)
    → Sound key objects s
    → Different (names_in (f (s.names a)))
    → Sound key objects (on_names f a s)
on_names-Sound key objects s f a sound d = record {
  table = sound.table;
  named = sound.named;
  single = sound.single;
  names = λ b.
      if-case {A = List NameHost} (λ l. Different (names_in l)) (b == a) (λ e. d)
        (λ e. sound.names b);
}
