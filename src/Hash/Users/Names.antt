-- ===== src/Hash/Users/Names.antt =====
-- The list of user names of one host in src/hash.c, as counts by name.
use mathlib.Core.Bool.{true≢false}
use unirc_ircd.Prelude.{
  ap, ◌≡◌, refl, sym, ◌∙◌, true, false, Option, none, some, List, [], ◌∷◌, Bool-cases, Bool-eq_iff,
  inl, inr,
}
use unirc_ircd.Chars.{Bytes}
use unirc_ircd.Match.Case.{NoNul}
use unirc_ircd.Hash.{names_equal}
use unirc_ircd.Hash.Names.{names_equal_sym, names_equal_trans}
use unirc_ircd.Hash.Users.{Counts, NameHost, no_counts, counts_of}

abbrev pub or_none : Option Counts → Counts
or_none none = no_counts
or_none (some c) = c

abbrev pub names_in : List NameHost → List Bytes
names_in [] = []
names_in (n ∷ ns) = n.name ∷ names_in ns

abbrev pub Unnamed : Bytes → List Bytes → Type 0
Unnamed user [] = Unit {0}
Unnamed user (s ∷ ss) = (names_equal user s ≡ false) × Unnamed user ss

-- Names are C strings, and no two are equal in any case.
abbrev pub Different : List Bytes → Type 0
Different [] = Unit {0}
Different (s ∷ ss) = NoNul s × Unnamed s ss × Different ss

-- Equal names are equal to the same names.
same_as :
    (s t u : Bytes)
    → NoNul s
    → NoNul t
    → NoNul u
    → names_equal s t ≡ true
    → names_equal s u ≡ names_equal t u
same_as s t u zs zt zu e =
    Bool-eq_iff (names_equal s u) (names_equal t u)
      (names_equal_trans t s u zt zs zu (names_equal_sym s t zs zt e))
      (names_equal_trans s t u zs zt zu e)

pub counts_of-same :
    (user u : Bytes) (ns : List NameHost)
    → NoNul user
    → NoNul u
    → Different (names_in ns)
    → names_equal user u ≡ true
    → counts_of user ns ≡ counts_of u ns
unfolding counts_of
counts_of-same user u [] zs zu d e = refl
counts_of-same user u (n ∷ ns) zs zu (z, a, d) e =
    rw (same_as user u n.name zs zu z e) (rw (counts_of-same user u ns zs zu d e) refl)

pub Unnamed-same :
    (user u : Bytes) (ss : List Bytes)
    → NoNul user
    → NoNul u
    → Different ss
    → names_equal user u ≡ true
    → Unnamed user ss
    → Unnamed u ss
Unnamed-same user u [] zs zu d e h = tt
Unnamed-same user u (s ∷ ss) zs zu (z, a, d) e (h, k) =
    (sym (same_as user u s zs zu z e) ∙ h, Unnamed-same user u ss zs zu d e k)

pub counts_of-Unnamed :
    (u : Bytes) (ns : List NameHost) → Unnamed u (names_in ns) → counts_of u ns ≡ none
unfolding counts_of
counts_of-Unnamed u [] h = refl
counts_of-Unnamed u (n ∷ ns) (h, k) = rw h (counts_of-Unnamed u ns k)

-- A name equal to one of two that differ is not equal to the other.
pub apart_from :
    (s t u : Bytes)
    → NoNul s
    → NoNul t
    → NoNul u
    → names_equal s t ≡ false
    → names_equal s u ≡ true
    → names_equal t u ≡ false
apart_from s t u zs zt zu e k = elim (Bool-cases (names_equal t u)) [
  | inl h ↦
      absurd
        (true≢false (sym (names_equal_trans s u t zs zu zt k (names_equal_sym t u zt zu h)) ∙ e))
  | inr h ↦ h
]

-- The name at the head, and behind it.
pub counts_of-head :
    (u : Bytes) (n : NameHost) (ns : List NameHost)
    → names_equal u n.name ≡ true
    → counts_of u (n ∷ ns) ≡ some n.counts
unfolding counts_of
counts_of-head u n ns e = rw e refl

pub counts_of-tail :
    (u : Bytes) (n : NameHost) (ns : List NameHost)
    → names_equal u n.name ≡ false
    → counts_of u (n ∷ ns) ≡ counts_of u ns
unfolding counts_of
counts_of-tail u n ns e = rw e refl

pub head_counts :
    (u : Bytes) (n : NameHost) (ns : List NameHost) (c : Counts)
    → names_equal u n.name ≡ true
    → counts_of u (n ∷ ns) ≡ some c
    → n.counts ≡ c
head_counts u n ns c e h = ap or_none (sym (counts_of-head u n ns e) ∙ h)

pub Unnamed-counts_of :
    (u : Bytes) (ns : List NameHost) → counts_of u ns ≡ none → Unnamed u (names_in ns)
Unnamed-counts_of u [] h = tt
Unnamed-counts_of u (n ∷ ns) h = elim (Bool-cases (names_equal u n.name)) [
  | inl e ↦ absurd (cc (h, counts_of-head u n ns e))
  | inr e ↦ (e, Unnamed-counts_of u ns (sym (counts_of-tail u n ns e) ∙ h))
]
