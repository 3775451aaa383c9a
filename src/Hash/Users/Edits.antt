-- ===== src/Hash/Users/Edits.antt =====
-- What adding and deleting a user name do to the list of names of one host in src/hash.c.
use mathlib.Core.Path.{subst}
use unirc_ircd.Prelude.{
  ap, ◌≤◌, ◌≡◌, refl, sym, ◌∙◌, Bool, true, false, Option, none, some, List, [], ◌∷◌, if◌then◌else◌,
  if-case, length, Bool-cases, inl, inr,
}
use unirc_ircd.Chars.{Bytes}
use unirc_ircd.Match.Case.{NoNul}
use unirc_ircd.Dbuf.Contents.{take_all}
use unirc_ircd.Hash.{names_equal}
use unirc_ircd.Hash.Names.{names_equal_sym, names_equal_apart}
use unirc_ircd.Hash.Users.{
  Counts, NameHost, no_counts, count_up, count_down, counts_of, count_again, add_name, name_added,
  is_gone, delete_name, userlen,
}
use unirc_ircd.Hash.Users.Names.{
  or_none, names_in, Unnamed, Different, counts_of-same, Unnamed-same, counts_of-Unnamed,
  apart_from, counts_of-head, counts_of-tail, head_counts, Unnamed-counts_of,
}

names_in-count_again :
    (g i : Bool) (user : Bytes) (ns : List NameHost)
    → names_in (count_again g i user ns) ≡ names_in ns
unfolding count_again
names_in-count_again g i user [] = refl
names_in-count_again g i user (n ∷ ns) =
    if-case {A = List NameHost} (λ l. names_in l ≡ n.name ∷ names_in ns) (names_equal user n.name)
      (λ e. refl) (λ e. ap (λ ss. n.name ∷ ss) (names_in-count_again g i user ns))

count_again-other :
    (g i : Bool) (user u : Bytes) (ns : List NameHost)
    → NoNul user
    → NoNul u
    → Different (names_in ns)
    → names_equal user u ≡ false
    → counts_of u (count_again g i user ns) ≡ counts_of u ns
unfolding counts_of count_again
count_again-other g i user u [] zs zu d e = refl
count_again-other g i user u (n ∷ ns) zs zu (z, a, d) e =
    elim (Bool-cases (names_equal user n.name)) [
      | inl k ↦ rw k (rw (apart_from user u n.name zs zu z e k) refl)
      | inr k ↦ rw k (rw (count_again-other g i user u ns zs zu d e) refl)
    ]

count_again-same :
    (g i : Bool) (user : Bytes) (ns : List NameHost) (c : Counts)
    → counts_of user ns ≡ some c
    → counts_of user (count_again g i user ns) ≡ some (count_up g i c)
unfolding count_again
count_again-same g i user [] c h = cc (h, counts_of-Unnamed user [] tt)
count_again-same g i user (n ∷ ns) c h = elim (Bool-cases (names_equal user n.name)) [
  | inl k ↦ rw k (
      counts_of-head user (record n { counts = count_up g i n.counts }) ns k
      ∙ ap (λ x. some (count_up g i x)) (head_counts user n ns c k h))
  | inr k ↦ rw k (
      counts_of-tail user n (count_again g i user ns) k
      ∙ count_again-same g i user ns c (sym (counts_of-tail user n ns k) ∙ h))
]

delete_name-other :
    (g i : Bool) (user u : Bytes) (ns : List NameHost)
    → NoNul user
    → NoNul u
    → Different (names_in ns)
    → names_equal user u ≡ false
    → counts_of u (delete_name g i user ns) ≡ counts_of u ns
unfolding counts_of delete_name
delete_name-other g i user u [] zs zu d e = refl
delete_name-other g i user u (n ∷ ns) zs zu (z, a, d) e =
    elim (Bool-cases (names_equal user n.name)) [
      | inl k ↦ elim (Bool-cases (is_gone (count_down g i n.counts))) [
        | inl o ↦ rw k (rw o (rw (apart_from user u n.name zs zu z e k) refl))
        | inr o ↦ rw k (rw o (rw (apart_from user u n.name zs zu z e k) refl))
      ]
      | inr k ↦ rw k (rw (delete_name-other g i user u ns zs zu d e) refl)
    ]

-- Counts that are gone are none.
abbrev pub left_of : Counts → Counts
left_of c = if is_gone c then no_counts else c

delete_name-same :
    (g i : Bool) (user : Bytes) (ns : List NameHost) (c : Counts)
    → NoNul user
    → Different (names_in ns)
    → counts_of user ns ≡ some c
    → or_none (counts_of user (delete_name g i user ns)) ≡ left_of (count_down g i c)
unfolding delete_name
delete_name-same g i user [] c zs d h = cc (h, counts_of-Unnamed user [] tt)
delete_name-same g i user (n ∷ ns) c zs (z, a, d) h = elim (Bool-cases (names_equal user n.name)) [
  | inl k ↦
      let behind : Unnamed user (names_in ns) =
        Unnamed-same n.name user (names_in ns) z zs d (names_equal_sym user n.name zs z k) a in
      let left = count_down g i n.counts in
      elim (Bool-cases (is_gone left)) [
        | inl o ↦ rw k (rw o (ap or_none (counts_of-Unnamed user ns behind) ∙ gone left o ∙ now k))
        | inr o ↦ rw k (
            rw o (
              ap or_none (counts_of-head user (record n { counts = left }) ns k)
              ∙ kept left o
              ∙ now k))
      ]
  | inr k ↦ rw k (
      ap or_none (counts_of-tail user n (delete_name g i user ns) k)
      ∙ delete_name-same g i user ns c zs d (sym (counts_of-tail user n ns k) ∙ h))
]
  where
    now :
        names_equal user n.name ≡ true
        → left_of (count_down g i n.counts) ≡ left_of (count_down g i c)
    now k = ap (λ x. left_of (count_down g i x)) (head_counts user n ns c k h)

    gone : (x : Counts) → is_gone x ≡ true → no_counts ≡ left_of x
    gone x o = sym (ap (λ b. if b then no_counts else x) o)

    kept : (x : Counts) → is_gone x ≡ false → x ≡ left_of x
    kept x o = sym (ap (λ b. if b then no_counts else x) o)

Unnamed-delete_name :
    (g i : Bool) (user u : Bytes) (ns : List NameHost)
    → Unnamed u (names_in ns)
    → Unnamed u (names_in (delete_name g i user ns))
unfolding delete_name
Unnamed-delete_name g i user u [] h = tt
Unnamed-delete_name g i user u (n ∷ ns) (h, r) =
    if-case {A = List NameHost} (λ l. Unnamed u (names_in l)) (names_equal user n.name)
      (λ e.
        if-case {A = List NameHost} (λ l. Unnamed u (names_in l))
          (is_gone (count_down g i n.counts)) (λ o. r) (λ o. (h, r)))
      (λ e. (h, Unnamed-delete_name g i user u ns r))

pub delete_name-Different :
    (g i : Bool) (user : Bytes) (ns : List NameHost)
    → Different (names_in ns)
    → Different (names_in (delete_name g i user ns))
unfolding delete_name
delete_name-Different g i user [] d = tt
delete_name-Different g i user (n ∷ ns) (z, a, d) =
    if-case {A = List NameHost} (λ l. Different (names_in l)) (names_equal user n.name)
      (λ e.
        if-case {A = List NameHost} (λ l. Different (names_in l))
          (is_gone (count_down g i n.counts)) (λ o. d) (λ o. (z, a, d)))
      (λ e. (z, Unnamed-delete_name g i user n.name ns a, delete_name-Different g i user ns d))

-- What an operation on one name does to the counts of each name.
abbrev pub changed : (Counts → Counts) → Bool → Counts → Counts
changed f true c = f c
changed f false c = c

pub delete_name-changed :
    (g i : Bool) (user u : Bytes) (ns : List NameHost) (c : Counts)
    → NoNul user
    → NoNul u
    → Different (names_in ns)
    → counts_of user ns ≡ some c
    → or_none (counts_of u (delete_name g i user ns))
      ≡ changed (λ x. left_of (count_down g i x)) (names_equal user u) (or_none (counts_of u ns))
delete_name-changed g i user u ns c zs zu d h = elim (Bool-cases (names_equal user u)) [
  | inl e ↦ rw e (
      sym (
        ap or_none (
          counts_of-same user u (delete_name g i user ns) zs zu
            (delete_name-Different g i user ns d) e))
      ∙ delete_name-same g i user ns c zs d h
      ∙ ap (λ o. left_of (count_down g i (or_none o))) (sym h ∙ counts_of-same user u ns zs zu d e))
  | inr e ↦ rw e (ap or_none (delete_name-other g i user u ns zs zu d e))
]

pub add_name-Different :
    (g i : Bool) (user : Bytes) (ns : List NameHost)
    → NoNul user
    → length user ≤ userlen
    → Different (names_in ns)
    → Different (names_in (add_name g i user ns))
unfolding add_name
add_name-Different g i user ns zs l d = by_found (counts_of user ns) refl
  where
    by_found :
        (o : Option Counts)
        → counts_of user ns ≡ o
        → Different (names_in (name_added g i user ns o))
    by_found none h = rw (take_all userlen user l) (zs, Unnamed-counts_of user ns h, d)
    by_found (some c) h = subst Different (sym (names_in-count_again g i user ns)) d

pub add_name-changed :
    (g i : Bool) (user u : Bytes) (ns : List NameHost)
    → NoNul user
    → NoNul u
    → length user ≤ userlen
    → Different (names_in ns)
    → or_none (counts_of u (add_name g i user ns))
      ≡ changed (count_up g i) (names_equal user u) (or_none (counts_of u ns))
unfolding add_name
add_name-changed g i user u ns zs zu l d = by_found (counts_of user ns) refl
  where
    by_found :
        (o : Option Counts)
        → counts_of user ns ≡ o
        → or_none (counts_of u (name_added g i user ns o))
          ≡ changed (count_up g i) (names_equal user u) (or_none (counts_of u ns))
    by_found none h = rw (take_all userlen user l) (elim (Bool-cases (names_equal user u)) [
      | inl e ↦
          let new : NameHost = record { name = user; counts = count_up g i no_counts } in
          rw e (
            ap or_none (counts_of-head u new ns (names_equal_sym user u zs zu e))
            ∙ ap (λ o. count_up g i (or_none o)) (sym h ∙ counts_of-same user u ns zs zu d e))
      | inr e ↦ rw e (
          ap or_none (
            counts_of-tail u (record { name = user; counts = count_up g i no_counts }) ns
              (names_equal_apart user u zs zu e)))
    ])
    by_found (some c) h = elim (Bool-cases (names_equal user u)) [
      | inl e ↦
          let again : Different (names_in (count_again g i user ns)) =
            subst Different (sym (names_in-count_again g i user ns)) d in
          rw e (
            ap or_none (
              sym (counts_of-same user u (count_again g i user ns) zs zu again e)
              ∙ count_again-same g i user ns c h)
            ∙ ap (λ o. count_up g i (or_none o)) (sym h ∙ counts_of-same user u ns zs zu d e))
      | inr e ↦ rw e (ap or_none (count_again-other g i user u ns zs zu d e))
    ]
