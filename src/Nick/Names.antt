-- ===== src/Nick/Names.antt =====
-- That no two clients have one nick, and the changes of modules/core/m_nick.c to the list of all clients.
use mathlib.Core.Bool.{true≢false}
use mathlib.Core.Path.{subst}
use unirc_ircd.Prelude.{
  ap, ℕ, ◌≡◌, refl, sym, ◌∙◌, Bool, true, false, Option, none, some, List, [], ◌∷◌, ◌==◌, ==_refl,
  ==_iff, if-case, Bool-cases, inl, inr,
}
use unirc_ircd.Chars.{Bytes}
use unirc_ircd.Match.Case.{NoNul}
use unirc_ircd.Hash.{names_equal}
use unirc_ircd.Hash.Names.{names_equal_sym, names_equal_trans, names_equal_apart}
use unirc_ircd.Nick.{User, NickEnv, Intro, find_nick, drop_users, exit_user, renamed, rename}

abbrev pub AllUsers : (User → Type 0) → List User → Type 0
AllUsers P [] = Unit {0}
AllUsers P (u ∷ us) = P u × AllUsers P us

abbrev pub Unnumbered : ℕ → List User → Type 0
Unnumbered n us = AllUsers (λ u. (u.number == n) ≡ false) us

abbrev pub Unnamed : Bytes → List User → Type 0
Unnamed nick us = AllUsers (λ u. names_equal nick u.name ≡ false) us

-- All that have the nick, in any case, have the number.
abbrev pub Held : Bytes → ℕ → List User → Type 0
Held nick n us = AllUsers (λ u. names_equal nick u.name ≡ true → (u.number == n) ≡ true) us

-- Names are C strings; no two clients have equal names in any case, nor one number.
abbrev pub Unique : List User → Type 0
Unique [] = Unit {0}
Unique (u ∷ us) = NoNul u.name × Unnumbered u.number us × Unnamed u.name us × Unique us

pub map-AllUsers :
    (P Q : User → Type 0) (us : List User)
    → ((u : User) → P u → Q u)
    → AllUsers P us
    → AllUsers Q us
map-AllUsers P Q [] f h = tt
map-AllUsers P Q (u ∷ us) f (h, r) = (f u h, map-AllUsers P Q us f r)

pub both-AllUsers :
    (P Q R : User → Type 0) (us : List User)
    → ((u : User) → P u → Q u → R u)
    → AllUsers P us
    → AllUsers Q us
    → AllUsers R us
both-AllUsers P Q R [] f h k = tt
both-AllUsers P Q R (u ∷ us) f (h, r) (k, q) = (f u h k, both-AllUsers P Q R us f r q)

pub drop_users-AllUsers :
    (P : User → Type 0) (p : User → Bool) (us : List User)
    → AllUsers P us
    → AllUsers P (drop_users p us)
unfolding drop_users
drop_users-AllUsers P p [] h = tt
drop_users-AllUsers P p (u ∷ us) (h, r) =
    if-case {A = List User} (AllUsers P) (p u) (λ e. drop_users-AllUsers P p us r)
      (λ e. (h, drop_users-AllUsers P p us r))

pub drop_users-Unique : (p : User → Bool) (us : List User) → Unique us → Unique (drop_users p us)
unfolding drop_users
drop_users-Unique p [] h = tt
drop_users-Unique p (u ∷ us) (z, a, b, r) =
    if-case {A = List User} Unique (p u) (λ e. drop_users-Unique p us r)
      (λ e.
        (z, drop_users-AllUsers _ p us a, drop_users-AllUsers _ p us b, drop_users-Unique p us r))

-- Whoever holds a nick gone, nobody has it.
pub exit_user-Held :
    (nick : Bytes) (n : ℕ) (us : List User) → Held nick n us → Unnamed nick (exit_user n us)
unfolding drop_users
exit_user-Held nick n [] h = tt
exit_user-Held nick n (u ∷ us) (h, r) =
    if-case {A = List User} (Unnamed nick) (u.number == n) (λ e. exit_user-Held nick n us r)
      (λ e. (other e, exit_user-Held nick n us r))
  where
    other : (u.number == n) ≡ false → names_equal nick u.name ≡ false
    other e = elim (Bool-cases (names_equal nick u.name)) [
      | inl k ↦ absurd (true≢false (sym (h k) ∙ e))
      | inr k ↦ k
    ]

pub Unnamed-Held : (nick : Bytes) (n : ℕ) (us : List User) → Unnamed nick us → Held nick n us
Unnamed-Held nick n us h = map-AllUsers _ _ us (λ u e k. absurd (true≢false (sym k ∙ e))) h

Unique-names : (us : List User) → Unique us → AllUsers (λ v. NoNul v.name) us
Unique-names [] h = tt
Unique-names (u ∷ us) (z, a, b, r) = (z, Unique-names us r)

-- What a search for a nick says of it.
abbrev pub Found : Bytes → List User → Option User → Type 0
Found nick us none = Unnamed nick us
Found nick us (some t) = Held nick t.number us

pub find_nick-Found :
    (nick : Bytes) (us : List User) → NoNul nick → Unique us → Found nick us (find_nick nick us)
unfolding find_nick
find_nick-Found nick [] z h = tt
find_nick-Found nick (u ∷ us) z (zu, a, b, r) = elim (Bool-cases (names_equal nick u.name)) [
  | inl e ↦ rw e ((λ k. ==_refl u.number), elsewhere e)
  | inr e ↦ rw e (later (find_nick nick us) e (find_nick-Found nick us z r))
]
  where
    later :
        (t : Option User)
        → names_equal nick u.name ≡ false
        → Found nick us t
        → Found nick (u ∷ us) t
    later none e f = (e, f)
    later (some t) e f = ((λ k. absurd (true≢false (sym k ∙ e))), f)

    elsewhere : names_equal nick u.name ≡ true → Held nick u.number us
    elsewhere e =
        both-AllUsers (λ v. NoNul v.name) (λ v. names_equal u.name v.name ≡ false) _ us
          (λ v zv n k. absurd (
            true≢false (
              sym (
                names_equal_trans u.name nick v.name zu z zv (names_equal_sym nick u.name z zu e) k)
              ∙ n)))
          (Unique-names us r) b

rename-none :
    (env : NickEnv) (i : Intro) (n : ℕ) (us : List User) → Unnumbered n us → rename env i n us ≡ us
unfolding rename
rename-none env i n [] h = refl
rename-none env i n (u ∷ us) (h, r) = rw h (ap (λ vs. u ∷ vs) (rename-none env i n us r))

rename-AllUsers :
    (P : User → Type 0) (env : NickEnv) (i : Intro) (n : ℕ) (us : List User)
    → ((u : User) → P u → P (renamed env i u))
    → AllUsers P us
    → AllUsers P (rename env i n us)
unfolding rename
rename-AllUsers P env i n [] f h = tt
rename-AllUsers P env i n (u ∷ us) f (h, r) =
    if-case {A = List User} (AllUsers P) (u.number == n)
      (λ e. (f u h, rename-AllUsers P env i n us f r)) (λ e. (h, rename-AllUsers P env i n us f r))

pub rename-Unique :
    (env : NickEnv) (i : Intro) (n : ℕ) (us : List User)
    → NoNul i.nick
    → Held i.nick n us
    → Unique us
    → Unique (rename env i n us)
unfolding rename renamed
rename-Unique env i n [] z k h = tt
rename-Unique env i n (u ∷ us) z (k, q) (zu, a, b, r) = elim (Bool-cases (u.number == n)) [
  | inl e ↦ rw e (rw (same e) (z, a, alone e, r))
  | inr e ↦ rw e (
    zu,
    rename-AllUsers _ env i n us (λ v h. h) a,
    rename-AllUsers _ env i n us (λ v h. names_equal_apart i.nick u.name z zu (free e)) b,
    rename-Unique env i n us z q r,
  )
]
  where
    to_n : (u.number == n) ≡ true → Unnumbered n us
    to_n e = subst (λ m. Unnumbered m us) ((==_iff u.number n).0 e) a

    same : (u.number == n) ≡ true → rename env i n us ≡ us
    same e = rename-none env i n us (to_n e)

    free : (u.number == n) ≡ false → names_equal i.nick u.name ≡ false
    free e = elim (Bool-cases (names_equal i.nick u.name)) [
      | inl g ↦ absurd (true≢false (sym (k g) ∙ e))
      | inr g ↦ g
    ]

    alone : (u.number == n) ≡ true → Unnamed i.nick us
    alone e =
        both-AllUsers (λ v. (v.number == n) ≡ false)
          (λ v. names_equal i.nick v.name ≡ true → (v.number == n) ≡ true) _ us
          (λ v m h. elim (Bool-cases (names_equal i.nick v.name)) [
            | inl g ↦ absurd (true≢false (sym (h g) ∙ m))
            | inr g ↦ g
          ])
          (to_n e) q
