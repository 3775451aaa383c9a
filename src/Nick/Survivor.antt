-- ===== src/Nick/Survivor.antt =====
-- Two servers that link with one nick on both, by `perform_nick_collides` of modules/core/m_nick.c.
use mathlib.Core.Path.{subst}
use unirc_ircd.Prelude.{
  ap, ℕ, ◌≡◌, refl, sym, ◌∙◌, Bool, true, false, ◌&&◌, Option, none, some, List, [], ◌∷◌, arith,
  ◌==◌, if◌then◌else◌, Bool-cases, inl, inr,
}
use unirc_ircd.Chars.{Bytes}
use unirc_ircd.Match.Case.{NoNul}
use unirc_ircd.Hash.{names_equal}
use unirc_ircd.Hash.Names.{names_equal_same, names_equal_sym, names_equal_apart}
use unirc_ircd.Nick.{
  User, from_server, NickEnv, Intro, find_nick, exit_user, introduced, Collision, both_killed,
  new_ignored, old_killed, collide, perform_nick_collides, meet, arrive, after_server, same_user,
}
use unirc_ircd.Nick.Names.{Held, Unique, Unnamed, Found, find_nick-Found, exit_user-Held}

-- NICK for a client, which a server sends when it links.
abbrev pub intro_of : ℕ → User → Intro
intro_of server u = record {
  nick = u.name;
  ts = u.tsinfo;
  username = u.username;
  host = u.host;
  uid = none;
  server = server;
}

-- Who has a nick, as every server knows it.
abbrev pub known_as : User → Bytes × Bytes × Bytes × ℕ
known_as u = (u.name, u.username, u.host, u.tsinfo)

abbrev pub known : Option User → Option (Bytes × Bytes × Bytes × ℕ)
known none = none
known (some u) = some (known_as u)

abbrev pub who_has : Bytes → List User → Option (Bytes × Bytes × Bytes × ℕ)
who_has nick us = known (find_nick nick us)

abbrev pub Spelled : User → Type 0
Spelled u = NoNul u.name × NoNul u.username × NoNul u.host

abbrev outcome : Collision → User → User → Option (Bytes × Bytes × Bytes × ℕ)
outcome both_killed t w = none
outcome new_ignored t w = some (known_as t)
outcome old_killed t w = some (known_as w)

abbrev mirrored : Collision → Collision
mirrored both_killed = both_killed
mirrored new_ignored = old_killed
mirrored old_killed = new_ignored

-- The two servers judge alike.
collide-mirrored : (m n : ℕ) (b : Bool) → collide n m b ≡ mirrored (collide m n b)
unfolding collide
collide-mirrored m n b = ground arith

outcome-mirrored : (c : Collision) (t w : User) → outcome c t w ≡ outcome (mirrored c) w t
outcome-mirrored both_killed t w = refl
outcome-mirrored new_ignored t w = refl
outcome-mirrored old_killed t w = refl

collide-timed : (m n : ℕ) (b : Bool) → collide m n b ≡ old_killed → (m == 0) ≡ false
unfolding collide
collide-timed m n b e = ground (arith, e)

find_nick-none : (nick : Bytes) (us : List User) → Unnamed nick us → find_nick nick us ≡ none
unfolding find_nick
find_nick-none nick [] h = refl
find_nick-none nick (u ∷ us) (h, r) = rw h (find_nick-none nick us r)

same_user_sym :
    (t w : User)
    → Spelled t
    → Spelled w
    → same_user t w.username w.host ≡ same_user w t.username t.host
same_user_sym t w (zt, ut, ht) (zw, uw, hw) =
    ap (λ b. b && names_equal t.host w.host) (equal_sym t.username w.username ut uw)
    ∙ ap (λ b. names_equal w.username t.username && b) (equal_sym t.host w.host ht hw)
  where
    equal_sym : (a b : Bytes) → NoNul a → NoNul b → names_equal a b ≡ names_equal b a
    equal_sym a b za zb = elim (Bool-cases (names_equal a b)) [
      | inl e ↦ e ∙ sym (names_equal_sym a b za zb e)
      | inr e ↦ e ∙ sym (names_equal_apart a b za zb e)
    ]

introduced-found :
    (env : NickEnv) (server : ℕ) (us : List User) (w : User)
    → NoNul w.name
    → (w.tsinfo == 0) ≡ false
    → who_has w.name (introduced env (intro_of server w) ∷ us) ≡ some (known_as w)
unfolding find_nick introduced
introduced-found env server us w z h =
    rw (names_equal_same w.name z)
      (ap (λ b. some (w.name, w.username, w.host, if b then env.current_time else w.tsinfo)) h)

-- One server, whose client `t` has the nick of `w`.
arrive-outcome :
    (env : NickEnv) (s server : ℕ) (direct : Bool) (us : List User) (t w : User)
    → NoNul w.name
    → Unique us
    → t.unknown ≡ false
    → find_nick w.name us ≡ some t
    → who_has w.name (arrive env (from_server s direct) true (intro_of server w) us)
      ≡ outcome (collide w.tsinfo t.tsinfo (same_user t w.username w.host)) t w
unfolding meet perform_nick_collides
arrive-outcome env s server direct us t w z r k e =
    ap (λ f. who_has w.name (meet env (from_server s direct) true (intro_of server w) us f)) e
    ∙ simp k (judged (collide w.tsinfo t.tsinfo (same_user t w.username w.host)) refl)
  where
    held : Held w.name t.number us
    held = subst (Found w.name us) e (find_nick-Found w.name us z r)

    judged :
        (c : Collision)
        → collide w.tsinfo t.tsinfo (same_user t w.username w.host) ≡ c
        → who_has w.name (after_server env (from_server s direct) true t (intro_of server w) c us)
          ≡ outcome c t w
    judged both_killed h =
        ap known
          (find_nick-none w.name (exit_user t.number us) (exit_user-Held w.name t.number us held))
    judged new_ignored h = ap known e
    judged old_killed h =
        introduced-found env server (exit_user t.number us) w z
          (collide-timed w.tsinfo t.tsinfo _ h)

-- Two servers link, and each has a registered client with the nick that the other has, in any case. On neither do two
-- clients have one nick, and names are C strings. When each has taken in the other's NICK, both say the same of the
-- nick: one of the clients has it on both servers, with its user name, host and timestamp, or nobody has it on either.
pub arrive-agrees :
    (env_u env_v : NickEnv) (server_u server_v : ℕ) (direct_u direct_v : Bool) (us vs : List User)
    (u v : User)
    → Spelled u
    → Spelled v
    → Unique us
    → Unique vs
    → u.unknown ≡ false
    → v.unknown ≡ false
    → find_nick v.name us ≡ some u
    → find_nick u.name vs ≡ some v
    → who_has v.name (arrive env_u (from_server server_v direct_v) true (intro_of server_v v) us)
      ≡ who_has u.name (arrive env_v (from_server server_u direct_u) true (intro_of server_u u) vs)
arrive-agrees env_u env_v server_u server_v direct_u direct_v us vs u v zu zv ru rv ku kv fu fv =
    arrive-outcome env_u server_v server_v direct_v us u v zv.0 ru ku fu
    ∙ outcome-mirrored (collide v.tsinfo u.tsinfo (same_user u v.username v.host)) u v
    ∙ ap (λ c. outcome c v u)
        (sym (collide-mirrored v.tsinfo u.tsinfo (same_user u v.username v.host))
          ∙ ap (collide u.tsinfo v.tsinfo) (same_user_sym u v zu zv))
    ∙ sym (arrive-outcome env_v server_u server_u direct_u vs v u zu.0 rv kv fv)
