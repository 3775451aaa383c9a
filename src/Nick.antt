-- ===== src/Nick.antt =====
-- NICK and UID between servers, of modules/core/m_nick.c: `ms_nick`, `ms_uid`, the tests of names and
-- `perform_nick_collides`, as to who has which name. User modes, hop counts, services' stamps, the lists of accepts and
-- what is sent are left out.
pub mod Handlers
pub mod Names
pub mod Unique
pub mod Survivor
mod Tests
use unirc_ircd.Prelude.{
  ℕ, ◌-◌, Bool, true, false, not, ◌&&◌, ◌||◌, Option, none, some, List, [], ◌∷◌, ◌==◌, ltb,
  if◌then◌else◌, length, take,
}
use unirc_ircd.Chars.{all_chars, Bytes, is_nick_char, is_digit}
use unirc_ircd.Hash.{names_equal}
use unirc_ircd.Sjoin.Final.{differs}

-- A client; `server` is the number of its server, `unknown` is `IsUnknown`, of a connection that is not registered.
pub record User : Type 0 where
  pub number : ℕ
  pub server : ℕ
  pub name : Bytes
  pub username : Bytes
  pub host : Bytes
  pub id : Bytes
  pub tsinfo : ℕ
  pub unknown : Bool

-- `source_p`: a server, with `source_p == client_p`, or a client.
pub data Source : Type 0 where
  from_server : ℕ → Bool → Source
  from_client : User → Source

-- `fresh` is the block for a new client; server `t` is lost with `s` by `behind s t`; `find_server` of src/hash.c;
-- `atol` of the C library, of a text that is no negative number.
pub record NickEnv : Type 0 where
  pub fresh : ℕ
  pub current_time : ℕ
  pub nicklen : ℕ
  pub behind : ℕ → ℕ → Bool
  pub find_server : Bytes → Option ℕ
  pub atol : Bytes → ℕ

-- What a message says of the nick; `uid` is NULL for NICK.
pub record Intro : Type 0 where
  pub nick : Bytes
  pub ts : ℕ
  pub username : Bytes
  pub host : Bytes
  pub uid : Option Bytes
  pub server : ℕ

-- `find_client` and `hash_find_id`, as a search among all.
unfoldable pub find_nick : Bytes → List User → Option User
find_nick nick [] = none
find_nick nick (u ∷ us) =
    let rest = find_nick nick us in if names_equal nick u.name then some u else rest

unfoldable pub find_uid : Bytes → List User → Option User
find_uid id [] = none
find_uid id (u ∷ us) = let rest = find_uid id us in if names_equal id u.id then some u else rest

unfoldable pub drop_users : (User → Bool) → List User → List User
drop_users p [] = []
drop_users p (u ∷ us) = let rest = drop_users p us in if p u then rest else u ∷ rest

-- `exit_client` of a client, and of a server.
abbrev pub exit_user : ℕ → List User → List User
exit_user n us = drop_users (λ u. u.number == n) us

abbrev pub exit_server : (ℕ → Bool) → List User → List User
exit_server lost us = drop_users (λ u. lost u.server) us

unfoldable pub clean_nick_name : Bytes → Bool → Bool
clean_nick_name [] local = false
clean_nick_name (c ∷ s) local =
    not (c == b'-' || (is_digit c && local)) && all_chars is_nick_char (c ∷ s)

-- `source_p != client_p` with a bad nick: the source is killed.
abbrev pub kill_source : NickEnv → Source → List User → List User
kill_source env (from_server s true) us = us
kill_source env (from_server s false) us = exit_server (env.behind s) us
kill_source env (from_client u) us = exit_user u.number us

-- `check_clean_nick`, with what follows where it is 0.
unfoldable pub check_clean_nick :
    NickEnv → Source → Bytes → Bytes → (List User → List User) → List User → List User
check_clean_nick env src nick newnick go us =
    if not (clean_nick_name nick false) || differs nick newnick
    then kill_source env src us
    else go us

abbrev pub userlen : ℕ
userlen = 10

abbrev pub hostlen : ℕ
hostlen = 63

-- What `check_clean_user` and `check_clean_host` refuse; of bad letters they only tell.
unfoldable pub too_long_for : ℕ → Bytes → Bool
too_long_for most s = ltb most (length s)

-- `nick_from_server` of a server, and `client_from_server`.
abbrev pub start_ts : NickEnv → Option Bytes → ℕ → ℕ
start_ts env none ts = if ts == 0 then env.current_time else ts
start_ts env (some id) ts = ts

abbrev pub id_of : Option Bytes → Bytes
id_of none = []
id_of (some id) = id

unfoldable pub introduced : NickEnv → Intro → User
introduced env i = record {
  number = env.fresh;
  server = i.server;
  name = i.nick;
  username = i.username;
  host = i.host;
  id = id_of i.uid;
  tsinfo = start_ts env i.uid i.ts;
  unknown = false;
}

-- `nick_from_server` of a client.
unfoldable pub renamed : NickEnv → Intro → User → User
renamed env i u = record u {
  name = i.nick;
  tsinfo =
      if names_equal u.name i.nick then u.tsinfo else if i.ts == 0 then env.current_time else i.ts;
}

unfoldable pub rename : NickEnv → Intro → ℕ → List User → List User
rename env i n [] = []
rename env i n (u ∷ us) =
    let rest = rename env i n us in if u.number == n then renamed env i u ∷ rest else u ∷ rest

abbrev pub take_over : NickEnv → Source → Intro → List User → List User
take_over env (from_server s direct) i us = introduced env i ∷ us
take_over env (from_client u) i us = rename env i u.number us

-- Who goes.
pub data Collision : Type 0 where
  both_killed new_ignored old_killed : Collision

unfoldable pub collide : ℕ → ℕ → Bool → Collision
collide newts tsinfo sameuser =
    if newts == 0 || (tsinfo == 0 || newts == tsinfo)
    then both_killed
    else if (sameuser && ltb newts tsinfo) || (not sameuser && ltb tsinfo newts)
    then new_ignored
    else old_killed

abbrev pub same_user : User → Bytes → Bytes → Bool
same_user t username host = names_equal t.username username && names_equal t.host host

-- `takes` is that there are as many parameters as for an introduction: `parc == 12` of a NICK, `parc == 13` of a UID.
abbrev pub after_server : NickEnv → Source → Bool → User → Intro → Collision → List User → List User
after_server env src takes t i both_killed us = exit_user t.number us
after_server env src takes t i new_ignored us = us
after_server env src takes t i old_killed us =
    let left = exit_user t.number us in if takes then take_over env src i left else left

abbrev pub after_client : NickEnv → Source → User → User → Intro → Collision → List User → List User
after_client env src u t i both_killed us = exit_user u.number (exit_user t.number us)
after_client env src u t i new_ignored us = exit_user u.number us
after_client env src u t i old_killed us = take_over env src i (exit_user t.number us)

unfoldable pub perform_nick_collides :
    NickEnv → Source → Bool → User → Intro → List User → List User
perform_nick_collides env (from_server s direct) takes t i us =
    after_server env (from_server s direct) takes t i
      (collide i.ts t.tsinfo (same_user t i.username i.host)) us
perform_nick_collides env (from_client u) takes t i us =
    after_client env (from_client u) u t i (collide i.ts t.tsinfo (same_user t u.username u.host))
      us

abbrev pub is_source : Source → User → Bool
is_source (from_server s direct) t = false
is_source (from_client u) t = t.number == u.number

-- The end of `ms_nick` and of `ms_uid`, for the client that has the nick.
unfoldable pub meet : NickEnv → Source → Bool → Intro → List User → Option User → List User
meet env src takes i us none = take_over env src i us
meet env src takes i us (some t) =
    if t.unknown
    then take_over env src i (exit_user t.number us)
    else if is_source src t
    then if differs t.name i.nick then take_over env src i us else us
    else perform_nick_collides env src takes t i us

abbrev pub arrive : NickEnv → Source → Bool → Intro → List User → List User
arrive env src takes i us = meet env src takes i us (find_nick i.nick us)
