-- ===== src/Nick/Handlers.antt =====
-- `ms_nick` and `ms_uid` of modules/core/m_nick.c. A message has the parameters behind the sender.
use unirc_ircd.Prelude.{
  ℕ, ◌-◌, Bool, true, false, ◌||◌, Option, none, some, List, [], ◌∷◌, if◌then◌else◌, take,
}
use unirc_ircd.Chars.{Bytes}
use unirc_ircd.Nick.{
  User, Source, from_server, from_client, NickEnv, Intro, find_nick, find_uid, exit_user,
  introduced, perform_nick_collides, check_clean_nick, userlen, hostlen, too_long_for, arrive,
}

-- The parameters behind the nick: as many as for an introduction, as for a change of a nick, or other.
pub data NickParams : Type 0 where
  introduces : (ts username host server realhost : Bytes) → NickParams
  changes : (ts : Bytes) → NickParams
  other_params : NickParams

unfoldable pub nick_params : List Bytes → NickParams
nick_params
      (hop
        ∷ (ts
            ∷ (umode
                ∷ (username
                    ∷ (host ∷ (server ∷ (stamp ∷ (realhost ∷ (vlink ∷ (gecos ∷ [])))))))))) =
    introduces ts username host server realhost
nick_params (ts ∷ []) = changes ts
nick_params _ = other_params

abbrev pub is_from_server : Source → Bool
is_from_server (from_server s direct) = true
is_from_server (from_client u) = false

abbrev pub server_of : Source → ℕ
server_of (from_server s direct) = s
server_of (from_client u) = u.server

-- `check_clean_user`, and `check_clean_host` of both host names.
abbrev pub lengths_fail : Bytes → Bytes → Bytes → Bool
lengths_fail username host realhost =
    too_long_for userlen username || (too_long_for hostlen host || too_long_for hostlen realhost)

abbrev pub from_known :
    NickEnv
    → Source
    → Bytes
    → Bytes
    → Bytes
    → Bytes
    → Bytes
    → Bytes
    → Option ℕ
    → List User
    → List User
from_known env src nick newnick ts username host realhost none us = us
from_known env src nick newnick ts username host realhost (some server) us =
    check_clean_nick env src nick newnick
      (λ vs.
        if lengths_fail username host realhost
        then vs
        else arrive env src true
            (record {
              nick = nick;
              ts = if is_from_server src then env.atol ts else 0;
              username = username;
              host = host;
              uid = none;
              server = server;
            })
            vs)
      us

abbrev pub bare : Source → Bytes → ℕ → Intro
bare src nick ts = record {
  nick = nick;
  ts = ts;
  username = [];
  host = [];
  uid = none;
  server = server_of src;
}

abbrev pub with_params : NickEnv → Source → Bytes → Bytes → NickParams → List User → List User
with_params env src nick newnick (introduces ts username host server realhost) us =
    from_known env src nick newnick ts username host realhost (env.find_server server) us
with_params env src nick newnick (changes ts) us =
    if is_from_server src
    then us
    else check_clean_nick env src nick newnick (arrive env src false (bare src nick (env.atol ts)))
        us
with_params env src nick newnick other_params us = arrive env src false (bare src nick 0) us

unfoldable pub ms_nick : NickEnv → Source → List Bytes → List User → List User
ms_nick env src ((c ∷ s) ∷ params) us =
    with_params env src (take (env.nicklen - 1) (c ∷ s)) (c ∷ s) (nick_params params) us
ms_nick env src _ us = us

-- `client_from_server`; of a client, what `register_remote_user` finds is the server of the client's name, and where
-- there is none the new client goes at once.
abbrev pub new_of : NickEnv → Intro → Option ℕ → List User → List User
new_of env i none us = us
new_of env i (some server) us = introduced env (record i { server = server }) ∷ us

abbrev pub client_from_server : NickEnv → Source → Intro → List User → List User
client_from_server env (from_server s direct) i us = introduced env i ∷ us
client_from_server env (from_client u) i us = new_of env i (env.find_server u.name) us

-- The end of `ms_uid`, for the client that has the nick; `takes` is `parc == 13`.
abbrev pub meet_nick : NickEnv → Source → Bool → Intro → List User → Option User → List User
meet_nick env src takes i us none = client_from_server env src i us
meet_nick env src takes i us (some t) =
    if t.unknown
    then client_from_server env src i (exit_user t.number us)
    else perform_nick_collides env src takes t i us

-- An ID that is taken: the client that has it goes, and the new one is not taken in.
unfoldable pub meet_uid : NickEnv → Source → Bool → Intro → Option User → List User → List User
meet_uid env src takes i (some t) us = exit_user t.number us
meet_uid env src takes i none us = meet_nick env src takes i us (find_nick i.nick us)

-- The parameters behind the nick of a UID, and whether there are no more.
pub data UidParams : Type 0 where
  uid_introduces : (exact : Bool) → (ts username host uid realhost : Bytes) → UidParams
  too_few_params : UidParams

abbrev pub no_more : List Bytes → Bool
no_more [] = true
no_more (p ∷ ps) = false

unfoldable pub uid_params : List Bytes → UidParams
uid_params
      (hop
        ∷ (ts
            ∷ (umode
                ∷ (username
                    ∷ (host ∷ (ip ∷ (uid ∷ (stamp ∷ (realhost ∷ (vlink ∷ (gecos ∷ rest))))))))))) =
    uid_introduces (no_more rest) ts username host uid realhost
uid_params _ = too_few_params

abbrev pub uid_intro : NickEnv → Source → Bytes → Bytes → Bytes → Bytes → Bytes → Intro
uid_intro env src nick ts username host uid = record {
  nick = nick;
  ts = env.atol ts;
  username = username;
  host = host;
  uid = some uid;
  server = server_of src;
}

-- With too few parameters the code reads behind them; nothing is said of what it does then.
abbrev pub from_uid : NickEnv → Source → Bytes → Bytes → UidParams → List User → Option (List User)
from_uid env src nick newnick too_few_params us = none
from_uid env src nick newnick (uid_introduces exact ts username host uid realhost) us = some (
    check_clean_nick env src nick newnick
      (λ vs.
        if lengths_fail username host realhost
        then vs
        else meet_uid env src exact (uid_intro env src nick ts username host uid) (find_uid uid vs)
            vs)
      us)

unfoldable pub ms_uid : NickEnv → Source → List Bytes → List User → Option (List User)
ms_uid env src ((c ∷ nick) ∷ params) us =
    from_uid env src (take (env.nicklen - 1) (c ∷ nick)) (c ∷ nick) (uid_params params) us
ms_uid env src _ us = some us

-- A message of either kind, with the nick and the parameters behind it.
pub data NickMessage : Type 0 where
  nick_message : Source → Bytes → List Bytes → NickMessage
  uid_message : Source → Bytes → List Bytes → NickMessage

abbrev pub nick_of : NickMessage → Bytes
nick_of (nick_message src nick params) = nick
nick_of (uid_message src nick params) = nick

abbrev pub received : NickEnv → NickMessage → List User → Option (List User)
received env (nick_message src nick params) us = some (ms_nick env src (nick ∷ params) us)
received env (uid_message src nick params) us = ms_uid env src (nick ∷ params) us
