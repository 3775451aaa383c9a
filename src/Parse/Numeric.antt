-- ===== src/Parse/Numeric.antt =====
-- `do_numeric` of src/parse.c.
use unirc_ircd.Prelude.{
  ℕ, inl, inr, Bool, false, not, ◌&&◌, Option, none, some, List, [], ◌∷◌, ◌++◌, ◌==◌, if◌then◌else◌,
  if-case, Option-cases,
}
use unirc_ircd.Chars.{Bytes}
use unirc_ircd.Directory.{Peer, Directory, is_server, is_me, is_client, find_any, channel_named}
use unirc_ircd.Parse.Types.{
  Action, nothing, run, bad_numeric, relay, relay_hidden, relay_channel, ParseState,
}

-- The text of a numeric: all but the first parameter and the last, and the last with a colon; where
-- there is one parameter, that is the last too.
pub numeric_tail : List Bytes → Bytes
numeric_tail [] = []
numeric_tail (p ∷ []) = b' ' ∷ b':' ∷ p
numeric_tail (p ∷ q ∷ ps) = b' ' ∷ p ++ numeric_tail (q ∷ ps)

pub numeric_text : Bytes → List Bytes → Bytes
numeric_text p [] = b' ' ∷ b':' ∷ p
numeric_text p (q ∷ ps) = numeric_tail (q ∷ ps)

abbrev pub remap : Bytes → Bytes
remap [] = []
remap (c ∷ s) = if c == b'0' then b'1' ∷ s else c ∷ s

-- Where a numeric goes, once its target is found; 401 is ERR_NOSUCHNICK, 501 ERR_UMODEUNKNOWNFLAG. The
-- numbers are compared as their three digits.
abbrev pub same_code : Bytes → ℕ → ℕ → ℕ → Bool
same_code (a ∷ b ∷ c ∷ []) x y z = a == x && b == y && c == z
same_code _ x y z = false

pub to_target : Bool → Bytes → ℕ → Bytes → ℕ → Peer → Action
to_target hide_servers numeric client text target peer =
    if is_me peer.status
    then if same_code numeric b'4' b'0' b'1' then nothing else bad_numeric
    else if peer.from == client
    then nothing
    else if same_code numeric b'5' b'0' b'1' && peer.my && is_client peer.status
    then nothing
    else if hide_servers && (peer.my && is_client peer.status) && not peer.is_oper
    then relay_hidden target numeric text
    else relay target numeric text

-- The end of `do_numeric`, for the target found or none.
pub send_numeric : Bool → Bytes → ℕ → Bytes → Bytes → Option ℕ → Directory → Action × Directory
send_numeric hide_servers numeric client text name (some a) dir =
    (to_target hide_servers numeric client text a (dir.peer a), dir)
send_numeric hide_servers numeric client text name none dir =
    let (channel, dir') = channel_named name dir in
    (elim channel [ none ↦ nothing | some ch ↦ relay_channel ch numeric text ], dir')

-- `do_numeric`; `hide_servers` is that of `ConfigServerHide`.
pub do_numeric : Bool → Bytes → ℕ → ℕ → List Bytes → ParseState → Action × ParseState
do_numeric hide_servers numeric client from [] s = (nothing, s)
do_numeric hide_servers numeric client from (p ∷ ps) s =
    let found = find_any (is_server (s.dir.peer client).status) p s.dir in
    let sent =
      send_numeric hide_servers (remap numeric) client (numeric_text p ps) p found.0 found.1 in
    if not (is_server (s.dir.peer from).status)
    then (nothing, s)
    else (sent.0, record s { dir = sent.1 })

-- No numeric runs a handler.
abbrev pub RunsNone : Action → Type 0
RunsNone (run handler m from params) = ⊥
RunsNone _ = Unit {0}

to_target-RunsNone :
    (hide_servers : Bool) (numeric : Bytes) (client : ℕ) (text : Bytes) (a : ℕ) (peer : Peer)
    → RunsNone (to_target hide_servers numeric client text a peer)
unfolding to_target
to_target-RunsNone hide_servers numeric client text a peer =
    if-case RunsNone (is_me peer.status)
      (λ e. if-case RunsNone (same_code numeric b'4' b'0' b'1') (λ h. tt) (λ h. tt))
      (λ e.
        if-case RunsNone (peer.from == client) (λ h. tt)
          (λ h.
            if-case RunsNone (same_code numeric b'5' b'0' b'1' && peer.my && is_client peer.status)
              (λ k. tt)
              (λ k.
                if-case RunsNone
                  (hide_servers && (peer.my && is_client peer.status) && not peer.is_oper) (λ l. tt)
                  (λ l. tt))))

send_numeric-RunsNone :
    (hide_servers : Bool) (numeric : Bytes) (client : ℕ) (text name : Bytes) (found : Option ℕ)
    (dir : Directory)
    → RunsNone (send_numeric hide_servers numeric client text name found dir).0
unfolding send_numeric
send_numeric-RunsNone hide_servers numeric client text name (some a) dir =
    to_target-RunsNone hide_servers numeric client text a (dir.peer a)
send_numeric-RunsNone hide_servers numeric client text name none dir =
    elim (Option-cases (channel_named name dir).0) [
      | inl e ↦ rw (e, RunsNone) tt
      | inr (ch, e) ↦ rw (e, RunsNone) tt
    ]

pub do_numeric-RunsNone :
    (hide_servers : Bool) (numeric : Bytes) (client from : ℕ) (params : List Bytes) (s : ParseState)
    → RunsNone (do_numeric hide_servers numeric client from params s).0
unfolding do_numeric
do_numeric-RunsNone hide_servers numeric client from [] s = tt
do_numeric-RunsNone hide_servers numeric client from (p ∷ ps) s =
    if-case {A = Action × ParseState} (λ r. RunsNone r.0) (not (is_server (s.dir.peer from).status))
      (λ e. tt)
      (λ e.
        send_numeric-RunsNone hide_servers (remap numeric) client (numeric_text p ps) p
          (find_any (is_server (s.dir.peer client).status) p s.dir).0
          (find_any (is_server (s.dir.peer client).status) p s.dir).1)
