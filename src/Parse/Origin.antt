-- ===== src/Parse/Origin.antt =====
-- For whom `parse` of src/parse.c runs a handler, and which.
use mathlib.Core.Path.{subst}
use unirc_ircd.Prelude.{
  ℕ, suc, ◌+◌, ◌≤◌, ◌≡◌, refl, sym, ◌∙◌, ap, ◌⊎◌, inl, inr, Bool, true, false, not, ◌&&◌, ◌||◌,
  Option, none, some, List, [], ◌∷◌, arith, ◌==◌, ltb, leb, ==_iff, length, Option-cases, if-case,
}
use unirc_ircd.Chars.{Bytes, is_digit}
use unirc_ircd.Args.{skip_spaces, split_space, string_to_array}
use unirc_ircd.MsgTree.{MessageTree, Message, find_command}
use unirc_ircd.Hash.{first_is}
use unirc_ircd.Directory.{Peer, Directory, is_server, is_client, find_any, find_any-peer}
use unirc_ircd.Parse.Types.{
  Action, nothing, squit, kill, wrong_direction, unknown_command, need_more_params, drop_server,
  run, bad_numeric, relay, relay_hidden, relay_channel, ParseState, count_message,
}
use unirc_ircd.Parse.Numeric.{do_numeric, do_numeric-RunsNone, RunsNone}
use unirc_ircd.Parse.{
  is_early, handle_command, numeric_code, with_params, word_command, parse_command, find_origin,
  from_origin, behind_prefix, length_behind, with_sender, parse_prefix, parse, remove_unknown,
  cancel_clients, has_dot,
}

-- The connection itself, or a client or server that a server's connection leads to.
abbrev pub MaySpeakFor : (ℕ → Peer) → ℕ → ℕ → Type 0
MaySpeakFor peer client from =
    (from ≡ client) ⊎ ((is_server (peer client).status ≡ true) × ((peer from).from ≡ client))

-- What holds when a handler is run for the message at `m`.
pub record RunsFor (tree : MessageTree) (message : ℕ → Message) (peer : ℕ → Peer)
    (client handler m from : ℕ) (params : List Bytes) : Type 0 where
  pub live : (peer client).is_defunct ≡ false
  pub origin : MaySpeakFor peer client from
  pub kind : handler ≡ (peer client).handler
  pub word : Bytes
  pub known : find_command tree word ≡ some m
  pub enough : (message m).parameters ≤ suc (length params)
  pub in_time : (is_early (peer client).status ≡ false) ⊎ ((message m).for_unregistered ≡ true)

abbrev pub RunsRightly : MessageTree → (ℕ → Message) → (ℕ → Peer) → ℕ → Action → Type 0
RunsRightly tree message peer client (run handler m from params) =
    RunsFor tree message peer client handler m from params
RunsRightly tree message peer client _ = Unit {0}

-- What `parse` keeps of the state.
record Same (tree : MessageTree) (message : ℕ → Message) (peer : ℕ → Peer) (tree' : MessageTree)
    (message' : ℕ → Message) (peer' : ℕ → Peer) : Type 0 where
  pub same_tree : tree' ≡ tree
  pub same_peer : peer' ≡ peer
  pub same_parameters : (a : ℕ) → (message' a).parameters ≡ (message a).parameters
  pub same_for : (a : ℕ) → (message' a).for_unregistered ≡ (message a).for_unregistered

abbrev Matches : MessageTree → (ℕ → Message) → (ℕ → Peer) → ParseState → Type 0
Matches tree message peer s = Same tree message peer s.tree s.message s.dir.peer

enough_params : (parc x y z : ℕ) → ltb parc x ≡ false → x ≡ y → parc ≤ z → y ≤ z
enough_params parc x y z f e l = ground arith

in_time_of : (a b c d : Bool) → (a && not b) ≡ false → a ≡ c → b ≡ d → (c ≡ false) ⊎ (d ≡ true)
in_time_of true true c d h e f = inr (sym f)
in_time_of true false c d h e f = ground arith
in_time_of false b c d h e f = inl (sym e)

and_right : (a b : Bool) → (a && b) ≡ true → b ≡ true
and_right a b h = ground arith

module _ (tree : MessageTree) (message : ℕ → Message) (peer : ℕ → Peer) (client : ℕ)
    (live : (peer client).is_defunct ≡ false) where
  abbrev Rightly : Action × ParseState → Type 0
  Rightly r = RunsRightly tree message peer client r.0

  handle_command-RunsRightly :
      (m from parc : ℕ) (params : List Bytes) (s : ParseState) (word : Bytes)
      → Matches tree message peer s
      → MaySpeakFor peer client from
      → find_command tree word ≡ some m
      → parc ≤ suc (length params)
      → Rightly (handle_command m client from parc params s)
  unfolding handle_command
  handle_command-RunsRightly m from parc params s word same o k l =
      if-case Rightly (is_early (s.dir.peer client).status && not (s.message m).for_unregistered)
        (λ e. tt)
        (λ e.
          if-case Rightly (ltb parc (s.message m).parameters)
            (λ f.
              if-case (RunsRightly tree message peer client) (is_server (s.dir.peer client).status)
                (λ g. tt) (λ g. tt))
            (λ f. record {
              live = live;
              origin = o;
              kind = ap (λ p. (p client).handler) same.same_peer;
              word = word;
              known = k;
              enough =
                  enough_params parc (s.message m).parameters (message m).parameters
                    (suc (length params)) f (same.same_parameters m) l;
              in_time =
                  in_time_of (is_early (s.dir.peer client).status) (s.message m).for_unregistered
                    (is_early (peer client).status) (message m).for_unregistered e
                    (ap (λ p. is_early (p client).status) same.same_peer) (same.same_for m);
            }))

  with_params-RunsRightly :
      (m from : ℕ) (rest : Option Bytes) (s : ParseState) (word : Bytes)
      → Matches tree message peer s
      → MaySpeakFor peer client from
      → find_command tree word ≡ some m
      → Rightly (with_params m client from rest s)
  unfolding with_params
  with_params-RunsRightly m from none s word same o k =
      handle_command-RunsRightly m from 0 [] s word same o k (omega arith)
  with_params-RunsRightly m from (some rest) s word same o k =
      handle_command-RunsRightly m from (suc (length (string_to_array rest))) (string_to_array rest)
        s word same o k (omega arith)

  -- The bytes that a command is charged with change nothing else of its message.
  bytes-Matches :
      (m n : ℕ) (s : ParseState)
      → Matches tree message peer s
      → Matches tree message peer (count_message s m (λ x. record x { bytes = x.bytes + n }))
  bytes-Matches m n s same = record {
    same_tree = same.same_tree;
    same_peer = same.same_peer;
    same_parameters = λ a.
        if-case {A = Message} (λ x. x.parameters ≡ (message a).parameters) (a == m)
          (λ e. same.same_parameters a) (λ e. same.same_parameters a);
    same_for = λ a.
        if-case {A = Message} (λ x. x.for_unregistered ≡ (message a).for_unregistered) (a == m)
          (λ e. same.same_for a) (λ e. same.same_for a);
  }

  word_command-RunsRightly :
      (from : ℕ) (cmd : Bytes) (rest : Option Bytes) (s : ParseState)
      → Matches tree message peer s
      → MaySpeakFor peer client from
      → Rightly (word_command client from (cmd, rest) s)
  unfolding word_command
  word_command-RunsRightly from cmd rest s same o = elim (Option-cases (find_command s.tree cmd)) [
    | inl e ↦
        rw (e, RunsRightly)
          (if-case (RunsRightly tree message peer client) (is_client (s.dir.peer from).status)
            (λ g. tt) (λ g. tt))
    | inr (m, e) ↦
        rw (e, RunsRightly)
          (with_params-RunsRightly m from rest _ cmd
            (bytes-Matches m (length_behind cmd rest) s same) o
            (subst (λ t. find_command t cmd ≡ some m) same.same_tree e))
  ]

  RunsNone-RunsRightly :
      (action : Action) → RunsNone action → RunsRightly tree message peer client action
  RunsNone-RunsRightly (run handler m from params) h = elim h [ ]
  RunsNone-RunsRightly nothing h = tt
  RunsNone-RunsRightly (squit a) h = tt
  RunsNone-RunsRightly (kill a) h = tt
  RunsNone-RunsRightly (wrong_direction a) h = tt
  RunsNone-RunsRightly (unknown_command a b) h = tt
  RunsNone-RunsRightly (need_more_params) h = tt
  RunsNone-RunsRightly (drop_server) h = tt
  RunsNone-RunsRightly (bad_numeric) h = tt
  RunsNone-RunsRightly (relay a b c) h = tt
  RunsNone-RunsRightly (relay_hidden a b c) h = tt
  RunsNone-RunsRightly (relay_channel a b c) h = tt

  parse_command-RunsRightly :
      (hide : Bool) (from : ℕ) (line : Bytes) (s : ParseState)
      → Matches tree message peer s
      → MaySpeakFor peer client from
      → Rightly (parse_command hide client from line s)
  unfolding parse_command
  parse_command-RunsRightly hide from [] s same o = tt
  parse_command-RunsRightly hide from (c ∷ t) s same o =
      elim (Option-cases (numeric_code (c ∷ t))) [
        | inl e ↦
            rw (e, RunsRightly)
              (word_command-RunsRightly from (split_space (c ∷ t)).0 (split_space (c ∷ t)).1 s same
                o)
        | inr (code, e) ↦
            rw (e, RunsRightly)
              (RunsNone-RunsRightly
                (do_numeric hide code.0 client from (string_to_array code.1) _).0
                (do_numeric-RunsNone hide code.0 client from (string_to_array code.1) _))
      ]

  from_origin-RunsRightly :
      (hide : Bool) (sender ch : Bytes) (found : Option ℕ) (dir : Directory) (s : ParseState)
      → Matches tree message peer s
      → dir.peer ≡ peer
      → is_server (peer client).status ≡ true
      → Rightly (from_origin hide client sender ch (found, dir) s)
  unfolding from_origin remove_unknown cancel_clients
  from_origin-RunsRightly hide sender ch none dir s same ep h =
      if-case (RunsRightly tree message peer client)
        (first_is is_digit sender && leb (length sender) 3 || has_dot sender) (λ e. tt) (λ e. tt)
  from_origin-RunsRightly hide sender ch (some from) dir s same ep h =
      if-case Rightly ((dir.peer from).from == client)
        (λ e.
          parse_command-RunsRightly hide from ch (record s { dir = dir })
            (record {
              same_tree = same.same_tree;
              same_peer = ep;
              same_parameters = same.same_parameters;
              same_for = same.same_for;
            })
            (inr (h, ap (λ p. (p from).from) (sym ep) ∙ (==_iff (dir.peer from).from client).0 e)))
        (λ e. tt)

  with_sender-RunsRightly :
      (hide : Bool) (t sender : Bytes) (rest : Option Bytes) (s : ParseState)
      → Matches tree message peer s
      → Rightly (with_sender hide client t (sender, rest) s)
  unfolding with_sender find_origin
  with_sender-RunsRightly hide t sender rest s same =
      if-case Rightly (not (length sender == 0) && is_server (s.dir.peer client).status)
        (λ e.
          from_origin-RunsRightly hide sender (skip_spaces (behind_prefix t rest)) _
            (find_any true sender s.dir).1 s same (find_any-peer true sender s.dir ∙ same.same_peer)
            (subst (λ p. is_server (p client).status ≡ true) same.same_peer
              (and_right (not (length sender == 0)) (is_server (s.dir.peer client).status) e)))
        (λ e.
          parse_command-RunsRightly hide client (skip_spaces (behind_prefix t rest)) s same
            (inl refl))

  parse_prefix-RunsRightly :
      (hide : Bool) (line : Bytes) (s : ParseState)
      → Matches tree message peer s
      → Rightly (parse_prefix hide client line s)
  unfolding parse_prefix
  parse_prefix-RunsRightly hide [] s same =
      parse_command-RunsRightly hide client [] s same (inl refl)
  parse_prefix-RunsRightly hide (c ∷ t) s same =
      if-case Rightly (c == b':')
        (λ e. with_sender-RunsRightly hide t (split_space t).0 (split_space t).1 s same)
        (λ e. parse_command-RunsRightly hide client (c ∷ t) s same (inl refl))

-- Where `parse` runs a handler for a line of a connection, the client that it is run for is the
-- connection's own, or, where the connection is a server's, one that this connection leads to; the
-- connection is not defunct, the handler is the one for its kind of client, the message is that
-- which the command table has for some word, it has the parameters that the message demands, and if the
-- connection is not ready yet the message is one for unregistered clients.
pub parse-RunsRightly :
    (hide_servers : Bool) (client : ℕ) (line : Bytes) (s : ParseState)
    → RunsRightly s.tree s.message s.dir.peer client (parse hide_servers client line s).0
unfolding parse
parse-RunsRightly hide_servers client line s =
    if-case {A = Action × ParseState} (λ r. RunsRightly s.tree s.message s.dir.peer client r.0)
      (s.dir.peer client).is_defunct (λ e. tt)
      (λ e.
        parse_prefix-RunsRightly s.tree s.message s.dir.peer client e hide_servers
          (skip_spaces line) s
          (record {
            same_tree = refl;
            same_peer = refl;
            same_parameters = λ a. refl;
            same_for = λ a. refl;
          }))
