-- ===== src/Parse.antt =====
-- src/parse.c, `parse` and what it calls: from a line to the handler of its command. What the functions
-- send, and the handlers that they run, are the result; the counters of `ServerStats` and of the
-- messages, and the tables that a search reorders, are the state.
mod Types
mod Numeric
pub mod Composed
pub mod Origin
mod Tests
pub use Types.*
use unirc_ircd.Prelude.{
  ℕ, zero, suc, ◌+◌, Bool, true, false, not, ◌&&◌, ◌||◌, Option, none, some, List, [], ◌∷◌, ◌++◌,
  ◌==◌, ltb, leb, if◌then◌else◌, length,
}
use unirc_ircd.Chars.{Bytes, is_digit}
use unirc_ircd.Args.{skip_spaces, split_space, string_to_array}
use unirc_ircd.MsgTree.{find_command}
use unirc_ircd.Receive.{
  Status, stat_connecting, stat_handshake, stat_server, stat_me, stat_unknown, stat_client,
}
use unirc_ircd.Hash.{first_is}
use unirc_ircd.Directory.{Peer, Directory, is_server, is_client, find_any}
use unirc_ircd.Parse.Numeric.{do_numeric}

-- `IsHandshake` or `IsConnecting`
abbrev pub is_early : Status → Bool
is_early stat_handshake = true
is_early stat_connecting = true
is_early _ = false

-- `handle_command`, for the message at `m`, the connection, the client that it is from, and the count
-- of parameters, that of `para[0]` included if there was a space behind the command.
pub handle_command : ℕ → ℕ → ℕ → ℕ → List Bytes → ParseState → Action × ParseState
handle_command m client from parc params s =
    let msg = s.message m in
    let me = s.dir.peer client in
    let counted = count_message s m (λ x. record x {
      rcount = if is_server me.status then x.rcount + 1 else x.rcount;
      count = x.count + 1;
    }) in
    if is_early me.status && not msg.for_unregistered
    then (nothing, counted)
    else if ltb parc msg.parameters
    then (if is_server me.status then drop_server else need_more_params, counted)
    else (run me.handler m from params, counted)

abbrev pub has_dot : Bytes → Bool
has_dot [] = false
has_dot (c ∷ s) = (c == b'.') || has_dot s

-- `remove_unknown`
pub remove_unknown : Bytes → Action
remove_unknown sender =
    if first_is is_digit sender && leb (length sender) 3 || has_dot sender
    then squit sender
    else kill sender

-- `cancel_clients`, which tells the operators.
pub cancel_clients : ℕ → Action
cancel_clients from = wrong_direction from

-- Three digits and a space: the numeric, and what is behind the space.
pub numeric_code : Bytes → Option (Bytes × Bytes)
numeric_code (a ∷ b ∷ c ∷ d ∷ rest) =
    if d == b' ' && is_digit a && is_digit b && is_digit c
    then some (a ∷ b ∷ c ∷ [], rest)
    else none
numeric_code _ = none

-- A command that is found, with what is behind its space, if there is one.
pub with_params : ℕ → ℕ → ℕ → Option Bytes → ParseState → Action × ParseState
with_params m client from none s = handle_command m client from 0 [] s
with_params m client from (some rest) s =
    let params = string_to_array rest in handle_command m client from (suc (length params)) params s

abbrev pub length_behind : Bytes → Option Bytes → ℕ
length_behind cmd none = length cmd
length_behind cmd (some rest) = length rest

pub word_command : ℕ → ℕ → Bytes × Option Bytes → ParseState → Action × ParseState
word_command client from (cmd, rest) s = elim (find_command s.tree cmd) [
  | none ↦ (
    if is_client (s.dir.peer from).status then unknown_command from cmd else nothing,
    record s { stats = record (s.stats) { is_unco = s.stats.is_unco + 1 } },
  )
  | some m ↦
      with_params m client from rest
        (count_message s m (λ x. record x { bytes = x.bytes + length_behind cmd rest }))
]

-- From the test for an empty line on.
pub parse_command : Bool → ℕ → ℕ → Bytes → ParseState → Action × ParseState
parse_command hide_servers client from [] s =
    (nothing, record s { stats = record (s.stats) { is_empt = s.stats.is_empt + 1 } })
parse_command hide_servers client from (c ∷ t) s = elim (numeric_code (c ∷ t)) [
  | some (numeric, rest) ↦
      do_numeric hide_servers numeric client from (string_to_array rest)
        (record s { stats = record (s.stats) { is_num = s.stats.is_num + 1 } })
  | none ↦ word_command client from (split_space (c ∷ t)) s
]

-- The hack for masked identifiers of servers.
abbrev pub masked_sid : Peer → Bytes → Bool
masked_sid peer sender =
    peer.cap_ts6
    && first_is (λ c. c == b'*') peer.name
    && first_is is_digit sender
    && length sender == 3

-- Whom the prefix of a server's line names.
pub find_origin : ℕ → Bytes → Directory → Option ℕ × Directory
find_origin client sender dir =
    let (found, dir') = find_any true sender dir in
    (
      elim found [
        | some a ↦ some a
        | none ↦ if masked_sid (dir.peer client) sender then some client else none
      ],
      dir',
    )

pub from_origin : Bool → ℕ → Bytes → Bytes → Option ℕ × Directory → ParseState → Action × ParseState
from_origin hide_servers client sender ch (none, dir') s = (
  remove_unknown sender,
  record s { dir = dir'; stats = record (s.stats) { is_unpf = s.stats.is_unpf + 1 } },
)
from_origin hide_servers client sender ch (some from, dir') s =
    if (dir'.peer from).from == client
    then parse_command hide_servers client from ch (record s { dir = dir' })
    else (
      cancel_clients from,
      record s { dir = dir'; stats = record (s.stats) { is_wrdi = s.stats.is_wrdi + 1 } },
    )

-- The text behind the prefix, which is the prefix itself where no space ends it.
abbrev pub behind_prefix : Bytes → Option Bytes → Bytes
behind_prefix t none = t
behind_prefix t (some rest) = rest

pub with_sender : Bool → ℕ → Bytes → Bytes × Option Bytes → ParseState → Action × ParseState
with_sender hide_servers client t (sender, rest) s =
    let ch = skip_spaces (behind_prefix t rest) in
    if not (length sender == 0) && is_server (s.dir.peer client).status
    then from_origin hide_servers client sender ch (find_origin client sender s.dir) s
    else parse_command hide_servers client client ch s

pub parse_prefix : Bool → ℕ → Bytes → ParseState → Action × ParseState
parse_prefix hide_servers client [] s = parse_command hide_servers client client [] s
parse_prefix hide_servers client (c ∷ t) s =
    if c == b':'
    then with_sender hide_servers client t (split_space t) s
    else parse_command hide_servers client client (c ∷ t) s

-- `parse`, with the connection as the number of its client.
pub parse : Bool → ℕ → Bytes → ParseState → Action × ParseState
parse hide_servers client line s =
    if (s.dir.peer client).is_defunct
    then (nothing, s)
    else parse_prefix hide_servers client (skip_spaces line) s
