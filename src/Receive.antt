-- ===== src/Receive.antt =====
-- src/packet.c, `parse_client_queued` and the flood counters. `client_dopacket` is given: it has the
-- line, and the client's state before and after it.
pub mod Flood
mod Tests
use unirc_ircd.Prelude.{
  ℕ, zero, suc, ◌+◌, ◌-◌, ◌*◌, Bool, true, false, ◌&&◌, ◌||◌, Option, none, some, ◌==◌, ltb, leb,
  if◌then◌else◌, take,
}
use unirc_ircd.Chars.{Bytes}
use unirc_ircd.Dbuf.{DbufQueue}
use unirc_ircd.Packet.{Extracted, extract_one_line}

abbrev pub max_flood : ℕ
max_flood = 5

pub data Status : Type 0 where
  stat_connecting : Status
  stat_handshake : Status
  stat_me : Status
  stat_unknown : Status
  stat_server : Status
  stat_client : Status

-- What `parse_client_queued` reads of a client.
pub record Receiver : Type 0 where
  pub buf_recvq : DbufQueue
  pub status : Status
  pub is_defunct : Bool
  pub is_oper : Bool
  pub can_flood : Bool
  pub flood_done : Bool
  pub sent_parsed : ℕ
  pub allow_read : ℕ

pub record FloodConfig : Type 0 where
  pub no_oper_flood : Bool
  pub true_no_oper_flood : Bool

-- `checkflood`: 1, 0 and -1.
pub data FloodCheck : Type 0 where
  limited : FloodCheck
  four_times : FloodCheck
  unlimited : FloodCheck

-- A line extracted and handled, or none there, or a fault of the queue.
pub data Step : Type 0 where
  queue_fault : Step
  no_line : Receiver → Step
  handled : Receiver → Step

abbrev pub DoPacket : Type 0
DoPacket = Bytes → Receiver → Receiver

pub step_line : DoPacket → Receiver → Option Extracted → Step
step_line dopacket s none = queue_fault
step_line dopacket s (some x) =
    let left : Receiver = record s { buf_recvq = x.queue } in
    if x.value == 0 then no_line left else handled (dopacket (take x.value x.line) left)

pub next_step : DoPacket → Receiver → Step
next_step dopacket s = step_line dopacket s (extract_one_line s.buf_recvq)

abbrev pub is_unknown : Status → Bool
is_unknown stat_unknown = true
is_unknown _ = false

-- The loop for unknown clients, with `MAX_FLOOD - i`; true is a return from the function. `none` is a
-- fault of the queue.
pub unknown_loop : DoPacket → ℕ → Receiver → Option (Bool × Receiver)
unknown_loop dopacket zero s = some (s.is_defunct, s)
unknown_loop dopacket (suc n) s =
    if s.is_defunct then some (true, s) else elim (next_step dopacket s) [
      | queue_fault ↦ none
      | no_line s' ↦ some (false, s')
      | handled s' ↦
          let rest = unknown_loop dopacket n s' in
          if is_unknown s'.status then rest else some (false, s')
    ]

-- The loop for servers: `none` is a fault of the queue or no fuel.
pub server_loop : DoPacket → ℕ → Receiver → Option Receiver
server_loop dopacket zero s = none
server_loop dopacket (suc f) s = if s.is_defunct then some s else elim (next_step dopacket s) [
  | queue_fault ↦ none
  | no_line s' ↦ some s'
  | handled s' ↦ server_loop dopacket f s'
]

pub over_limit : FloodCheck → Receiver → Bool
over_limit limited s = leb s.allow_read s.sent_parsed
over_limit four_times s = leb (4 * s.allow_read) s.sent_parsed
over_limit unlimited s = false

-- What follows a step of the loop for clients.
pub after_step : (Receiver → Option Receiver) → Step → Option Receiver
after_step next queue_fault = none
after_step next (no_line s') = some s'
after_step next (handled s') = next (record s' { sent_parsed = s'.sent_parsed + 1 })

pub client_loop : FloodCheck → DoPacket → ℕ → Receiver → Option Receiver
client_loop check dopacket zero s = none
client_loop check dopacket (suc f) s =
    let rest = after_step (λ s'. client_loop check dopacket f s') (next_step dopacket s) in
    if s.is_defunct || over_limit check s then some s else rest

pub check_flood : FloodConfig → Receiver → FloodCheck
check_flood conf s =
    if conf.no_oper_flood && (s.is_oper || s.can_flood)
    then if conf.true_no_oper_flood then unlimited else four_times
    else limited

-- What follows the loop for unknown clients.
pub by_status : FloodConfig → DoPacket → ℕ → Receiver → Status → Option Receiver
by_status conf dopacket fuel s stat_server = server_loop dopacket fuel s
by_status conf dopacket fuel s stat_connecting = server_loop dopacket fuel s
by_status conf dopacket fuel s stat_handshake = server_loop dopacket fuel s
by_status conf dopacket fuel s stat_client = client_loop (check_flood conf s) dopacket fuel s
by_status conf dopacket fuel s stat_unknown = some s
by_status conf dopacket fuel s stat_me = some s

pub parse_client_queued : FloodConfig → DoPacket → ℕ → Receiver → Option Receiver
parse_client_queued conf dopacket fuel s =
    if is_unknown s.status
    then elim (unknown_loop dopacket max_flood s) [
      | none ↦ none
      | some (returned, s') ↦
          if returned then some s' else by_status conf dopacket fuel s' s'.status
    ]
    else by_status conf dopacket fuel s s.status

pub flood_endgrace : Receiver → Receiver
flood_endgrace s = record s { flood_done = true; allow_read = max_flood; sent_parsed = 0 }

abbrev pub recalc : Receiver → Receiver
recalc s = record s {
  sent_parsed = if s.flood_done then if ltb s.sent_parsed 2 then 0 else s.sent_parsed - 2 else 0;
}

-- `flood_recalc`, without the timer that it sets again.
pub flood_recalc : FloodConfig → DoPacket → ℕ → Receiver → Option Receiver
flood_recalc conf dopacket fuel s = parse_client_queued conf dopacket fuel (recalc s)
