-- ===== src/Receive/Flood.antt =====
-- The flood limit of `parse_client_queued` in src/packet.c.
use unirc_ircd.Prelude.{
  ℕ, zero, suc, ◌+◌, ◌-◌, ◌≤◌, ◌<◌, ◌≡◌, ◌⊎◌, inl, inr, false, ◌||◌, Option, none, some, arith,
  if◌then◌else◌, Bool-cases, ◌==◌, take, leb,
}
use unirc_ircd.Chars.{Bytes}
use unirc_ircd.Dbuf.Contents.{IsValid, contents}
use unirc_ircd.Packet.{Extracted}
use unirc_ircd.Packet.Lines.{next_line}
use unirc_ircd.Packet.Extract.{Extracts, extract_one_line-Extracts}
use unirc_ircd.Receive.{
  Receiver, stat_client, FloodConfig, limited, DoPacket, step_line, next_step, over_limit,
  after_step, client_loop, check_flood, by_status, parse_client_queued, flood_endgrace,
}

-- What is run on a line of a registered client may end its grace period where it is in it, and else
-- leaves the counters; the client stays registered, though it may become defunct, and its queue well formed.
abbrev pub SameCounters : Receiver → Receiver → Type 0
SameCounters s t =
    (t.sent_parsed ≡ s.sent_parsed) × (t.allow_read ≡ s.allow_read) × (t.flood_done ≡ s.flood_done)

abbrev pub IsTame : DoPacket → Type 0
IsTame dopacket =
    (line : Bytes) (s : Receiver)
    → s.status ≡ stat_client
    → IsValid s.buf_recvq
    → ((dopacket line s).status ≡ stat_client)
      × IsValid (dopacket line s).buf_recvq
      × (SameCounters s (dopacket line s)
          ⊎ ((s.flood_done ≡ false) × SameCounters (flood_endgrace s) (dopacket line s)))

-- How many lines may still be parsed in one call.
abbrev pub lines_left : Receiver → ℕ
lines_left s = (if s.flood_done then 0 else 6) + s.allow_read - s.sent_parsed

-- The call returned, with the client's counter within its limit.
abbrev pub KeepsLimit : Option Receiver → Type 0
KeepsLimit none = ⊥
KeepsLimit (some s) = IsValid s.buf_recvq × (s.sent_parsed ≤ s.allow_read)

module _ (dopacket : DoPacket) (tame : IsTame dopacket) (f : ℕ) (next : Receiver → Option Receiver)
    (ih : (s : Receiver)
      → s.status ≡ stat_client
      → IsValid s.buf_recvq
      → s.sent_parsed ≤ s.allow_read
      → lines_left s < f
      → KeepsLimit (next s)) where
  after_handled :
      (s t : Receiver)
      → s.sent_parsed < s.allow_read
      → lines_left s < suc f
      → t.status ≡ stat_client
      → IsValid t.buf_recvq
      → SameCounters s t ⊎ ((s.flood_done ≡ false) × SameCounters (flood_endgrace s) t)
      → KeepsLimit (next (record t { sent_parsed = t.sent_parsed + 1 }))
  unfolding flood_endgrace
  after_handled s t l m client v (inl (a, b, c)) =
      ih (record t { sent_parsed = t.sent_parsed + 1 }) client v (omega (arith, a, b, l))
        (ground (arith, a, b, c, l, m))
  after_handled s t l m client v (inr (g, (a, b, c))) =
      ih (record t { sent_parsed = t.sent_parsed + 1 }) client v (omega (arith, a, b))
        (ground (arith, a, b, c, g, l, m))

  after_extract :
      (s : Receiver) (o : Option Extracted)
      → s.status ≡ stat_client
      → s.sent_parsed < s.allow_read
      → lines_left s < suc f
      → Extracts o (next_line (contents s.buf_recvq))
      → KeepsLimit (after_step next (step_line dopacket s o))
  unfolding after_step step_line
  after_extract s none client l m e = e
  after_extract s (some x) client l m e =
      let left : Receiver = record s { buf_recvq = x.queue } in
      let t = tame (take x.value x.line) left client e.0 in
      elim (Bool-cases (x.value == 0)) [
        | inl z ↦ rw z (e.0, omega arith)
        | inr z ↦ rw z (after_handled left (dopacket (take x.value x.line) left) l m t.0 t.1 t.2)
      ]

client_loop-KeepsLimit :
    (dopacket : DoPacket) (f : ℕ) (s : Receiver)
    → IsTame dopacket
    → s.status ≡ stat_client
    → IsValid s.buf_recvq
    → s.sent_parsed ≤ s.allow_read
    → lines_left s < f
    → KeepsLimit (client_loop limited dopacket f s)
unfolding client_loop over_limit next_step
client_loop-KeepsLimit dopacket zero s tame client v l m = absurd (omega arith)
client_loop-KeepsLimit dopacket (suc f) s tame client v l m =
    elim (Bool-cases (s.is_defunct || leb s.allow_read s.sent_parsed)) [
      | inl e ↦ rw e (v, l)
      | inr e ↦ rw e (
          after_extract dopacket tame f (λ s'. client_loop limited dopacket f s')
            (λ t c w k n. client_loop-KeepsLimit dopacket f t tame c w k n) s _ client
            (ground (arith, e)) m (extract_one_line-Extracts s.buf_recvq v))
    ]

-- For a registered client with a well-formed queue and its counter within its limit, where operators
-- have no exemption, `parse_client_queued` meets no fault and returns, after at most `lines_left`
-- lines, with the counter within the limit again. It is asked of what is run on the lines of
-- registered clients that it leaves the client registered, its queue well formed and its counters
-- alone, except that it may end a grace period.
pub parse_client_queued-KeepsLimit :
    (conf : FloodConfig) (dopacket : DoPacket) (f : ℕ) (s : Receiver)
    → IsTame dopacket
    → IsValid s.buf_recvq
    → s.sent_parsed ≤ s.allow_read
    → s.status ≡ stat_client
    → conf.no_oper_flood ≡ false
    → lines_left s < f
    → KeepsLimit (parse_client_queued conf dopacket f s)
unfolding parse_client_queued by_status check_flood
parse_client_queued-KeepsLimit conf dopacket f s tame v l client off m =
    simp (client, off) (client_loop-KeepsLimit dopacket f s tame client v l m)
