-- ===== src/Packet.antt =====
-- src/packet.c, `extract_one_line`: one line out of the receive queue of src/dbuf.c.
pub mod Lines
mod Phases
pub mod Extract
mod Tests
use unirc_ircd.Prelude.{
  ℕ, zero, suc, ◌+◌, Bool, true, false, not, ◌&&◌, ◌||◌, Option, none, some, List, [], ◌∷◌, ◌++◌,
  ◌==◌, ltb, if◌then◌else◌, length, take,
}
use unirc_ircd.Chars.{Bytes, is_eol}
use unirc_ircd.Dbuf.{DbufBlock, DbufQueue, dbuf_delete}

abbrev pub ircd_bufsize : ℕ
ircd_bufsize = 512

-- The variable `phase`: before the line, in the line, behind it.
pub data Phase : Type 0 where
  before : Phase
  inside : Phase
  behind : Phase

-- `line_bytes`, `empty_bytes`, `phase`, and what has been written to `buffer`.
pub record Scan : Type 0 where
  pub line_bytes : ℕ
  pub empty_bytes : ℕ
  pub phase : Phase
  pub buffer : Bytes

-- A scan goes on, or has met the first byte behind a line and the empty bytes after it.
pub data Progress : Type 0 where
  going : Scan → Progress
  found : Scan → Progress

-- `if(line_bytes++ < IRCD_BUFSIZE - 2) *buffer++ = c;`
pub copy_byte : ℕ → Scan → Scan
copy_byte c s = record {
  line_bytes = s.line_bytes + 1;
  empty_bytes = s.empty_bytes;
  phase = inside;
  buffer = if ltb s.line_bytes 510 then s.buffer ++ c ∷ [] else s.buffer;
}

pub skip_byte : Phase → Scan → Scan
skip_byte p s = record {
  line_bytes = s.line_bytes;
  empty_bytes = s.empty_bytes + 1;
  phase = p;
  buffer = s.buffer;
}

-- The body of the inner loop, by the phase.
pub scan_byte : Phase → ℕ → Scan → Progress
scan_byte before c s =
    if is_eol c || c == 32 then going (skip_byte before s) else going (copy_byte c s)
scan_byte inside c s = if is_eol c then going (skip_byte behind s) else going (copy_byte c s)
scan_byte behind c s = if is_eol c || c == 32 then going (skip_byte behind s) else found s

pub scan_bytes : Bytes → Scan → Progress
scan_bytes [] s = going s
scan_bytes (c ∷ bytes) s = elim (scan_byte s.phase c s) [
  | going s' ↦ scan_bytes bytes s'
  | found s' ↦ found s'
]

-- The outer loop, over the blocks.
pub scan_blocks : List DbufBlock → Scan → Progress
scan_blocks [] s = going s
scan_blocks (b ∷ bs) s = elim (scan_bytes (take b.size b.array) s) [
  | going s' ↦ scan_blocks bs s'
  | found s' ↦ found s'
]

-- What the call leaves in `buffer`, NUL excluded, the value it returns, and the queue. Where it
-- returns 0 it has not ended the buffer.
pub record Extracted : Type 0 where
  pub line : Bytes
  pub value : ℕ
  pub queue : DbufQueue

abbrev pub ircd_min : ℕ → ℕ → ℕ
ircd_min a b = if ltb a b then a else b

pub return_line : DbufQueue → Scan → ℕ → Option Extracted
return_line q s line_bytes = elim (dbuf_delete q (line_bytes + s.empty_bytes)) [
  | none ↦ none
  | some q' ↦ some (record { line = s.buffer; value = ircd_min line_bytes 510; queue = q' })
]

-- `if(phase != 2) line_bytes = 0;`
pub full_line_bytes : Phase → Scan → ℕ
full_line_bytes behind s = s.line_bytes
full_line_bytes inside s = 0
full_line_bytes before s = 0

abbrev pub scan_start : Scan
scan_start = record { line_bytes = 0; empty_bytes = 0; phase = before; buffer = [] }

pub finish : DbufQueue → Progress → Option Extracted
finish q (found s) = return_line q s s.line_bytes
finish q (going s) = return_line q s (full_line_bytes s.phase s)

unfoldable pub extract_one_line : DbufQueue → Option Extracted
unfolding scan_blocks scan_bytes scan_byte copy_byte skip_byte finish return_line full_line_bytes
extract_one_line q = finish q (scan_blocks q.blocks scan_start)
