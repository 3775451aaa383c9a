-- ===== src/Packet/Tests.antt =====
-- `extract_one_line` of src/packet.c on a concrete queue.
use unirc_ircd.Prelude.{refl, [], ◌∷◌, arith, replicate}
use unirc_ircd.Dbuf.{DbufQueue, DbufBlock, copy_to, dbuf_block_size}
use unirc_ircd.Dbuf.Contents.{contents, IsValid, BlockIsValid}
use unirc_ircd.Packet.{extract_one_line}
use unirc_ircd.Packet.Lines.{next_line}
use unirc_ircd.Packet.Extract.{Extracts, extract_one_line-Extracts}

-- ` a`, a line end and the start of the next line
abbrev block : DbufBlock
block = record {
  size = 5;
  array = copy_to (replicate dbuf_block_size 0) 0 (32 ∷ b'a' ∷ 13 ∷ 10 ∷ b'b' ∷ []);
}

abbrev queue : DbufQueue
queue = record { blocks = block ∷ []; total_size = 5 }

block-BlockIsValid : BlockIsValid block
block-BlockIsValid = record { fits = omega arith; whole = refl }

queue-IsValid : IsValid queue
queue-IsValid = record {
  blocks_valid = (block-BlockIsValid, tt);
  counted = refl;
  in_range = omega arith;
}

extract_one_line-Extracts_example : Extracts (extract_one_line queue) (next_line (contents queue))
extract_one_line-Extracts_example = extract_one_line-Extracts queue queue-IsValid
