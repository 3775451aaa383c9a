-- ===== src/Dbuf/Tests.antt =====
-- Queues of src/dbuf.c on concrete bytes.
use unirc_ircd.Prelude.{refl, [], ◌∷◌, ◌++◌, arith, drop, replicate}
use unirc_ircd.Dbuf.{DbufQueue, DbufBlock, dbuf_put, dbuf_delete, copy_to, dbuf_block_size}
use unirc_ircd.Dbuf.Contents.{contents, IsValid, BlockIsValid}
use unirc_ircd.Dbuf.Put.{Holds, dbuf_put-Holds}
use unirc_ircd.Dbuf.Delete.{dbuf_delete-Holds}

-- A block with two bytes in use.
abbrev block : DbufBlock
block = record { size = 2; array = copy_to (replicate dbuf_block_size 0) 0 (b'h' ∷ b'i' ∷ []) }

abbrev pub queue : DbufQueue
queue = record { blocks = block ∷ []; total_size = 2 }

block-BlockIsValid : BlockIsValid block
block-BlockIsValid = record { fits = omega arith; whole = refl }

pub queue-IsValid : IsValid queue
queue-IsValid = record {
  blocks_valid = (block-BlockIsValid, tt);
  counted = refl;
  in_range = omega arith;
}

dbuf_put-Holds_example : Holds (dbuf_put queue (b'!' ∷ [])) (contents queue ++ b'!' ∷ [])
dbuf_put-Holds_example = dbuf_put-Holds queue (b'!' ∷ []) queue-IsValid (omega arith)

dbuf_delete-Holds_example : Holds (dbuf_delete queue 1) (drop 1 (contents queue))
dbuf_delete-Holds_example = dbuf_delete-Holds queue 1 queue-IsValid (omega arith)
