-- ===== src/Dbuf.antt =====
-- src/dbuf.c and include/dbuf.h: a queue of bytes in blocks of 1024. The list of blocks stands for the
-- doubly linked list of src/tools.c, and a new block is zeroed, as BlockHeapAlloc gives it.
pub mod Contents
pub mod Put
pub mod Delete
mod Tests
use unirc_ircd.Prelude.{
  ℕ, zero, suc, ◌+◌, ◌-◌, ◌%◌, ◌^◌, Option, none, some, List, [], ◌∷◌, ◌++◌, ◌==◌, ltb,
  if◌then◌else◌, length, take, drop, replicate,
}
use unirc_ircd.Chars.{Bytes}

abbrev pub dbuf_block_size : ℕ
dbuf_block_size = 1024

-- `size_t` has 64 bits.
abbrev pub size_mod : ℕ
size_mod = 2 ^ 64

abbrev pub add_size : ℕ → ℕ → ℕ
add_size a b = (a + b) % size_mod

abbrev pub sub_size : ℕ → ℕ → ℕ
sub_size a b = (a + size_mod - b) % size_mod

-- `data` is the whole array, of which the first `size` bytes are in use.
pub record DbufBlock : Type 0 where
  pub size : ℕ
  pub array : Bytes

pub record DbufQueue : Type 0 where
  pub blocks : List DbufBlock
  pub total_size : ℕ

abbrev pub new_block : DbufBlock
new_block = record { size = 0; array = replicate dbuf_block_size 0 }

-- `memcpy` of `bytes` to `off`.
abbrev pub copy_to : Bytes → ℕ → Bytes → Bytes
copy_to array off bytes = take off array ++ (bytes ++ drop (off + length bytes) array)

-- The `do` loop of `dbuf_put`, whose state is the blocks before the tail, the tail, the total and the
-- bytes left. `none` is out of fuel.
abbrev pub PutRound : Type 0
PutRound = List DbufBlock → DbufBlock → ℕ → Bytes → Option DbufQueue

-- A round from the computed room in the tail on: `next` is the next round.
pub fill_tail : PutRound → List DbufBlock → DbufBlock → ℕ → ℕ → Bytes → Option DbufQueue
fill_tail next front last room total bytes =
    let amount = if ltb room (length bytes) then room else length bytes in
    let filled : DbufBlock = record {
      size = last.size + amount;
      array = copy_to last.array last.size (take amount bytes);
    } in
    if length bytes - amount == 0
    then some (record { blocks = front ++ filled ∷ []; total_size = add_size total amount })
    else next front filled (add_size total amount) (drop amount bytes)

pub put_loop : ℕ → PutRound
put_loop zero front last total bytes = none
put_loop (suc f) front last total bytes =
    let room = dbuf_block_size - last.size in
    if room == 0
    then fill_tail (put_loop f) (front ++ last ∷ []) new_block dbuf_block_size total bytes
    else fill_tail (put_loop f) front last room total bytes

-- The blocks before the tail, and the tail.
pub split_tail : DbufBlock → List DbufBlock → List DbufBlock × DbufBlock
split_tail b [] = ([], b)
split_tail b (c ∷ bs) = let (front, last) = split_tail c bs in (b ∷ front, last)

pub put_blocks : List DbufBlock → ℕ → Bytes → Option DbufQueue
put_blocks [] total bytes = put_loop (suc (length bytes)) [] new_block total bytes
put_blocks (b ∷ bs) total bytes =
    let (front, last) = split_tail b bs in put_loop (suc (length bytes)) front last total bytes

unfoldable pub dbuf_put : DbufQueue → Bytes → Option DbufQueue
unfolding put_blocks split_tail put_loop fill_tail
dbuf_put q bytes = put_blocks q.blocks q.total_size bytes

-- The loop of `dbuf_delete` and what follows it; `none` is the read of a missing first block.
pub delete_loop : List DbufBlock → ℕ → ℕ → Option DbufQueue
delete_loop [] total count =
    if count == 0 then some (record { blocks = []; total_size = total }) else none
delete_loop (b ∷ bs) total count =
    let next = delete_loop bs (sub_size total b.size) (sub_size count b.size) in
    if count == 0
    then some (record { blocks = b ∷ bs; total_size = total })
    else if ltb count b.size
    then some (record {
      blocks =
          record {
            size = b.size - count;
            array = copy_to b.array 0 (take (b.size - count) (drop count b.array));
          }
          ∷ bs;
      total_size = sub_size total count;
    })
    else next

unfoldable pub dbuf_delete : DbufQueue → ℕ → Option DbufQueue
unfolding delete_loop
dbuf_delete q count = delete_loop q.blocks q.total_size count
