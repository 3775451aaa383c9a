-- ===== src/Dbuf/Put.antt =====
-- `dbuf_put` of src/dbuf.c appends its bytes.
use unirc_ircd.Prelude.{
  ℕ, zero, suc, ◌+◌, ◌-◌, ◌≤◌, ◌<◌, ◌≡◌, refl, ◌∙◌, ap, List, [], ◌∷◌, ◌++◌, arith, Option, some,
  none, length, take, drop, length-append, length-take, length-drop, append_assoc, append-nil, ltb,
  ◌==◌, ltb→lt, false, true, Bool-cases, inl, inr, take-append-drop,
}
use unirc_ircd.Chars.{Bytes}
use unirc_ircd.Dbuf.{
  DbufBlock, DbufQueue, size_mod, add_size, dbuf_block_size, copy_to, new_block, PutRound,
  fill_tail, put_loop, split_tail, put_blocks, dbuf_put,
}
use unirc_ircd.Dbuf.Contents.{
  used, contents_of, contents, BlockIsValid, BlocksAreValid, IsValid, used-copy_to,
  BlockIsValid-copy_to, new_block-BlockIsValid, contents_of-append, BlocksAreValid-append,
}

-- The queue with the given contents that a call has produced.
abbrev pub Holds : Option DbufQueue → Bytes → Type 0
Holds none bytes = ⊥
Holds (some q) bytes = IsValid q × (contents q ≡ bytes)

-- What one round keeps: the contents with the bytes still to copy.
record Filling (held : Bytes) (front : List DbufBlock) (last : DbufBlock) (total : ℕ)
    (bytes : Bytes) : Type 0 where
  front_valid : BlocksAreValid front
  last_valid : BlockIsValid last
  holds : (contents_of front ++ used last) ++ bytes ≡ held
  counted : total + length bytes ≡ length held
  in_range : length held < size_mod

module _ (held : Bytes) where
  -- A full tail makes room by a new block, which changes no contents.
  Filling-new_block :
      {front : List DbufBlock} {last : DbufBlock} {total : ℕ} {bytes : Bytes}
      → Filling held front last total bytes
      → Filling held (front ++ last ∷ []) new_block total bytes
  Filling-new_block {front} {last} {bytes} i = record {
    front_valid = BlocksAreValid-append front (last ∷ []) i.front_valid (i.last_valid, tt);
    last_valid = new_block-BlockIsValid;
    holds = simp (contents_of-append, append-nil) i.holds;
    counted = i.counted;
    in_range = i.in_range;
  }

  -- Copying as many bytes as fit.
  Filling-copy :
      {front : List DbufBlock} {last : DbufBlock} {total : ℕ} {bytes : Bytes} (amount : ℕ)
      → Filling held front last total bytes
      → amount ≤ length bytes
      → last.size + amount ≤ dbuf_block_size
      → Filling held front
          (record {
            size = last.size + amount;
            array = copy_to last.array last.size (take amount bytes);
          })
          (add_size total amount)
          (drop amount bytes)
  Filling-copy {front} {last} {total} {bytes} amount i ha hr =
      let n : length (take amount bytes) ≡ amount = omega (arith, length-take {0} amount bytes) in
      record {
        front_valid = i.front_valid;
        last_valid =
            BlockIsValid-copy_to last.array (take amount bytes) last.size amount _
              i.last_valid.whole n refl hr;
        holds =
            rw
              (used-copy_to last.array (take amount bytes) last.size amount _ i.last_valid.whole n
                refl hr)
              (simp (append_assoc, take-append-drop) (simp append_assoc at (i.holds)));
        counted = omega (arith, i.counted, i.in_range, length-drop {0} amount bytes);
        in_range = i.in_range;
      }

Filling→Holds :
    (held : Bytes) (front : List DbufBlock) (last : DbufBlock) (total : ℕ) (bytes : Bytes)
    → Filling held front last total bytes
    → length bytes ≡ 0
    → Holds (some (record { blocks = front ++ last ∷ []; total_size = total })) held
Filling→Holds held front last total [] i e =
    let h : contents_of front ++ used last ≡ held = simp append-nil at (i.holds) in
    let same : contents_of (front ++ last ∷ []) ≡ held = simp (contents_of-append, append-nil) h in
    (
      record {
        blocks_valid = BlocksAreValid-append front (last ∷ []) i.front_valid (i.last_valid, tt);
        counted = omega (arith, i.counted, ap (λ (b : Bytes). length b) same);
        in_range = omega (arith, i.in_range, ap (λ (b : Bytes). length b) same);
      },
      same,
    )
Filling→Holds held front last total (b ∷ bytes) i e = absurd (omega arith)

module _ (held : Bytes) (f : ℕ) (next : PutRound)
    (ih : (front : List DbufBlock) (last : DbufBlock) (total : ℕ) (bytes : Bytes)
      → length bytes < f
      → Filling held front last total bytes
      → Holds (next front last total bytes) held) where
  fill_tail-Holds :
      (front : List DbufBlock) (last : DbufBlock) (room total : ℕ) (bytes : Bytes)
      → 0 < room
      → last.size + room ≤ dbuf_block_size
      → length bytes < suc f
      → Filling held front last total bytes
      → Holds (fill_tail next front last room total bytes) held
  unfolding fill_tail
  fill_tail-Holds front last room total bytes hr fits hf i =
      elim (Bool-cases (ltb room (length bytes))) [
        | inl more ↦
            let lt = ltb→lt _ _ more in
            rw (more, not_zero lt)
              (ih _ _ _ _ (omega (arith, length-drop {0} room bytes))
                (Filling-copy held room i (omega arith) fits))
        | inr all ↦
            let le : length bytes ≤ room = ground (arith, all) in
            rw (all, none_left)
              (Filling→Holds held _ _ _ _
                (Filling-copy held (length bytes) i (omega arith) (omega arith))
                (omega (arith, length-drop {0} (length bytes) bytes)))
      ]
    where
      not_zero : room < length bytes → (length bytes - room == 0) ≡ false
      not_zero h = ground arith

      none_left : (length bytes - length bytes == 0) ≡ true
      none_left = ground arith

put_loop-Holds :
    (held : Bytes) (f : ℕ) (front : List DbufBlock) (last : DbufBlock) (total : ℕ) (bytes : Bytes)
    → length bytes < f
    → Filling held front last total bytes
    → Holds (put_loop f front last total bytes) held
unfolding put_loop
put_loop-Holds held zero front last total bytes hf i = elim hf [ ]
put_loop-Holds held (suc f) front last total bytes hf i =
    elim (Bool-cases (dbuf_block_size - last.size == 0)) [
      | inl full ↦ rw full (
          fill_tail-Holds held f (put_loop f) (put_loop-Holds held f) (front ++ last ∷ []) new_block
            dbuf_block_size total bytes (omega arith) (omega arith) hf (Filling-new_block held i))
      | inr room ↦ rw room (
          fill_tail-Holds held f (put_loop f) (put_loop-Holds held f) front last
            (dbuf_block_size - last.size) total bytes (ground (arith, room))
            (omega (arith, i.last_valid.fits)) hf i)
    ]

split_tail-blocks :
    (b : DbufBlock) (bs : List DbufBlock) → (split_tail b bs).0 ++ (split_tail b bs).1 ∷ [] ≡ b ∷ bs
unfolding split_tail
split_tail-blocks b [] = refl
split_tail-blocks b (c ∷ bs) = ap (λ r. b ∷ r) (split_tail-blocks c bs)

BlocksAreValid-split :
    (xs : List DbufBlock) (b : DbufBlock)
    → BlocksAreValid (xs ++ b ∷ [])
    → BlocksAreValid xs × BlockIsValid b
BlocksAreValid-split [] b h = (tt, h.0)
BlocksAreValid-split (x ∷ xs) b h = let (hs, hb) = BlocksAreValid-split xs b h.1 in ((h.0, hs), hb)

put_blocks-Holds :
    (blocks : List DbufBlock) (total : ℕ) (bytes : Bytes)
    → BlocksAreValid blocks
    → total ≡ length (contents_of blocks)
    → length (contents_of blocks) + length bytes < size_mod
    → Holds (put_blocks blocks total bytes) (contents_of blocks ++ bytes)
unfolding put_blocks
put_blocks-Holds [] total bytes v c r =
    put_loop-Holds bytes (suc (length bytes)) [] new_block total bytes (omega arith) (record {
      front_valid = tt;
      last_valid = new_block-BlockIsValid;
      holds = refl;
      counted = omega arith;
      in_range = omega arith;
    })
put_blocks-Holds (b ∷ bs) total bytes v c r =
    let same = split_tail-blocks b bs in
    let (front, last) = split_tail b bs in
    let (vf, vl) = BlocksAreValid-split front last (rw same v) in
    let n = length-append {0} (contents_of (b ∷ bs)) bytes in
    put_loop-Holds (contents_of (b ∷ bs) ++ bytes) (suc (length bytes)) front last total bytes
      (omega arith)
      (record {
        front_valid = vf;
        last_valid = vl;
        holds = ap (λ x. x ++ bytes) (back front last ∙ ap contents_of same);
        counted = omega (arith, n, c);
        in_range = omega (arith, n, r);
      })
  where
    back :
        (front : List DbufBlock) (last : DbufBlock)
        → contents_of front ++ used last ≡ contents_of (front ++ last ∷ [])
    back front last = simp (contents_of-append, append-nil)

-- On a well-formed queue whose bytes and the new ones fit a `size_t`, `dbuf_put` ends within the
-- fuel of the model, leaves the queue well formed, and the queue then holds what it held before,
-- followed by all the new bytes.
pub dbuf_put-Holds :
    (q : DbufQueue) (bytes : Bytes)
    → IsValid q
    → length (contents q) + length bytes < size_mod
    → Holds (dbuf_put q bytes) (contents q ++ bytes)
unfolding dbuf_put
dbuf_put-Holds q bytes v r = put_blocks-Holds q.blocks q.total_size bytes v.blocks_valid v.counted r
