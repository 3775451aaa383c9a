-- ===== src/Dbuf/Delete.antt =====
-- `dbuf_delete` of src/dbuf.c removes bytes from the front.
use unirc_ircd.Prelude.{
  ℕ, zero, suc, ◌-◌, ◌≤◌, ◌<◌, ◌≡◌, refl, sym, ◌∙◌, ap, List, [], ◌∷◌, ◌++◌, arith, some, length,
  take, drop, length-append, length-take, length-drop, ltb, ◌==◌, false, Bool-cases, inl, inr,
  ltb→lt,
}
use unirc_ircd.Chars.{Bytes}
use unirc_ircd.Dbuf.{DbufBlock, DbufQueue, size_mod, sub_size, copy_to, delete_loop, dbuf_delete}
use unirc_ircd.Dbuf.Contents.{
  used, contents_of, contents, BlockIsValid, BlocksAreValid, IsValid, used-copy_to,
  BlockIsValid-copy_to, drop-append, drop-append_past, drop-take,
}
use unirc_ircd.Dbuf.Put.{Holds}

-- The bytes of a block behind the first `count`, moved to its front.
shifted : DbufBlock → ℕ → DbufBlock
shifted b count = record {
  size = b.size - count;
  array = copy_to b.array 0 (take (b.size - count) (drop count b.array));
}

module _ (b : DbufBlock) (count : ℕ) (v : BlockIsValid b) (h : count ≤ b.size) where
  moved : length (take (b.size - count) (drop count b.array)) ≡ b.size - count
  moved = omega (
    arith,
    length-take {0} (b.size - count) (drop count b.array),
    length-drop {0} count b.array,
    v.fits,
    v.whole,
  )

  shifted-BlockIsValid : BlockIsValid (shifted b count)
  unfolding shifted
  shifted-BlockIsValid =
      BlockIsValid-copy_to b.array _ 0 (b.size - count) (b.size - count) v.whole moved (omega arith)
        (omega (arith, v.fits))

  used-shifted : used (shifted b count) ≡ drop count (used b)
  unfolding shifted
  used-shifted =
      used-copy_to b.array _ 0 (b.size - count) (b.size - count) v.whole moved (omega arith)
        (omega (arith, v.fits))
      ∙ sym (drop-take count b.size b.array)

length-used : (b : DbufBlock) → BlockIsValid b → length (used b) ≡ b.size
length-used b v = omega (arith, length-take {0} b.size b.array, v.fits, v.whole)

Holds-blocks :
    (bs : List DbufBlock) (total : ℕ) (bytes : Bytes)
    → BlocksAreValid bs
    → contents_of bs ≡ bytes
    → total ≡ length bytes
    → total < size_mod
    → Holds (some (record { blocks = bs; total_size = total })) bytes
Holds-blocks bs total bytes v e c r =
    let n = ap (λ (x : Bytes). length x) e in
    (record { blocks_valid = v; counted = omega arith; in_range = omega arith }, e)

delete_loop-Holds :
    (bs : List DbufBlock) (total count : ℕ)
    → BlocksAreValid bs
    → total ≡ length (contents_of bs)
    → total < size_mod
    → count ≤ total
    → Holds (delete_loop bs total count) (drop count (contents_of bs))
unfolding delete_loop shifted
delete_loop-Holds [] total zero v c r h = Holds-blocks [] total [] tt refl c r
delete_loop-Holds [] total (suc count) v c r h = absurd (omega arith)
delete_loop-Holds (b ∷ bs) total zero v c r h = Holds-blocks (b ∷ bs) total _ v refl c r
delete_loop-Holds (b ∷ bs) total (suc k) v c r h =
    let count : ℕ = suc k in
    let nz : (suc k == 0) ≡ false = ground arith in
    let nb = length-used b v.0 in
    let nt = length-append {0} (used b) (contents_of bs) in
    elim (Bool-cases (ltb count b.size)) [
      | inl inside ↦
          let lt = ltb→lt _ _ inside in
          rw (nz, inside)
            (Holds-blocks (shifted b count ∷ bs) _ _
              (shifted-BlockIsValid b count v.0 (omega arith), v.1)
              (ap (λ x. x ++ contents_of bs) (used-shifted b count v.0 (omega arith))
                ∙ sym (drop-append count (used b) (contents_of bs) (omega arith)))
              (omega (arith, length-drop {0} count (contents_of (b ∷ bs)))) (omega arith))
      | inr past ↦
          let le : b.size ≤ count = ground (arith, past) in
          let e : sub_size count b.size ≡ count - length (used b) = omega arith in
          rw (nz, past, drop-append_past count (used b) (contents_of bs) (omega arith), ← e)
            (delete_loop-Holds bs (sub_size total b.size) (sub_size count b.size) v.1 (omega arith)
              (omega arith) (omega arith))
    ]

-- On a well-formed queue that holds at least `count` bytes, `dbuf_delete` meets no missing block,
-- leaves the queue well formed, and the queue then holds what it held before without its first
-- `count` bytes.
pub dbuf_delete-Holds :
    (q : DbufQueue) (count : ℕ)
    → IsValid q
    → count ≤ q.total_size
    → Holds (dbuf_delete q count) (drop count (contents q))
unfolding dbuf_delete
dbuf_delete-Holds q count v h =
    delete_loop-Holds q.blocks q.total_size count v.blocks_valid v.counted
      (omega (arith, v.counted, v.in_range)) h
