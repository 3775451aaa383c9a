-- ===== src/Dbuf/Contents.antt =====
-- What a queue of src/dbuf.c holds, and when it is well formed.
use unirc_ircd.Prelude.{
  ℕ, zero, suc, ◌+◌, ◌-◌, ◌≤◌, ◌<◌, ◌≡◌, refl, sym, ◌∙◌, ap, List, [], ◌∷◌, ◌++◌, arith, length,
  take, drop, length-append, length-take, length-drop, append_assoc,
}
use unirc_ircd.Chars.{Bytes}
use unirc_ircd.Dbuf.{DbufBlock, DbufQueue, size_mod, dbuf_block_size, copy_to, new_block}

abbrev pub used : DbufBlock → Bytes
used b = take b.size b.array

abbrev pub contents_of : List DbufBlock → Bytes
contents_of [] = []
contents_of (b ∷ bs) = used b ++ contents_of bs

abbrev pub contents : DbufQueue → Bytes
contents q = contents_of q.blocks

pub record BlockIsValid (b : DbufBlock) : Type 0 where
  pub fits : b.size ≤ dbuf_block_size
  pub whole : length b.array ≡ dbuf_block_size

abbrev pub BlocksAreValid : List DbufBlock → Type 0
BlocksAreValid [] = Unit {0}
BlocksAreValid (b ∷ bs) = BlockIsValid b × BlocksAreValid bs

-- The count kept is the number of bytes held, and it fits a `size_t`.
pub record IsValid (q : DbufQueue) : Type 0 where
  pub blocks_valid : BlocksAreValid q.blocks
  pub counted : q.total_size ≡ length (contents q)
  pub in_range : length (contents q) < size_mod

module _ {ℓ} {A : Type ℓ} where
  pub take-append_past :
      (k : ℕ) (xs ys : List A) → length xs ≤ k → take k (xs ++ ys) ≡ xs ++ take (k - length xs) ys
  take-append_past k [] ys h = ap (λ (j : ℕ). take j ys) (omega arith)
  take-append_past zero (x ∷ xs) ys h = elim h [ ]
  take-append_past (suc k) (x ∷ xs) ys h =
      ap (λ (r : List A). x ∷ r)
        (take-append_past k xs ys (omega arith) ∙ ap (λ (j : ℕ). xs ++ take j ys) (omega arith))

  pub take-append_within : (k : ℕ) (xs ys : List A) → k ≤ length xs → take k (xs ++ ys) ≡ take k xs
  take-append_within zero xs ys h = refl
  take-append_within (suc k) [] ys h = elim h [ ]
  take-append_within (suc k) (x ∷ xs) ys h =
      ap (λ (r : List A). x ∷ r) (take-append_within k xs ys (omega arith))

  pub take_all : (k : ℕ) (xs : List A) → length xs ≤ k → take k xs ≡ xs
  take_all zero [] h = refl
  take_all (suc k) [] h = refl
  take_all zero (x ∷ xs) h = elim h [ ]
  take_all (suc k) (x ∷ xs) h = ap (λ (r : List A). x ∷ r) (take_all k xs (omega arith))

  pub drop-append_length : (xs ys : List A) → drop (length xs) (xs ++ ys) ≡ ys
  drop-append_length [] ys = refl
  drop-append_length (x ∷ xs) ys = drop-append_length xs ys

  pub drop-append : (n : ℕ) (xs ys : List A) → n ≤ length xs → drop n (xs ++ ys) ≡ drop n xs ++ ys
  drop-append zero xs ys h = refl
  drop-append (suc n) [] ys h = elim h [ ]
  drop-append (suc n) (x ∷ xs) ys h = drop-append n xs ys (omega arith)

  pub drop-append_past :
      (n : ℕ) (xs ys : List A) → length xs ≤ n → drop n (xs ++ ys) ≡ drop (n - length xs) ys
  drop-append_past n [] ys h = ap (λ (k : ℕ). drop k ys) (omega arith)
  drop-append_past zero (x ∷ xs) ys h = elim h [ ]
  drop-append_past (suc n) (x ∷ xs) ys h =
      drop-append_past n xs ys (omega arith) ∙ ap (λ (k : ℕ). drop k ys) (omega arith)

  pub take-take : (n : ℕ) (xs : List A) → take n (take n xs) ≡ take n xs
  take-take zero xs = refl
  take-take (suc n) [] = refl
  take-take (suc n) (x ∷ xs) = ap (λ (r : List A). x ∷ r) (take-take n xs)

  pub drop-take : (n k : ℕ) (xs : List A) → drop n (take k xs) ≡ take (k - n) (drop n xs)
  drop-take zero k xs = ap (λ (j : ℕ). take j xs) {x = k} {y = k - 0} (omega arith)
  drop-take (suc n) zero xs =
      ap (λ (j : ℕ). take j (drop (suc n) xs)) {x = 0} {y = 0 - suc n} (omega arith)
  drop-take (suc n) (suc k) [] = sym (take_all (suc k - suc n) [] (omega arith))
  drop-take (suc n) (suc k) (x ∷ xs) =
      drop-take n k xs
      ∙ ap (λ (j : ℕ). take j (drop n xs)) {x = k - n} {y = suc k - suc n} (omega arith)

-- Writing behind the bytes in use appends to them, and keeps the array's length.
module _ (array bytes : Bytes) (size amount new : ℕ) (whole : length array ≡ dbuf_block_size)
    (counted : length bytes ≡ amount) (sum : new ≡ size + amount)
    (room : new ≤ dbuf_block_size) where
  length-copy_to : length (copy_to array size bytes) ≡ dbuf_block_size
  length-copy_to = omega (
    arith,
    length-append {0} (take size array) (bytes ++ drop (size + length bytes) array),
    length-append {0} bytes (drop (size + length bytes) array),
    length-take {0} size array,
    length-drop {0} (size + length bytes) array,
  )

  pub used-copy_to : take new (copy_to array size bytes) ≡ take size array ++ bytes
  used-copy_to =
      let rest = drop (size + length bytes) array in
      let n : length (take size array) ≡ size = omega (arith, length-take {0} size array) in
      take-append_past new (take size array) (bytes ++ rest) (omega arith)
      ∙ ap (λ r. take size array ++ r)
          (ap (λ (k : ℕ). take k (bytes ++ rest)) {y = length bytes} (omega arith)
            ∙ take-append_within (length bytes) bytes rest (omega arith)
            ∙ take_all (length bytes) bytes (omega arith))

  pub BlockIsValid-copy_to : BlockIsValid (record { size = new; array = copy_to array size bytes })
  BlockIsValid-copy_to = record { fits = room; whole = length-copy_to }

pub new_block-BlockIsValid : BlockIsValid new_block
new_block-BlockIsValid = record { fits = omega arith; whole = refl }

pub contents_of-append :
    (xs ys : List DbufBlock) → contents_of (xs ++ ys) ≡ contents_of xs ++ contents_of ys
contents_of-append [] ys = refl
contents_of-append (b ∷ xs) ys =
    ap (λ r. used b ++ r) (contents_of-append xs ys)
    ∙ sym (append_assoc (used b) (contents_of xs) (contents_of ys))

pub BlocksAreValid-append :
    (xs ys : List DbufBlock) → BlocksAreValid xs → BlocksAreValid ys → BlocksAreValid (xs ++ ys)
BlocksAreValid-append [] ys h k = k
BlocksAreValid-append (b ∷ xs) ys h k = (h.0, BlocksAreValid-append xs ys h.1 k)
