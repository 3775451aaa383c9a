-- ===== src/Hash.antt =====
-- src/hash.c: five tables of chained pointers, for clients by name, clients by identifier, channels,
-- user hosts and reserved channels. An object is a number, and the names that the objects bear are a
-- function. A chain, which the objects' own `next` pointers make, is the list of its objects.
pub mod Value
pub mod Chain
pub mod Names
pub mod Spec
pub mod Users
mod Tests
use Prim.Native.Nat.{bit_xor}
use unirc_ircd.Prelude.{
  ℕ, ◌+◌, ◌*◌, ◌/◌, ◌%◌, ◌^◌, Bool, true, false, not, ◌&&◌, ◌||◌, Option, none, some, List, [], ◌∷◌,
  ◌==◌, ltb, if◌then◌else◌, length, take, remove_first,
}
use unirc_ircd.Chars.{Bytes, to_lower, is_digit}
use unirc_ircd.Match.{Outcome, returns, fault, out_of_fuel}
use unirc_ircd.Match.Case.{irccmp}

abbrev pub fnv1_32_init : ℕ
fnv1_32_init = 0x811c9dc5

abbrev pub hashsize : ℕ
hashsize = 65536

-- One round of the loop of `strhash`; `key` is `ircd_random_key`.
pub hash_round : ℕ → ℕ → ℕ → ℕ
hash_round key hval c =
    let sum = hval + (hval * 2 + hval * 16 + hval * 128 + hval * 256 + hval * 2 ^ 24) in
    bit_xor (sum % 2 ^ 32) (bit_xor (to_lower c) key)

pub hash_loop : ℕ → ℕ → Bytes → ℕ
hash_loop key hval [] = hval
hash_loop key hval (c ∷ s) = hash_loop key (hash_round key hval c) s

unfoldable pub strhash : ℕ → Bytes → ℕ
unfolding hash_loop hash_round
strhash key [] = 0
strhash key (c ∷ s) =
    let hval = hash_loop key fnv1_32_init (c ∷ s) in bit_xor (hval / 2 ^ 16) (hval % 2 ^ 16)

-- A table: the chain at each index.
abbrev pub Table : Type 0
Table = ℕ → List ℕ

-- `!irccmp(a, b)`
abbrev pub is_zero : Outcome → Bool
is_zero (returns b) = not b
is_zero fault = false
is_zero out_of_fuel = false

abbrev pub names_equal : Bytes → Bytes → Bool
names_equal a b = is_zero (irccmp a b)

abbrev pub set_chain : Table → ℕ → List ℕ → Table
set_chain t h chain = λ i. if i == h then chain else t i

-- The first object of a chain that passes a test, and the chain without it.
pub take_out : (ℕ → Bool) → List ℕ → Option (ℕ × List ℕ)
take_out test [] = none
take_out test (c ∷ cs) =
    let rest = take_out test cs in
    if test c then some (c, cs) else elim rest [ none ↦ none | some (d, ds) ↦ some (d, c ∷ ds) ]

-- The search: what it finds moves to the front of the chain.
pub find_in : (ℕ → Bool) → List ℕ → Option ℕ × List ℕ
find_in test chain = elim (take_out test chain) [
  | none ↦ (none, chain)
  | some (d, ds) ↦ (some d, d ∷ ds)
]

-- A test of the byte at the start, the NUL of an empty string included.
abbrev pub first_is : (ℕ → Bool) → Bytes → Bool
first_is test [] = test 0
first_is test (c ∷ s) = test c

-- What the functions on the five tables share, for a key and the names in one table.
module _ (key : ℕ) (name_of : ℕ → Bytes) where
  pub hash_add : ℕ → Table → Table
  hash_add a t = let h = strhash key (name_of a) in set_chain t h (a ∷ t h)

  -- `remove_first` stands for the loop that takes a pointer out of its chain.
  pub hash_del : ℕ → Table → Table
  hash_del a t = let h = strhash key (name_of a) in set_chain t h (remove_first a (t h))

  -- The search for a name among the objects that pass a test.
  pub find_such : (ℕ → Bool) → Bytes → Table → Option ℕ × Table
  find_such such name t =
      let h = strhash key name in
      let found = find_in (λ a. such a && names_equal name (name_of a)) (t h) in
      (found.0, set_chain t h found.1)

  pub hash_find : Bytes → Table → Option ℕ × Table
  hash_find name t = find_such (λ a. true) name t

  -- The loop of `hash_find_masked_server`, from each dot on with a star before it.
  pub masked_loop : Bytes → Table → Option ℕ × Table
  masked_loop [] t = (none, t)
  masked_loop (c ∷ s) t =
      let here = hash_find (b'*' ∷ c ∷ s) t in
      let beyond = masked_loop s here.1 in
      let on = masked_loop s t in
      if c == b'.' then elim here.0 [ none ↦ beyond | some a ↦ here ] else on

  pub hash_find_masked_server : Bytes → Table → Option ℕ × Table
  hash_find_masked_server name t =
      if first_is (λ c. c == b'*' || c == b'.') name
      then (none, t)
      else masked_loop (take 63 name) t

-- The tables of clients and of identifiers; `is_server` is `IsServer` or `IsMe`.
module _ (key : ℕ) (name_of id_of : ℕ → Bytes) (is_server : ℕ → Bool) where
  abbrev pub by_id : Bytes → Table → Option ℕ × Table
  by_id name ids =
      if first_is is_digit name && length name == 3
      then hash_find key id_of name ids
      else (none, ids)

  -- What is found, the table of clients and that of identifiers.
  pub find_server : Bytes → Table → Table → Option ℕ × Table × Table
  find_server name t ids =
      let (sid, ids') = by_id name ids in
      let (found, t') = find_such key name_of is_server name t in
      let (masked, t'') = hash_find_masked_server key name_of name t' in
      elim sid [
        | some a ↦ (some a, t, ids')
        | none ↦ elim found [ some a ↦ (some a, t', ids') | none ↦ (masked, t'', ids') ]
      ]
