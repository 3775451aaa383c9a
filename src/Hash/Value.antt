-- ===== src/Hash/Value.antt =====
-- The values of `strhash` (src/hash.c).
use Prim.Native.Nat.{bit_xor, bit_xor-bitwise, digits, differ}
use native.Mathlib.Nat.{pow-suc}
use unirc_ircd.Prelude.{
  ℕ, zero, suc, ◌*◌, ◌/◌, ◌%◌, ◌^◌, ◌≤◌, ◌<◌, ◌≡◌, refl, ap, [], ◌∷◌, map, arith, all_below,
  all_below_sound, ltb, true,
}
use unirc_ircd.Chars.{Bytes, to_lower, to_upper}
use unirc_ircd.Match.Case.{to_lower_iff-to_upper, NoNul}
use unirc_ircd.Hash.{hash_round, hash_loop, strhash, hashsize}

differ-le : (x y : ℕ) → x < 2 → y < 2 → differ x y ≤ 1
differ-le zero y hx hy = omega arith
differ-le (suc x) zero hx hy = omega arith
differ-le (suc zero) (suc zero) hx hy = omega arith
differ-le (suc zero) (suc (suc y)) hx hy = absurd (omega arith)
differ-le (suc (suc x)) (suc y) hx hy = absurd (omega arith)

lower_table : all_below 256 (λ c. ltb (to_lower c) 256) ≡ true
unfolding to_lower
lower_table = refl

to_lower-lt : (c : ℕ) → c < 256 → to_lower c < 2 ^ 32
to_lower-lt c h = ground (arith, all_below_sound 256 (λ d. ltb (to_lower d) 256) c lower_table h)

digits-lt : (n a b k : ℕ) → a < 2 ^ k → b < 2 ^ k → digits (λ b. b) differ n a b < 2 ^ k
digits-lt zero a b k ha hb = hb
digits-lt (suc n) zero b k ha hb = hb
digits-lt (suc n) (suc a) b zero ha hb = absurd (omega arith)
digits-lt (suc n) (suc a) b (suc k) ha hb =
    let p : 2 ^ suc k ≡ 2 ^ k * 2 = pow-suc 2 k in
    omega (
      arith,
      p,
      digits-lt n (suc a / 2) (b / 2) k (omega (arith, p)) (omega (arith, p)),
      differ-le (suc a % 2) (b % 2) (omega arith) (omega arith),
    )

bit_xor-lt : (a b k : ℕ) → a < 2 ^ k → b < 2 ^ k → bit_xor a b < 2 ^ k
bit_xor-lt a b k ha hb = rw (bit_xor-bitwise a b) (digits-lt a a b k ha hb)

-- The round keeps 32 bits, for a key of one byte.
hash_loop-lt :
    (key : ℕ) (s : Bytes) (hval : ℕ)
    → key < 256
    → NoNul s
    → hval < 2 ^ 32
    → hash_loop key hval s < 2 ^ 32
unfolding hash_loop hash_round
hash_loop-lt key [] hval hk n hh = hh
hash_loop-lt key (c ∷ s) hval hk n hh =
    hash_loop-lt key s _ hk n.2
      (bit_xor-lt _ _ 32 (omega arith) (bit_xor-lt _ _ 32 (to_lower-lt c n.1) (omega arith)))

-- Every hash value is an index of the tables.
pub strhash-lt : (key : ℕ) (s : Bytes) → key < 256 → NoNul s → strhash key s < hashsize
unfolding strhash
strhash-lt key [] h n = omega arith
strhash-lt key (c ∷ s) h n =
    let b = hash_loop-lt key (c ∷ s) 0x811c9dc5 h n (omega arith) in
    bit_xor-lt _ _ 16 (omega (arith, b)) (omega arith)

hash_loop-fold :
    (key : ℕ) (s t : Bytes) (hval : ℕ)
    → map to_lower s ≡ map to_lower t
    → hash_loop key hval s ≡ hash_loop key hval t
unfolding hash_loop hash_round
hash_loop-fold key [] [] hval e = refl
hash_loop-fold key [] (d ∷ t) hval e = absurd (cc e)
hash_loop-fold key (c ∷ s) [] hval e = absurd (cc e)
hash_loop-fold key (c ∷ s) (d ∷ t) hval e =
    let h : to_lower c ≡ to_lower d = cc e in
    let r : map to_lower s ≡ map to_lower t = cc e in rw h (hash_loop-fold key s t _ r)

lower_of_upper :
    (s t : Bytes)
    → NoNul s
    → NoNul t
    → map to_upper s ≡ map to_upper t
    → map to_lower s ≡ map to_lower t
lower_of_upper [] [] hs ht e = refl
lower_of_upper [] (d ∷ t) hs ht e = absurd (cc e)
lower_of_upper (c ∷ s) [] hs ht e = absurd (cc e)
lower_of_upper (c ∷ s) (d ∷ t) hs ht e =
    let h : to_upper c ≡ to_upper d = cc e in
    let l = (to_lower_iff-to_upper c d hs.1 ht.1).1 h in
    let r = lower_of_upper s t hs.2 ht.2 (cc e) in cc (l, r)

-- Names that are equal in upper case have the same hash value.
pub strhash-fold :
    (key : ℕ) (s t : Bytes)
    → NoNul s
    → NoNul t
    → map to_upper s ≡ map to_upper t
    → strhash key s ≡ strhash key t
unfolding strhash
strhash-fold key [] [] hs ht e = refl
strhash-fold key [] (d ∷ t) hs ht e = absurd (cc e)
strhash-fold key (c ∷ s) [] hs ht e = absurd (cc e)
strhash-fold key (c ∷ s) (d ∷ t) hs ht e =
    ap (λ v. bit_xor (v / 2 ^ 16) (v % 2 ^ 16))
      (hash_loop-fold key (c ∷ s) (d ∷ t) 0x811c9dc5 (lower_of_upper (c ∷ s) (d ∷ t) hs ht e))
