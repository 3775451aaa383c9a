-- ===== src/Match/Reference.antt =====
-- What a mask means, with no search order in it: `*` is any run of bytes, and any other byte takes
-- one byte that it accepts. The lemmas say how a star searches the suffixes of a name.
use unirc_ircd.Prelude.{
  ℕ, ◌≡◌, refl, Bool, true, false, ◌&&◌, ◌||◌, [], ◌∷◌, arith, ◌==◌, if◌then◌else◌,
}
use unirc_ircd.Chars.{Bytes}
use unirc_ircd.Match.{accepts}

-- `f` holds of some suffix.
pub any_suffix : (Bytes → Bool) → Bytes → Bool
any_suffix f [] = f []
any_suffix f (c ∷ s) = f (c ∷ s) || any_suffix f s

pub first_byte : ℕ → (Bytes → Bool) → Bytes → Bool
first_byte a f [] = false
first_byte a f (c ∷ s) = accepts a c && f s

unfoldable pub glob : Bytes → Bytes → Bool
unfolding any_suffix first_byte accepts
glob [] [] = true
glob [] (c ∷ s) = false
glob (a ∷ p) s = if a == b'*' then any_suffix (glob p) s else first_byte a (glob p) s

module _ (f : Bytes → Bool) where
  pub any_suffix_self : (s : Bytes) → f s ≡ true → any_suffix f s ≡ true
  unfolding any_suffix
  any_suffix_self [] h = h
  any_suffix_self (c ∷ s) h = rw h

  pub any_suffix-tail :
      (c : ℕ) (s : Bytes) → f (c ∷ s) ≡ false → any_suffix f (c ∷ s) ≡ any_suffix f s
  unfolding any_suffix
  any_suffix-tail c s h = rw h

  pub any_suffix-grow : (c : ℕ) (s : Bytes) → any_suffix f s ≡ true → any_suffix f (c ∷ s) ≡ true
  unfolding any_suffix
  any_suffix-grow c s h = ground (arith, h)

  pub any_suffix_twice : (s : Bytes) → any_suffix (any_suffix f) s ≡ any_suffix f s
  unfolding any_suffix
  any_suffix_twice [] = refl
  any_suffix_twice (c ∷ s) = ground (arith, any_suffix_twice s)

  -- Why the greedy choice loses nothing: after a suffix that begins with `a`, one for `f` is left.
  pub any_suffix-first_byte :
      (a c : ℕ) (s : Bytes) → any_suffix (first_byte a f) (c ∷ s) ≡ true → any_suffix f s ≡ true
  unfolding any_suffix first_byte
  any_suffix-first_byte a c [] h = ground arith
  any_suffix-first_byte a c (d ∷ s) h = ground (arith, any_suffix-first_byte a d s)

  pub first_byte-rest : (a c : ℕ) (s : Bytes) → first_byte a f (c ∷ s) ≡ true → f s ≡ true
  unfolding first_byte
  first_byte-rest a c s h = ground (arith, h)

  pub first_byte-accepts :
      (a c : ℕ) (s : Bytes) → accepts a c ≡ true → f s ≡ true → first_byte a f (c ∷ s) ≡ true
  unfolding first_byte
  first_byte-accepts a c s h k = rw (h, k)

-- What `glob` is at a byte of the mask that is no star.
module _ (a : ℕ) (m : Bytes) (letter : (a == b'*') ≡ false) where
  pub glob-accepted : (c : ℕ) (n : Bytes) → accepts a c ≡ true → glob (a ∷ m) (c ∷ n) ≡ glob m n
  unfolding glob
  glob-accepted c n h = rw (letter, h)

  pub glob-rejected : (c : ℕ) (n : Bytes) → accepts a c ≡ false → glob (a ∷ m) (c ∷ n) ≡ false
  unfolding glob
  glob-rejected c n h = rw (letter, h)

  pub glob-nil : glob (a ∷ m) [] ≡ false
  unfolding glob
  glob-nil = rw letter

pub glob-nil_nil : glob [] [] ≡ true
unfolding glob
glob-nil_nil = refl

pub glob-nil_cons : (c : ℕ) (n : Bytes) → glob [] (c ∷ n) ≡ false
unfolding glob
glob-nil_cons c n = refl

pub any_suffix-nil :
    (a : ℕ) (m : Bytes) → (a == b'*') ≡ false → ¬ (any_suffix (glob (a ∷ m)) [] ≡ true)
unfolding any_suffix glob
any_suffix-nil a m letter h = ground (arith, h, letter)
