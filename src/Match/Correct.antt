-- ===== src/Match/Correct.antt =====
-- The loop of `match` (src/match.c) decides the reference meaning of the mask, within its fuel and
-- without a read past a NUL.
use unirc_ircd.Prelude.{
  ℕ, zero, suc, ◌+◌, ◌*◌, ◌≤◌, ◌<◌, ◌≡◌, refl, sym, ◌∙◌, ap, Bool, true, false, [], ◌∷◌, arith,
  ◌==◌, length, Bool-cases, Bool-eq_iff, inl, inr,
}
use unirc_ircd.Chars.{Bytes}
use unirc_ircd.Match.{
  returns, Saved, unset, saved, Round, skip_stars, scan_back, retry, conclude, compare_here,
  mask_ended, rest_is_stars, after_stars, note_star, loop, accepts, compare_plain, match, fuel_for,
}
use unirc_ircd.Match.Reference.{
  any_suffix, glob, any_suffix-tail, any_suffix_twice, glob-accepted, glob-rejected, glob-nil,
  glob-nil_nil, glob-nil_cons,
}
use unirc_ircd.Match.Invariant.{
  NotStar, glob-star, skip_stars-any_suffix, Held, Inv, Held-restart, Held-advance, Held-found,
  Held-missed, Held-not_nil, Held-name_ended,
}

-- One round, where the rounds after it are right (`ih`).
module _ (g : Bool) (k f : ℕ) (next : Round)
    (ih : (t : ℕ) (mb m n : Bytes) (sv : Saved)
      → Inv g k t mb m n sv
      → length m < k
      → t * k + length m < f
      → next mb m n sv ≡ returns g) where
  -- Going back to the star is right for every round `other` that is right from there on.
  retry-returns :
      (t c : ℕ) (mb m n pb p na : Bytes) (h : Held g k t pb p na mb m (c ∷ n))
      → glob m (c ∷ n) ≡ false
      → t * k ≤ f
      → (other : Round)
      → ((t' : ℕ) (na' : Bytes)
          → length na' ≡ length h.seg + length n
          → Held g k t' pb p na' pb p na'
          → t' * k + length p < f
          → other pb p na' (saved pb p na') ≡ returns g)
      → retry other (saved pb p na) ≡ returns g
  unfolding retry
  retry-returns t c mb m n pb p [] h no_match ht other run = absurd (omega (arith, h.paired))
  retry-returns zero c mb m n pb p (d ∷ na) h no_match ht other run =
      absurd (omega (arith, h.text_bound))
  retry-returns (suc t) c mb m n pb p (d ∷ na) h no_match ht other run =
      let tail = any_suffix-tail (glob p) d na (ground (arith, h.down, no_match)) in
      run t na (omega (arith, h.paired))
        (Held-restart g k pb h.older p na h.star (h.whole ∙ tail) (omega (arith, h.text_bound))
          h.mask_bound)
        (grind (arith, h.mask_bound, ht))

  module _ (t a c : ℕ) (mb m n : Bytes) (letter : (a == b'*') ≡ false) where
    advance-Inv :
        (sv : Saved)
        → Inv g k t mb (a ∷ m) (c ∷ n) sv
        → accepts a c ≡ true
        → Inv g k t (a ∷ mb) m n sv
    advance-Inv unset i acc = (i.0 ∙ glob-accepted a m letter c n acc, omega arith)
    advance-Inv (saved pb p na) h acc = Held-advance g k a c m h letter acc

    mismatch-returns :
        (sv : Saved)
        → Inv g k t mb (a ∷ m) (c ∷ n) sv
        → accepts a c ≡ false
        → t * k ≤ f
        → retry next sv ≡ returns g
    unfolding retry
    mismatch-returns unset i rej hf = rw (i.0 ∙ glob-rejected a m letter c n rej)
    mismatch-returns (saved pb p na) h rej hf =
        retry-returns t c mb (a ∷ m) n pb p na h (glob-rejected a m letter c n rej) hf next
          (λ t' na' _ held hf'. ih t' pb p na' (saved pb p na') held h.mask_bound hf')

    -- The comparison, at a byte of the mask that is no star.
    compare_here-returns :
        (sv : Saved)
        → Inv g k t mb (a ∷ m) (c ∷ n) sv
        → length (a ∷ m) < k
        → t * k + length (a ∷ m) < suc f
        → compare_here compare_plain next mb (a ∷ m) (c ∷ n) sv ≡ returns g
    unfolding compare_here compare_plain conclude
    compare_here-returns sv i hk hf = elim (Bool-cases (accepts a c)) [
      | inl acc ↦ rw acc (ih t (a ∷ mb) m n sv (advance-Inv sv i acc) (omega arith) (omega arith))
      | inr rej ↦ rw rej (mismatch-returns sv i rej (omega arith))
    ]

  -- The comparison after a reset, where the rest of the mask is not empty and has no star.
  compare_rest-returns :
      (t : ℕ) (pb p na : Bytes)
      → Held g k t pb p na pb p na
      → NotStar p
      → 0 < length p
      → 0 < length na
      → t * k + length p < suc f
      → compare_here compare_plain next pb p na (saved pb p na) ≡ returns g
  compare_rest-returns t pb [] na h ns hp hn hf = elim hp [ ]
  compare_rest-returns t pb (a ∷ p) [] h ns hp hn hf = elim hn [ ]
  compare_rest-returns t pb (a ∷ p) (c ∷ na) h ns hp hn hf =
      compare_here-returns t a c pb p na ns (saved pb (a ∷ p) (c ∷ na)) h h.mask_bound hf

  -- The mask has ended before the name, with a star behind it.
  back_to_star-returns :
      (t b c : ℕ) (mb n pb p na : Bytes) (h : Held g k t pb p na (b ∷ mb) [] (c ∷ n))
      → t * k ≤ f
      → mask_ended compare_plain next (b ∷ mb) (c ∷ n) (saved pb p na) ≡ returns g
  unfolding mask_ended
  back_to_star-returns t b c mb n pb p na h hf = elim (Bool-cases (scan_back b mb)) [
    | inl found ↦ rw (found, Held-found g k t b c mb n pb p na h found)
    | inr other ↦ rw other (
        let (ns, hp, hs) = Held-missed g k t b c mb n pb p na h other in
        retry-returns t c (b ∷ mb) [] n pb p na h (glob-nil_cons c n) hf
          (compare_here compare_plain next)
          (λ t' na' e held hf'.
            compare_rest-returns t' pb p na' held ns hp (omega arith) (omega arith)))
  ]

  mask_ended-returns :
      (t : ℕ) (mb n : Bytes) (sv : Saved)
      → Inv g k t mb [] n sv
      → t * k ≤ f
      → mask_ended compare_plain next mb n sv ≡ returns g
  unfolding mask_ended
  mask_ended-returns t mb [] unset i hf = rw (i.0 ∙ glob-nil_nil)
  mask_ended-returns t mb [] (saved pb p na) h hf = rw (h.now glob-nil_nil)
  mask_ended-returns t mb (c ∷ n) unset i hf = rw (i.0 ∙ glob-nil_cons c n)
  mask_ended-returns t [] (c ∷ n) (saved pb p na) h hf = absurd (Held-not_nil g k h)
  mask_ended-returns t (b ∷ mb) (c ∷ n) (saved pb p na) h hf =
      back_to_star-returns t b c mb n pb p na h hf

  after_stars-returns :
      (t : ℕ) (mb m n : Bytes) (sv : Saved)
      → Inv g k t mb m n sv
      → NotStar m
      → length m < k
      → t * k + length m < suc f
      → after_stars compare_plain next mb m n sv ≡ returns g
  unfolding after_stars rest_is_stars
  after_stars-returns t mb [] n sv i ns hk hf = mask_ended-returns t mb n sv i (omega arith)
  after_stars-returns t mb (a ∷ m) [] unset i ns hk hf = rw (ns, i.0 ∙ glob-nil a m ns)
  after_stars-returns t mb (a ∷ m) [] (saved pb p na) h ns hk hf =
      rw (ns, Held-name_ended g k a m h ns)
  after_stars-returns t mb (a ∷ m) (c ∷ n) sv i ns hk hf =
      compare_here-returns t a c mb m n ns sv i hk hf

-- The stars at the pointer become a new saved position.
module _ (g : Bool) (k : ℕ) where
  starred :
      (t a : ℕ) (mb m n : Bytes) (sv : Saved)
      → Inv g k t mb (a ∷ m) n sv
      → (a == b'*') ≡ true
      → g ≡ any_suffix (glob m) n
  starred t a mb m n unset i star = i.0 ∙ ap (λ (f : Bytes → Bool). f n) (glob-star a m star)
  starred t a mb m n (saved pb p na) h star =
      let e = glob-star a m star in
      Bool-eq_iff _ _ (λ q. sym (any_suffix_twice (glob m) n) ∙ (rw e at (h.later q)))
        (λ q. h.now (ap (λ (f : Bytes → Bool). f n) e ∙ q))

  Inv-text_bound : (t : ℕ) (mb m n : Bytes) (sv : Saved) → Inv g k t mb m n sv → length n ≤ t
  Inv-text_bound t mb m n unset i = i.1
  Inv-text_bound t mb m n (saved pb p na) h = omega (arith, h.paired, h.text_bound)

  note_star-Inv :
      (t a : ℕ) (mb m n : Bytes) (sv : Saved)
      → Inv g k t mb (a ∷ m) n sv
      → (a == b'*') ≡ true
      → length (a ∷ m) < k
      → let (mb', m') = skip_stars mb (a ∷ m) in
        Inv g k t mb' m' n (saved mb' m' n) × NotStar m' × (length m' ≤ length m)
  unfolding skip_stars
  note_star-Inv t a mb m n sv i star hk =
      let e : a ≡ b'*' = ground arith in
      let (older, h0, h1, h2, h3) = skip_stars-any_suffix mb m n in
      rw (star, e)
        (
          Held-restart g k _ older _ n h0 (starred t a mb m n sv i star ∙ sym h1)
              (Inv-text_bound t mb (a ∷ m) n sv i) (omega (arith, h2)),
          h3,
          h2,
        )

  pub loop-returns :
      (f t : ℕ) (mb m n : Bytes) (sv : Saved)
      → Inv g k t mb m n sv
      → length m < k
      → t * k + length m < f
      → loop compare_plain f mb m n sv ≡ returns g
  unfolding loop note_star
  loop-returns zero t mb m n sv i hk hf = absurd (omega arith)
  loop-returns (suc f) t mb [] n sv i hk hf =
      after_stars-returns g k f (loop compare_plain f) (loop-returns f) t mb [] n sv i tt hk hf
  loop-returns (suc f) t mb (a ∷ m) n sv i hk hf = elim (Bool-cases (a == b'*')) [
    | inl star ↦
        let (i', ns, shorter) = note_star-Inv t a mb m n sv i star hk in
        rw star (
          after_stars-returns g k f (loop compare_plain f) (loop-returns f) t _ _ n _ i' ns
            (omega (arith, shorter)) (omega (arith, shorter)))
    | inr other ↦ rw other (
        after_stars-returns g k f (loop compare_plain f) (loop-returns f) t mb (a ∷ m) n sv i other
          hk hf)
  ]

-- `match` stops within the fuel of the model, never reads past the NUL of either string, and returns
-- whether the name matches the mask as `glob` defines it, for every mask and every name.
pub match-eq-glob : (mask name : Bytes) → match mask name ≡ returns (glob mask name)
unfolding match
match-eq-glob mask name =
    loop-returns (glob mask name) (length mask + 1) (fuel_for mask name) (length name) [] mask name
      unset (refl, omega arith) (omega arith) (grind arith)
