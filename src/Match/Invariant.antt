-- ===== src/Match/Invariant.antt =====
-- The invariant of the loop of `match` (src/match.c), and how each move of the pointers keeps it.
use unirc_ircd.Prelude.{
  ℕ, ◌+◌, ◌≤◌, ◌<◌, ◌≡◌, refl, sym, ◌∙◌, ap, Bool, true, false, [], ◌∷◌, ◌++◌, arith, ◌==◌, length,
  Bool-cases, inl, inr,
}
use mathlib.Core.Path.{fun_ext}
use unirc_ircd.Chars.{Bytes}
use unirc_ircd.Match.{Saved, unset, saved, skip_stars, scan_back, accepts}
use unirc_ircd.Match.Reference.{
  any_suffix, first_byte, glob, any_suffix-nil, any_suffix_self, any_suffix_twice,
  any_suffix-first_byte, any_suffix-grow, first_byte-rest, first_byte-accepts,
}

-- The consumed part of the mask, last byte first, put back in front of the rest.
abbrev pub put_back : Bytes → Bytes → Bytes
put_back [] m = m
put_back (a ∷ seg) m = put_back seg (a ∷ m)

abbrev pub NoStars : Bytes → Type 0
NoStars [] = Unit {0}
NoStars (a ∷ s) = ((a == b'*') ≡ false) × NoStars s

abbrev pub Questions : Bytes → Type 0
Questions [] = Unit {0}
Questions (a ∷ s) = ((a == b'?') ≡ true) × Questions s

pub put_back-Questions : (seg m : Bytes) → Questions seg → Questions m → Questions (put_back seg m)
put_back-Questions [] m h k = k
put_back-Questions (a ∷ seg) m h k = put_back-Questions seg (a ∷ m) h.1 (h.0, k)

pub length-put_back : (seg m : Bytes) → length (put_back seg m) ≡ length seg + length m
length-put_back [] m = omega arith
length-put_back (a ∷ seg) m = omega (arith, length-put_back seg (a ∷ m))

pub scan_back-Questions :
    (a : ℕ) (seg pb : Bytes)
    → ((a == b'*') ≡ false)
    → NoStars seg
    → scan_back a (seg ++ b'*' ∷ pb) ≡ true
    → Questions (a ∷ seg)
unfolding scan_back
scan_back-Questions a [] pb n h k = ground arith
scan_back-Questions a (b ∷ seg) pb n h k = ground (arith, scan_back-Questions b seg pb h.0 h.1)

glob-Questions : (q s : Bytes) → Questions q → length q ≡ length s → glob q s ≡ true
unfolding glob
glob-Questions [] [] h e = refl
glob-Questions [] (c ∷ s) h e = absurd (omega arith)
glob-Questions (a ∷ q) [] h e = absurd (omega arith)
glob-Questions (a ∷ q) (c ∷ s) h e = ground (arith, glob-Questions q s h.1 (omega arith))

pub any_suffix-Questions :
    (q s : Bytes) → Questions q → length q ≤ length s → any_suffix (glob q) s ≡ true
any_suffix-Questions [] [] h e = any_suffix_self (glob []) [] (glob-Questions [] [] h refl)
any_suffix-Questions (a ∷ q) [] h e = absurd (omega arith)
any_suffix-Questions q (c ∷ s) h e = elim (Bool-cases (length q == length (c ∷ s))) [
  | inl same ↦ any_suffix_self (glob q) (c ∷ s) (glob-Questions q (c ∷ s) h (ground arith))
  | inr more ↦ any_suffix-grow (glob q) c s (any_suffix-Questions q s h (ground arith))
]

pub put_back-NoStars : (seg m : Bytes) → NoStars seg → NoStars m → NoStars (put_back seg m)
put_back-NoStars [] m h k = k
put_back-NoStars (a ∷ seg) m h k = put_back-NoStars seg (a ∷ m) h.1 (h.0, k)

abbrev pub NotStar : Bytes → Type 0
NotStar [] = Unit {0}
NotStar (a ∷ m) = (a == b'*') ≡ false

pub glob-star : (a : ℕ) (m : Bytes) → ((a == b'*') ≡ true) → glob (a ∷ m) ≡ any_suffix (glob m)
unfolding glob
glob-star a m h = fun_ext (λ s. rw h)

pub glob-letter : (a : ℕ) (m : Bytes) → ((a == b'*') ≡ false) → glob (a ∷ m) ≡ first_byte a (glob m)
unfolding glob
glob-letter a m h = fun_ext (λ s. rw h)

-- Skipping stars after one star leaves the same search, at a byte that is no star.
pub skip_stars-any_suffix :
    (mb m n : Bytes)
    → (older : Bytes) × ((skip_stars (b'*' ∷ mb) m).0 ≡ b'*' ∷ older)
      × (any_suffix (glob (skip_stars (b'*' ∷ mb) m).1) n ≡ any_suffix (glob m) n)
      × (length (skip_stars (b'*' ∷ mb) m).1 ≤ length m)
      × NotStar (skip_stars (b'*' ∷ mb) m).1
unfolding skip_stars
skip_stars-any_suffix mb [] n = (mb, refl, refl, omega arith, tt)
skip_stars-any_suffix mb (a ∷ m) n = elim (Bool-cases (a == b'*')) [
  | inl star ↦
      let e : a ≡ b'*' = ground arith in
      let (older, h0, h1, h2, h3) = skip_stars-any_suffix (b'*' ∷ mb) m n in
      rw (e, glob-star b'*' m refl)
        (older, h0, h1 ∙ sym (any_suffix_twice (glob m) n), omega (arith, h2), h3)
  | inr other ↦ rw other (mb, refl, refl, omega arith, other)
]

scan_back-star : (mb : Bytes) → ¬ (scan_back b'*' mb ≡ false)
unfolding scan_back
scan_back-star [] h = cc
scan_back-star (b ∷ mb) h = cc

NoStars-NotStar : (m : Bytes) → NoStars m → NotStar m
NoStars-NotStar [] h = tt
NoStars-NotStar (a ∷ m) h = h.0

-- The scan back over the consumed bytes `seg`, which follow a star: it finds the star where only
-- `?` stand between, and else there is a byte between.
module _ (b : ℕ) (mb older : Bytes) where
  scan_found :
      (seg : Bytes)
      → b ∷ mb ≡ seg ++ b'*' ∷ older
      → NoStars seg
      → scan_back b mb ≡ true
      → Questions seg
  scan_found [] e ns h = tt
  scan_found (a ∷ seg) e ns h =
      let eb : b ≡ a = cc e in
      let em : mb ≡ seg ++ b'*' ∷ older = cc e in
      scan_back-Questions a seg older ns.0 ns.1 (rw (eb, em) at h)

  scan_missed :
      (seg : Bytes) → b ∷ mb ≡ seg ++ b'*' ∷ older → scan_back b mb ≡ false → 0 < length seg
  unfolding scan_back
  scan_missed [] e h =
      let eb : b ≡ b'*' = cc e in
      let em : mb ≡ older = cc e in absurd (scan_back-star older (rw (eb, em) at h))
  scan_missed (a ∷ seg) e h = omega arith

nil-ne-append : (seg older : Bytes) → ¬ ([] ≡ seg ++ b'*' ∷ older)
nil-ne-append [] older e = cc
nil-ne-append (a ∷ seg) older e = cc

-- `g` is the answer, and every rest of the mask in play is shorter than `k`.
module _ (g : Bool) (k : ℕ) where
  -- What the saved position means. `t` bounds the part of the name that is left to retry.
  pub record Held (t : ℕ) (pb p na mb m n : Bytes) : Type 0 where
    pub seg : Bytes
    pub older : Bytes
    pub star : pb ≡ b'*' ∷ older
    pub behind : mb ≡ seg ++ pb
    pub consumed : p ≡ put_back seg m
    pub no_stars : NoStars seg
    pub paired : length na ≡ length seg + length n
    pub whole : g ≡ any_suffix (glob p) na
    pub down : glob p na ≡ true → glob m n ≡ true
    pub now : glob m n ≡ true → g ≡ true
    pub later : g ≡ true → any_suffix (glob m) n ≡ true
    pub text_bound : length na ≤ t
    pub mask_bound : length p < k

  abbrev pub Inv : ℕ → Bytes → Bytes → Bytes → Saved → Type 0
  Inv t mb m n unset = (g ≡ glob m n) × (length n ≤ t)
  Inv t mb m n (saved pb p na) = Held t pb p na mb m n

  -- A fresh start after a star.
  pub Held-restart :
      {t : ℕ} (pb older p na : Bytes)
      → pb ≡ b'*' ∷ older
      → g ≡ any_suffix (glob p) na
      → length na ≤ t
      → length p < k
      → Held t pb p na pb p na
  Held-restart pb older p na s e ht hk = record {
    seg = [];
    older = older;
    star = s;
    behind = refl;
    consumed = refl;
    no_stars = tt;
    paired = omega arith;
    whole = e;
    down = λ h. h;
    now = λ h. e ∙ any_suffix_self (glob p) na h;
    later = λ h. sym e ∙ h;
    text_bound = ht;
    mask_bound = hk;
  }

  pub Held-advance :
      {t : ℕ} {pb p na mb n : Bytes} (a c : ℕ) (m : Bytes)
      → Held t pb p na mb (a ∷ m) (c ∷ n)
      → (a == b'*') ≡ false
      → accepts a c ≡ true
      → Held t pb p na (a ∷ mb) m n
  Held-advance {n} a c m h ns acc =
      let e = glob-letter a m ns in
      record {
        seg = a ∷ h.seg;
        older = h.older;
        star = h.star;
        behind = ap (λ x. a ∷ x) h.behind;
        consumed = h.consumed;
        no_stars = (ns, h.no_stars);
        paired = omega (arith, h.paired);
        whole = h.whole;
        down = λ q. first_byte-rest (glob m) a c n (rw e at (h.down q));
        now = λ q. h.now (rw e (first_byte-accepts (glob m) a c n acc q));
        later = λ q. any_suffix-first_byte (glob m) a c n (rw e at (h.later q));
        text_bound = h.text_bound;
        mask_bound = h.mask_bound;
      }

  -- The scan back from the end of the mask finds the star where only `?` follow it, and then there
  -- is enough of the name for them.
  pub Held-found :
      (t b c : ℕ) (mb n pb p na : Bytes)
      → Held t pb p na (b ∷ mb) [] (c ∷ n)
      → scan_back b mb ≡ true
      → g ≡ true
  Held-found t b c mb n pb p na h found =
      let seg? =
        scan_found b mb h.older h.seg (h.behind ∙ ap (λ x. h.seg ++ x) h.star) h.no_stars found in
      h.whole
      ∙ any_suffix-Questions p na (rw h.consumed (put_back-Questions h.seg [] seg? tt)) (
          omega
            (arith, h.paired, ap (λ (x : Bytes). length x) h.consumed, length-put_back h.seg []))

  -- Where it does not, some byte stands between the star and the end.
  pub Held-missed :
      (t b c : ℕ) (mb n pb p na : Bytes) (h : Held t pb p na (b ∷ mb) [] (c ∷ n))
      → scan_back b mb ≡ false
      → NotStar p × (0 < length p) × (0 < length h.seg)
  Held-missed t b c mb n pb p na h found =
      let seg+ = scan_missed b mb h.older h.seg (h.behind ∙ ap (λ x. h.seg ++ x) h.star) found in
      (
        rw h.consumed
            (NoStars-NotStar (put_back h.seg []) (put_back-NoStars h.seg [] h.no_stars tt)),
        omega (arith, seg+, ap (λ (x : Bytes). length x) h.consumed, length-put_back h.seg []),
        seg+,
      )

  -- The pointer into the mask stands behind the star.
  pub Held-not_nil : {t : ℕ} {pb p na m n : Bytes} → ¬ Held t pb p na [] m n
  Held-not_nil h = nil-ne-append h.seg h.older (h.behind ∙ ap (λ x. h.seg ++ x) h.star)

  pub Held-name_ended :
      {t : ℕ} {pb p na mb : Bytes} (a : ℕ) (m : Bytes)
      → Held t pb p na mb (a ∷ m) []
      → (a == b'*') ≡ false
      → g ≡ false
  Held-name_ended a m h ns = elim (Bool-cases g) [
    | inl e ↦ absurd (any_suffix-nil a m ns (h.later e))
    | inr e ↦ e
  ]
