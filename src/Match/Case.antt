-- ===== src/Match/Case.antt =====
-- src/match.c, `irccmp`, `collapse` and `collapse_esc`, and the case tables.
use unirc_ircd.Prelude.{
  ℕ, zero, suc, ◌<◌, ◌≡◌, refl, sym, ◌∙◌, ap, ◌↔◌, ◌⊎◌, ◌≢◌, Bool, true, false, not, [], ◌∷◌, map,
  arith, ◌==◌, if◌then◌else◌, ==_iff, Bool-cases, inl, inr, ◌&&◌, all_below, all_below_sound,
}
use mathlib.Core.Path.{fun_ext}
use unirc_ircd.Match.{Outcome, returns, fault, match}
use unirc_ircd.Chars.{Bytes, to_lower, to_upper}
use unirc_ircd.Match.Reference.{any_suffix_twice, glob}
use unirc_ircd.Match.Invariant.{glob-star, glob-letter}
use unirc_ircd.Match.Correct.{match-eq-glob}
use unirc_ircd.Match.Escape.{IsPlain}

-- `irccmp`: it returns false, C's 0, for equal strings. The NUL of a shorter string is a byte to
-- compare, and going on behind it is a fault.
unfoldable pub irccmp : Bytes → Bytes → Outcome
irccmp [] [] = returns false
irccmp [] (d ∷ t) = if to_upper 0 == to_upper d then returns false else returns true
irccmp (c ∷ s) [] = if to_upper c == to_upper 0 then fault else returns true
irccmp (c ∷ s) (d ∷ t) = if to_upper c == to_upper d then irccmp s t else returns true

abbrev pub NoNul : Bytes → Type 0
NoNul [] = Unit {0}
NoNul (c ∷ s) = (0 < c) × (c < 256) × NoNul s

nul_table : all_below 255 (λ c. not (to_upper 0 == to_upper (suc c))) ≡ true
unfolding to_upper
nul_table = refl

pub to_upper-nul : (c : ℕ) → 0 < c → c < 256 → (to_upper 0 == to_upper c) ≡ false
to_upper-nul zero h k = elim h [ ]
to_upper-nul (suc c) h k = ground (
  arith,
  all_below_sound 255 (λ d. not (to_upper 0 == to_upper (suc d))) c nul_table (omega arith),
)

fold_table :
    all_below 256 (λ c. to_lower (to_upper c) == to_lower c && to_upper (to_lower c) == to_upper c)
    ≡ true
unfolding to_lower to_upper
fold_table = refl

-- Two bytes are equal in lower case exactly when they are in upper case, so `match` and `irccmp` fold
-- case alike.
pub to_lower_iff-to_upper :
    (c d : ℕ) → c < 256 → d < 256 → (to_lower c ≡ to_lower d) ↔ (to_upper c ≡ to_upper d)
to_lower_iff-to_upper c d hc hd =
    let test : ℕ → Bool =
      λ b. to_lower (to_upper b) == to_lower b && to_upper (to_lower b) == to_upper b in
    let tc = all_below_sound 256 test c fold_table hc in
    let td = all_below_sound 256 test d fold_table hd in
    (λ e. ground (arith, tc, td, ap to_upper e), λ e. ground (arith, tc, td, ap to_lower e))

abbrev pub Compares : Bytes → Bytes → Outcome → Type 0
Compares s t o =
    ((o ≡ returns false) × (map to_upper s ≡ map to_upper t))
    ⊎ ((o ≡ returns true) × (map to_upper s ≢ map to_upper t))

pub cons_head : {x y : ℕ} {s t : Bytes} → x ∷ s ≡ y ∷ t → x ≡ y
cons_head e = cc e

pub Compares-cons :
    (c d : ℕ) (s t : Bytes) (o : Outcome)
    → to_upper c ≡ to_upper d
    → Compares s t o
    → Compares (c ∷ s) (d ∷ t) o
Compares-cons c d s t o e (inl (h, k)) = inl (h, cc (e, k))
Compares-cons c d s t o e (inr (h, k)) = inr (h, λ q. k (cc q))

-- For strings of bytes that are not NUL, `irccmp` stops without reading behind a NUL, with 0 if the
-- strings are equal in upper case and with 1 if they are not.
pub irccmp-Compares : (s t : Bytes) → NoNul s → NoNul t → Compares s t (irccmp s t)
unfolding irccmp
irccmp-Compares [] [] hs ht = inl (refl, refl)
irccmp-Compares [] (d ∷ t) hs ht = rw (to_upper-nul d ht.0 ht.1) (inr (refl, λ e. cc))
irccmp-Compares (c ∷ s) [] hs ht = inr (ground (arith, to_upper-nul c hs.0 hs.1), λ e. cc)
irccmp-Compares (c ∷ s) (d ∷ t) hs ht = elim (Bool-cases (to_upper c == to_upper d)) [
  | inl same ↦
      rw same (Compares-cons c d s t _ ((==_iff _ _).0 same) (irccmp-Compares s t hs.2 ht.2))
  | inr other ↦ rw other (inr (refl, λ e. ground (arith, other, cons_head e)))
]

-- `collapse`: a star is copied only if no star follows it.
pub collapse : Bytes → Bytes
collapse [] = []
collapse (c ∷ []) = c ∷ []
collapse (c ∷ d ∷ p) =
    let rest = collapse (d ∷ p) in
    if not (c == b'*') then c ∷ rest else if not (d == b'*') then b'*' ∷ rest else rest

-- `collapse_esc`: the byte behind a backslash is copied as it is.
pub collapse_esc : Bytes → Bytes
collapse_esc [] = []
collapse_esc (c ∷ []) = c ∷ []
collapse_esc (c ∷ d ∷ p) =
    let rest = collapse_esc (d ∷ p) in
    let behind = collapse_esc p in
    if not (c == b'*')
    then if c == 92 then c ∷ d ∷ behind else c ∷ rest
    else if not (d == b'*')
    then b'*' ∷ rest
    else rest

collapse_meaning : (p : Bytes) → glob (collapse p) ≡ glob p
unfolding collapse
collapse_meaning [] = refl
collapse_meaning (c ∷ []) = refl
collapse_meaning (c ∷ d ∷ p) = elim (Bool-cases (c == b'*')) [
  | inr letter ↦ rw (
    letter,
    glob-letter c (collapse (d ∷ p)) letter,
    glob-letter c (d ∷ p) letter,
    collapse_meaning (d ∷ p),
  )
  | inl star ↦ elim (Bool-cases (d == b'*')) [
    | inr letter ↦ rw (
      star,
      letter,
      glob-star b'*' (collapse (d ∷ p)) refl,
      glob-star c (d ∷ p) star,
      collapse_meaning (d ∷ p),
    )
    | inl second ↦
        rw (star, second, collapse_meaning (d ∷ p), glob-star c (d ∷ p) star, glob-star d p second)
          (fun_ext (λ s. sym (any_suffix_twice (glob p) s)))
  ]
]

-- `match` gives the same answer for a mask and for the mask collapsed, for every name.
pub match-collapse : (mask name : Bytes) → match (collapse mask) name ≡ match mask name
match-collapse mask name =
    match-eq-glob (collapse mask) name
    ∙ ap (λ (f : Bytes → Bool). returns (f name)) (collapse_meaning mask)
    ∙ sym (match-eq-glob mask name)

-- No two stars stand side by side.
abbrev pub NoDoubleStar : Bytes → Type 0
NoDoubleStar [] = Unit {0}
NoDoubleStar (c ∷ []) = Unit {0}
NoDoubleStar (c ∷ d ∷ p) = ((c == b'*' && d == b'*') ≡ false) × NoDoubleStar (d ∷ p)

NoDoubleStar-cons :
    (c : ℕ) (p : Bytes) → (c == b'*') ≡ false → NoDoubleStar p → NoDoubleStar (c ∷ p)
NoDoubleStar-cons c [] h k = tt
NoDoubleStar-cons c (d ∷ p) h k = (ground (arith, h), k)

collapse-letter :
    (d : ℕ) (p : Bytes) → (d == b'*') ≡ false → (t : Bytes) × (collapse (d ∷ p) ≡ d ∷ t)
unfolding collapse
collapse-letter d [] h = ([], refl)
collapse-letter d (e ∷ p) h = (collapse (e ∷ p), rw h)

-- What `collapse` leaves has no two stars side by side.
pub collapse-NoDoubleStar : (p : Bytes) → NoDoubleStar (collapse p)
unfolding collapse
collapse-NoDoubleStar [] = tt
collapse-NoDoubleStar (c ∷ []) = tt
collapse-NoDoubleStar (c ∷ d ∷ p) = elim (Bool-cases (c == b'*')) [
  | inr letter ↦ rw letter (NoDoubleStar-cons c _ letter (collapse-NoDoubleStar (d ∷ p)))
  | inl star ↦ elim (Bool-cases (d == b'*')) [
    | inr letter ↦
        let (t, e) = collapse-letter d p letter in
        rw (star, letter, e) (letter, rw e at (collapse-NoDoubleStar (d ∷ p)))
    | inl second ↦ rw (star, second) (collapse-NoDoubleStar (d ∷ p))
  ]
]

-- Without a backslash `collapse_esc` collapses as `collapse` does.
pub collapse_esc-eq-collapse : (p : Bytes) → IsPlain p → collapse_esc p ≡ collapse p
unfolding collapse collapse_esc
collapse_esc-eq-collapse [] h = refl
collapse_esc-eq-collapse (c ∷ []) h = refl
collapse_esc-eq-collapse (c ∷ d ∷ p) h = ground (arith, collapse_esc-eq-collapse (d ∷ p) h.2)
