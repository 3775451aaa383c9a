-- ===== src/Match/Escape.antt =====
-- `match_esc` (src/match.c) against `match`: equal on masks with no escape and no `#`, and where the
-- two part.
use unirc_ircd.Prelude.{
  ℕ, zero, suc, ◌<◌, ◌≡◌, refl, ◌∙◌, ap, true, false, not, [], ◌∷◌, arith, ◌==◌, Bool-cases, inl,
  inr, ◌&&◌, ◌||◌, all_below, all_below_sound, ◌-◌,
}
use unirc_ircd.Chars.{Bytes, to_lower, is_digit}
use unirc_ircd.Match.{
  Outcome, returns, Saved, unset, saved, Round, skip_stars, retry, conclude, compare_here,
  mask_ended, after_stars, note_star, loop, accepts, compare_plain, compare_esc, compare_letter,
  match, match_esc, fuel_for,
}
use unirc_ircd.Match.Reference.{glob}
use unirc_ircd.Match.Correct.{match-eq-glob}

-- No escape and no `#`.
abbrev pub IsPlain : Bytes → Type 0
IsPlain [] = Unit {0}
IsPlain (a ∷ m) = ((a == 92) ≡ false) × ((a == b'#') ≡ false) × IsPlain m

abbrev SavedPlain : Saved → Type 0
SavedPlain unset = Unit {0}
SavedPlain (saved pb p na) = IsPlain p

compare_esc-plain :
    (mb m : Bytes) (a c : ℕ)
    → (a == 92) ≡ false
    → (a == b'#') ≡ false
    → compare_esc mb a m c ≡ compare_plain mb a m c
unfolding compare_esc compare_plain compare_letter accepts
compare_esc-plain mb m a c h k = ground (arith, h, k)

skip_stars-IsPlain : (mb m : Bytes) → IsPlain m → IsPlain (skip_stars mb m).1
unfolding skip_stars
skip_stars-IsPlain mb [] h = tt
skip_stars-IsPlain mb (a ∷ m) h = ground (arith, skip_stars-IsPlain (a ∷ mb) m h.2)

-- One round gives the same, where the rounds after it do.
module _ (next next' : Round)
    (ih : (mb m n : Bytes) (sv : Saved)
      → IsPlain m
      → SavedPlain sv
      → next mb m n sv ≡ next' mb m n sv) where
  retry-plain : (sv : Saved) → SavedPlain sv → retry next sv ≡ retry next' sv
  unfolding retry
  retry-plain unset h = refl
  retry-plain (saved pb p []) h = refl
  retry-plain (saved pb p (c ∷ na)) h = ih pb p na (saved pb p na) h h

  compare_here-plain :
      (mb m n : Bytes) (sv : Saved)
      → IsPlain m
      → SavedPlain sv
      → compare_here compare_esc next mb m n sv ≡ compare_here compare_plain next' mb m n sv
  unfolding compare_here conclude compare_plain
  compare_here-plain mb [] n sv h k = refl
  compare_here-plain mb (a ∷ m) [] sv h k = refl
  compare_here-plain mb (a ∷ m) (c ∷ n) sv h k =
      rw (compare_esc-plain mb m a c h.0 h.1) (elim (Bool-cases (accepts a c)) [
        | inl e ↦ rw e (ih (a ∷ mb) m n sv h.2 k)
        | inr e ↦ rw e (retry-plain sv k)
      ])

  mask_ended-plain :
      (mb n : Bytes) (sv : Saved)
      → SavedPlain sv
      → mask_ended compare_esc next mb n sv ≡ mask_ended compare_plain next' mb n sv
  unfolding mask_ended retry
  mask_ended-plain mb [] sv k = refl
  mask_ended-plain mb (c ∷ n) unset k = refl
  mask_ended-plain [] (c ∷ n) (saved pb p na) k = refl
  mask_ended-plain (b ∷ mb) (c ∷ n) (saved pb p []) k = refl
  mask_ended-plain (b ∷ mb) (c ∷ n) (saved pb p (d ∷ na)) k =
      rw (compare_here-plain pb p na (saved pb p na) k k)

  after_stars-plain :
      (mb m n : Bytes) (sv : Saved)
      → IsPlain m
      → SavedPlain sv
      → after_stars compare_esc next mb m n sv ≡ after_stars compare_plain next' mb m n sv
  unfolding after_stars
  after_stars-plain mb [] n sv h k = mask_ended-plain mb n sv k
  after_stars-plain mb (a ∷ m) [] sv h k = refl
  after_stars-plain mb (a ∷ m) (c ∷ n) sv h k = compare_here-plain mb (a ∷ m) (c ∷ n) sv h k

loop-plain :
    (f : ℕ) (mb m n : Bytes) (sv : Saved)
    → IsPlain m
    → SavedPlain sv
    → loop compare_esc f mb m n sv ≡ loop compare_plain f mb m n sv
unfolding loop note_star
loop-plain zero mb m n sv h k = refl
loop-plain (suc f) mb [] n sv h k =
    after_stars-plain (loop compare_esc f) (loop compare_plain f) (loop-plain f) mb [] n sv h k
loop-plain (suc f) mb (a ∷ m) n sv h k = elim (Bool-cases (a == b'*')) [
  | inl star ↦
      let h' = skip_stars-IsPlain mb (a ∷ m) h in
      rw star
        (after_stars-plain (loop compare_esc f) (loop compare_plain f) (loop-plain f) _ _ n _ h' h')
  | inr other ↦ rw other (
      after_stars-plain (loop compare_esc f) (loop compare_plain f) (loop-plain f) mb (a ∷ m) n sv h
        k)
]

-- On a mask with no `\` and no `#`, `match_esc` returns what the mask means, as `match` does, for
-- every name.
match_esc-eq-glob :
    (mask name : Bytes) → IsPlain mask → match_esc mask name ≡ returns (glob mask name)
match_esc-eq-glob mask name h = unfolded ∙ match-eq-glob mask name
  where
    unfolded : match_esc mask name ≡ match mask name
    unfolded = unfold match_esc match in loop-plain (fuel_for mask name) [] mask name unset h tt

hash_table : all_below 256 (λ c. not (to_lower b'#' == to_lower c && is_digit c)) ≡ true
unfolding to_lower is_digit
hash_table = refl

hash_is_no_digit : (c : ℕ) → c < 256 → (to_lower b'#' == to_lower c && is_digit c) ≡ false
hash_is_no_digit c h = ground (
  arith,
  all_below_sound 256 (λ d. not (to_lower b'#' == to_lower d && is_digit d)) c hash_table h,
)

-- On the mask `#` the two functions give opposite answers for every byte but `#` itself: `match`
-- takes the digits and `#`, `match_esc` takes every byte that is no digit.
match_esc-hash :
    (c : ℕ)
    → c < 256
    → (match_esc (b'#' ∷ []) (c ∷ []) ≡ returns (not (is_digit c)))
      × (match (b'#' ∷ []) (c ∷ []) ≡ returns (to_lower b'#' == to_lower c || is_digit c))
unfolding loop note_star skip_stars after_stars mask_ended retry conclude compare_here compare_plain
    accepts compare_esc compare_letter match match_esc
match_esc-hash c h = (ground (arith, hash_is_no_digit c h), ground arith)

escaped_star_run :
    (f c : ℕ) (name : Bytes)
    → loop compare_esc (suc (suc (suc f))) [] (b'*' ∷ 92 ∷ b'*' ∷ []) (b'*' ∷ c ∷ name) unset
      ≡ returns true
unfolding match_esc
escaped_star_run f c name = ground arith

-- The mask `*\*` means a name that ends in `*`, but `match_esc` accepts every name of two bytes or
-- more that begins with `*`: its scan back from the end of the mask takes the escaped star for a
-- wild card.
match_esc-escaped_star :
    (c : ℕ) (name : Bytes) → match_esc (b'*' ∷ 92 ∷ b'*' ∷ []) (b'*' ∷ c ∷ name) ≡ returns true
unfolding match_esc
match_esc-escaped_star c name = ap run three ∙ escaped_star_run (full - 3) c name
  where
    run : ℕ → Outcome
    run f = loop compare_esc f [] (b'*' ∷ 92 ∷ b'*' ∷ []) (b'*' ∷ c ∷ name) unset

    full : ℕ
    full = fuel_for (b'*' ∷ 92 ∷ b'*' ∷ []) (b'*' ∷ c ∷ name)

    three : full ≡ suc (suc (suc (full - 3)))
    three = omega arith
