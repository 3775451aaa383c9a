-- ===== src/Match.antt =====
-- src/match.c, `match`, `match_esc` and `match_chan`: wild card matching by going back to the last
-- star. A pointer into the mask is the pair of the bytes before it, last first, and those from it on,
-- up to the NUL; a pointer into the name is the bytes from it on. The two functions run the same loop
-- and differ in how one position of the mask is compared with one byte of the name.
pub mod Reference
pub mod Invariant
pub mod Correct
pub mod Escape
pub mod Case
pub mod Ncmp
mod Tests
use Prim.Native.Nat.{ℕ, zero, suc, ◌+◌, ◌*◌}
use mathlib.Core.Bool.{Bool, true, false, not, ◌&&◌, ◌||◌}
use mathlib.Core.List.{List, [], ◌∷◌}
use unirc_ircd.Prelude.{◌==◌, if◌then◌else◌, length}
use unirc_ircd.Chars.{Bytes, to_lower, is_digit}

-- How a call ends: with the C return value, by reading or moving a pointer past the end of its
-- string, or (in the model only) without fuel.
pub data Outcome : Type 0 where
  returns : Bool → Outcome
  fault : Outcome
  out_of_fuel : Outcome

-- `ma` and `na`: NULL and unused, or the mask after the last star and the name to try it at.
pub data Saved : Type 0 where
  unset : Saved
  saved : Bytes → Bytes → Bytes → Saved

abbrev pub Round : Type 0
Round = Bytes → Bytes → Bytes → Saved → Outcome

-- What comparing the mask at its pointer with one byte decides: both move on (the pair is the new
-- mask pointer), a mismatch, or `return 0`.
pub data Verdict : Type 0 where
  advance : Bytes → Bytes → Verdict
  mismatch : Verdict
  refuse : Verdict

-- A comparison has the mask before the pointer, its byte, the mask after it, and the name's byte.
abbrev pub Compare : Type 0
Compare = Bytes → ℕ → Bytes → ℕ → Verdict

-- `while(*m == '*') m++;`
pub skip_stars : Bytes → Bytes → Bytes × Bytes
skip_stars mb [] = (mb, [])
skip_stars mb (a ∷ m) = if a == b'*' then skip_stars (a ∷ mb) m else (mb, a ∷ m)

-- `for(m--; m > mask && *m == '?'; m--);` and the test `*m == '*'` behind it
pub scan_back : ℕ → Bytes → Bool
scan_back a [] = a == b'*'
scan_back a (b ∷ mb) = if a == b'?' then scan_back b mb else a == b'*'

-- `if(!ma) return 0; m = ma; n = ++na;`, after which `next` goes on
pub retry : Round → Saved → Outcome
retry next unset = returns false
retry next (saved pb p []) = fault
retry next (saved pb p (_ ∷ na)) = next pb p na (saved pb p na)

pub conclude : Round → Verdict → Bytes → Saved → Outcome
conclude next (advance mb m) n sv = next mb m n sv
conclude next mismatch n sv = retry next sv
conclude next refuse n sv = returns false

-- The last `if` of the loop. It is meant to be reached with both pointers on a byte.
pub compare_here : Compare → Round → Round
compare_here cmp next mb [] n sv = fault
compare_here cmp next mb (a ∷ m) [] sv = fault
compare_here cmp next mb (a ∷ m) (c ∷ n) sv = conclude next (cmp mb a m c) n sv

-- The branch `if(!*m)`. A mask that ended falls through to the comparison after its reset.
pub mask_ended : Compare → Round → Bytes → Bytes → Saved → Outcome
mask_ended cmp next mb [] sv = returns true
mask_ended cmp next mb (c ∷ n) unset = returns false
mask_ended cmp next [] (c ∷ n) (saved pb p na) = fault
mask_ended cmp next (b ∷ mb) (c ∷ n) (saved pb p na) =
    if scan_back b mb then returns true else retry (compare_here cmp next) (saved pb p na)

-- `while(*m == '*') m++; return (*m == 0);`
pub rest_is_stars : Bytes → Bool
rest_is_stars [] = true
rest_is_stars (a ∷ m) = if a == b'*' then rest_is_stars m else false

pub after_stars : Compare → Round → Round
after_stars cmp next mb [] n sv = mask_ended cmp next mb n sv
after_stars cmp next mb (a ∷ m) [] sv = returns (rest_is_stars (a ∷ m))
after_stars cmp next mb (a ∷ m) (c ∷ n) sv = compare_here cmp next mb (a ∷ m) (c ∷ n) sv

-- `if(*m == '*') { while(*m == '*') m++; ma = m; na = n; }`
pub note_star : Bytes → Bytes → Bytes → Saved → Bytes × Bytes × Saved
note_star mb [] n sv = (mb, [], sv)
note_star mb (a ∷ m) n sv =
    let (mb', m') = skip_stars mb (a ∷ m) in
    if a == b'*' then (mb', m', saved mb' m' n) else (mb, a ∷ m, sv)

pub loop : Compare → ℕ → Round
loop cmp zero mb m n sv = out_of_fuel
loop cmp (suc f) mb m n sv =
    let (mb', m', sv') = note_star mb m n sv in after_stars cmp (loop cmp f) mb' m' n sv'

abbrev pub fuel_for : Bytes → Bytes → ℕ
fuel_for mask name = (length name + 1) * (length mask + 1) + length mask + 1

-- `ToLower(*m) != ToLower(*n) && *m != '?' && (*m != '#' || !IsDigit(*n))`, the other way round
pub accepts : ℕ → ℕ → Bool
accepts a c = to_lower a == to_lower c || a == b'?' || (a == b'#' && is_digit c)

pub compare_plain : Compare
compare_plain mb a m c = if accepts a c then advance (a ∷ mb) m else mismatch

-- `if(*m == '\\') if(!*++m) return 0;` and the test of equality
pub compare_letter : Compare
compare_letter mb a m c = if to_lower a == to_lower c then advance (a ∷ mb) m else mismatch

pub compare_escaped : Compare
compare_escaped mb a [] c = refuse
compare_escaped mb a (b ∷ m) c = compare_letter (a ∷ mb) b m c

-- `if(*m != '?' && (*m != '#' || IsDigit(*n)))`: an escape or a letter, otherwise any byte goes
pub compare_esc : Compare
compare_esc mb a m c =
    if not (a == b'?') && (not (a == b'#') || is_digit c)
    then if a == 92 then compare_escaped mb a m c else compare_letter mb a m c
    else advance (a ∷ mb) m

unfoldable pub match : Bytes → Bytes → Outcome
unfolding loop note_star skip_stars after_stars mask_ended scan_back retry conclude compare_here
    rest_is_stars compare_plain accepts
match mask name = loop compare_plain (fuel_for mask name) [] mask name unset

unfoldable pub match_esc : Bytes → Bytes → Outcome
unfolding loop note_star skip_stars after_stars mask_ended scan_back retry conclude compare_here
    rest_is_stars compare_esc compare_escaped compare_letter
match_esc mask name = loop compare_esc (fuel_for mask name) [] mask name unset

-- `match_chan`: a leading `#` of the mask stands for itself.
unfoldable pub match_chan : Bytes → Bytes → Outcome
unfolding match_esc
match_chan [] name = match_esc [] name
match_chan (a ∷ mask) [] = if a == b'#' then returns false else match_esc (a ∷ mask) []
match_chan (a ∷ mask) (c ∷ name) =
    if a == b'#'
    then if c == b'#' then match_esc mask name else returns false
    else match_esc (a ∷ mask) (c ∷ name)
