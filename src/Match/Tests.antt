-- ===== src/Match/Tests.antt =====
-- The functions of src/match.c on concrete strings.
use unirc_ircd.Prelude.{◌≡◌, refl, true, false, [], ◌∷◌, arith}
use unirc_ircd.Chars.{Bytes, to_lower}
use unirc_ircd.Match.{match, match_chan, returns, fault}
use unirc_ircd.Match.Reference.{glob}
use unirc_ircd.Match.Correct.{match-eq-glob}
use unirc_ircd.Match.Ncmp.{ircncmp}
use unirc_ircd.Match.Case.{irccmp, Compares, irccmp-Compares, collapse, match-collapse}

-- `**a?`, `bAac` and `bAad`
abbrev mask : Bytes
mask = b'*' ∷ b'*' ∷ b'a' ∷ b'?' ∷ []

abbrev name : Bytes
name = b'b' ∷ b'A' ∷ b'a' ∷ b'c' ∷ []

match_runs : match mask name ≡ returns true
unfolding match to_lower
match_runs = refl

match_refuses : match mask (b'b' ∷ b'c' ∷ []) ≡ returns false
unfolding match to_lower
match_refuses = refl

-- `#chan*` against `#channel`: `match` reads the `#` of the mask, `match_chan` compares it.
match_chan_runs : match_chan (b'#' ∷ b'c' ∷ b'*' ∷ []) (b'#' ∷ b'C' ∷ b'h' ∷ []) ≡ returns true
unfolding match_chan to_lower
match_chan_runs = refl

match-eq-glob_example : match mask name ≡ returns (glob mask name)
match-eq-glob_example = match-eq-glob mask name

irccmp-Compares_example : Compares (b'a' ∷ []) (b'A' ∷ []) (irccmp (b'a' ∷ []) (b'A' ∷ []))
irccmp-Compares_example =
    irccmp-Compares (b'a' ∷ []) (b'A' ∷ []) (omega arith, omega arith, tt)
      (omega arith, omega arith, tt)

match-collapse_example : match (collapse mask) name ≡ match mask name
match-collapse_example = match-collapse mask name

-- Two empty strings and a number above one.
ircncmp_empty : ircncmp [] [] 2 ≡ fault
unfolding ircncmp
ircncmp_empty = refl
