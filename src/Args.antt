-- ===== src/Args.antt =====
-- src/parse.c, `string_to_array`: the parameters of a message, without the first entry of `parv`, which
-- the caller sets.
pub mod Params
mod Tests
use unirc_ircd.Prelude.{ℕ, zero, suc, ◌-◌, Option, none, some, List, [], ◌∷◌, ◌==◌, if◌then◌else◌}
use unirc_ircd.Chars.{Bytes}

abbrev pub maxpara : ℕ
maxpara = 15

pub skip_spaces : Bytes → Bytes
skip_spaces [] = []
skip_spaces (c ∷ t) = if c == b' ' then skip_spaces t else c ∷ t

-- The text up to the first space, and what is behind that space, if there is one.
pub split_space : Bytes → Bytes × Option Bytes
split_space [] = ([], none)
split_space (c ∷ t) =
    let rest = split_space t in if c == b' ' then ([], some t) else (c ∷ rest.0, rest.1)

-- What follows the loop: a colon before the last parameter goes.
pub last_param : Bytes → Bytes
last_param [] = []
last_param (c ∷ p) = if c == b':' then p else c ∷ p

-- What follows a word: `next` has what is behind the space, and the same from its first byte that is
-- no space.
pub next_word : (Bytes → Bytes → List Bytes) → Bytes → Bytes → Bytes → List Bytes
next_word next word p [] = word ∷ []
next_word next word p (c ∷ t) = word ∷ next p (c ∷ t)

pub after_word : (Bytes → Bytes → List Bytes) → Bytes × Option Bytes → List Bytes
after_word next (word, none) = word ∷ []
after_word next (word, some p) = next_word next word p (skip_spaces p)

-- A round of the loop, at a byte.
pub arg_round : (Bytes → Bytes → List Bytes) → Bytes → List Bytes
arg_round next [] = [] ∷ []
arg_round next (c ∷ t) = if c == b':' then t ∷ [] else after_word next (split_space (c ∷ t))

-- The loop, where `x < MAXPARA - 1` will hold `rounds` times.
pub arg_loop : ℕ → Bytes → List Bytes
arg_loop zero buf = arg_round (λ p more. last_param p ∷ []) buf
arg_loop (suc rounds) buf = arg_round (λ p more. arg_loop rounds more) buf

unfoldable pub string_to_array : Bytes → List Bytes
unfolding arg_loop arg_round after_word next_word last_param split_space skip_spaces
string_to_array s = elim (skip_spaces s) [ [] ↦ [] | c ∷ t ↦ arg_loop (maxpara - 3) (c ∷ t) ]
