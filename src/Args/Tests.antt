-- ===== src/Args/Tests.antt =====
-- `string_to_array` of src/parse.c on concrete texts.
use unirc_ircd.Prelude.{◌≡◌, refl, List, [], ◌∷◌}
use unirc_ircd.Chars.{Bytes}
use unirc_ircd.Args.{string_to_array}

-- ` a  :b c`
abbrev text : Bytes
text = 32 ∷ b'a' ∷ 32 ∷ 32 ∷ b':' ∷ b'b' ∷ 32 ∷ b'c' ∷ []

last_has_space : string_to_array text ≡ (b'a' ∷ []) ∷ (b'b' ∷ 32 ∷ b'c' ∷ []) ∷ []
unfolding string_to_array
last_has_space = refl

abbrev params : List Bytes
params = (b'a' ∷ b'b' ∷ []) ∷ (b'c' ∷ []) ∷ []
