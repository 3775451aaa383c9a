-- ===== src/Sjoin/Relay/Words.antt =====
-- The parameters that `channel_modes` of src/channel_mode.c writes, as words.
use unirc_ircd.Prelude.{
  ap, ℕ, ◌<◌, ◌≡◌, refl, sym, ◌∙◌, Bool, true, false, List, [], ◌∷◌, ◌++◌, append_assoc, append-nil,
  arith, ◌==◌, if◌then◌else◌, length,
}
use unirc_ircd.Chars.{Bytes}
use unirc_ircd.Modes.Types.{ChannelMode}
use unirc_ircd.Modes.Masks.Undo.{Without}
use unirc_ircd.Modes.Params.{is_decimal, print_int}
use unirc_ircd.Modes.Params.Print.{Digits, Numeral, print_int-Numeral}
use unirc_ircd.Modes.Show.{has_text, has_floodtime, spaced, at_pbuf}
use unirc_ircd.Sjoin.Members.{nick_words, put_first}

-- A word in front of a text.
pub nick_words-spaced :
    (c : ℕ) (s t : Bytes)
    → Without b' ' (c ∷ s)
    → nick_words (spaced (c ∷ s) ++ t) ≡ (c ∷ s) ∷ nick_words t
unfolding nick_words
nick_words-spaced c [] t (h, k) = rw h (first (nick_words t))
  where
    first : (ws : List Bytes) → put_first c (b' ' ∷ t) ws ≡ (c ∷ []) ∷ ws
    first [] = refl
    first (w ∷ ws) = refl
nick_words-spaced c (d ∷ s) t (h, k) =
    rw h (ap (put_first c (d ∷ s ++ b' ' ∷ t)) (nick_words-spaced d s t k) ∙ rw k.0 refl)

Digits-Without : (c : ℕ) (s : Bytes) → is_decimal c ≡ false → Digits s → Without c s
Digits-Without c [] h d = tt
Digits-Without c (e ∷ s) h (d, r) = (apart, Digits-Without c s h r)
  where
    apart : (e == c) ≡ false
    apart = ground (arith, h, d)

pub Numeral-Without : (c : ℕ) (s : Bytes) → is_decimal c ≡ false → Numeral s → Without c s
Numeral-Without c [] h n = absurd n
Numeral-Without c (d ∷ s) h n = Digits-Without c (d ∷ s) h n

-- A word with a space behind it.
pub spaced_word : (s : Bytes) → 0 < length s → Without b' ' s → nick_words (spaced s) ≡ s ∷ []
unfolding nick_words
spaced_word [] l h = absurd (omega (arith, l))
spaced_word (c ∷ s) l h =
    ap nick_words (sym (append-nil (spaced (c ∷ s)))) ∙ nick_words-spaced c s [] h

-- What stands at `pbuf`, as words.
pub pbuf_words :
    (m : ChannelMode) (fl : Bool)
    → has_floodtime m ≡ fl
    → nick_words (at_pbuf true m)
      ≡ nick_words (
          if fl
          then print_int m.msgs ++ b':' ∷ spaced (print_int m.per)
          else if has_text m.key
          then spaced m.key
          else if has_text m.forward
          then spaced m.forward
          else [])
unfolding at_pbuf
pbuf_words m fl e = ap nick_words (ground (arith, e))

append-Without : (c : ℕ) (s t : Bytes) → Without c s → Without c t → Without c (s ++ t)
append-Without c [] t h k = k
append-Without c (d ∷ s) t (e, h) k = (e, append-Without c s t h k)

not_empty : (s : Bytes) (c : ℕ) (t : Bytes) → 0 < length (s ++ c ∷ t)
not_empty [] c t = omega arith
not_empty (d ∷ s) c t = omega arith

pub flood_word :
    (a b : ℕ)
    → a < 99
    → b < 99
    → nick_words (print_int a ++ b':' ∷ spaced (print_int b))
      ≡ (print_int a ++ b':' ∷ print_int b) ∷ []
flood_word a b u v =
    let no_space : is_decimal b' ' ≡ false = refl in
    let front =
      Numeral-Without b' ' (print_int a) no_space (print_int-Numeral a (omega (arith, u))) in
    let back =
      Numeral-Without b' ' (print_int b) no_space (print_int-Numeral b (omega (arith, v))) in
    ap nick_words (sym (append_assoc (print_int a) (b':' ∷ print_int b) (b' ' ∷ [])))
    ∙ spaced_word (print_int a ++ b':' ∷ print_int b) (not_empty (print_int a) b':' (print_int b))
        (append-Without b' ' (print_int a) (b':' ∷ print_int b) front (refl, back))
