-- ===== src/Sjoin/Final.antt =====
-- `set_final_mode` of modules/core/m_sjoin.c: the change of modes that the members are told.
pub mod Told
use unirc_ircd.Prelude.{ℕ, Bool, not, ◌&&◌, true, List, [], ◌∷◌, ◌++◌, ◌==◌, ltb, if◌then◌else◌}
use unirc_ircd.Chars.{Bytes}
use unirc_ircd.Modes.Types.{ChannelMode}
use unirc_ircd.Modes.Params.{print_int}
use unirc_ircd.Modes.Show.{simple_letters, has_text, letter_if, spaced}
use unirc_ircd.Sjoin.Letters.{sjoin_flags}
use unirc_ircd.Sjoin.Settle.{comes_before}

-- `strcmp(s, t)` is not 0.
abbrev pub differs : Bytes → Bytes → Bool
differs s t = if comes_before s t then true else comes_before t s

abbrev pub flood_differs : ChannelMode → ChannelMode → Bool
flood_differs old new =
    (not (new.msgs == 0) && not (old.msgs == new.msgs))
    && (not (new.per == 0) && not (old.per == new.per))
    && (ltb new.msgs 99 && ltb new.per 99)

unfoldable pub gone_letters : ChannelMode → ChannelMode → Bytes
gone_letters old new =
    simple_letters (λ f. old.mode f && not (new.mode f)) sjoin_flags
    ++ (letter_if (not (old.limit == 0) && new.limit == 0) b'l'
        ++ (letter_if
              ((not (old.msgs == 0) && new.msgs == 0) && (not (old.per == 0) && new.per == 0)) b'f'
            ++ (letter_if (has_text old.key && not (has_text new.key)) b'k'
                ++ letter_if (has_text old.forward && not (has_text new.forward)) b'F')))

unfoldable pub come_letters : ChannelMode → ChannelMode → Bytes
come_letters old new =
    simple_letters (λ f. new.mode f && not (old.mode f)) sjoin_flags
    ++ (letter_if (not (new.limit == 0) && not (old.limit == new.limit)) b'l'
        ++ (letter_if (flood_differs old new) b'f'
            ++ (letter_if (has_text new.key && differs old.key new.key) b'k'
                ++ letter_if (has_text new.forward && differs old.forward new.forward) b'F')))

-- The sign goes where no letter follows.
abbrev pub under_sign : ℕ → Bytes → Bytes
under_sign c [] = []
under_sign c (d ∷ s) = c ∷ d ∷ s

abbrev pub param_if : Bool → Bytes → Bytes
param_if b s = if b then spaced s else []

-- `modebuf` and `parabuf`.
unfoldable pub set_final_mode : ChannelMode → ChannelMode → Bytes × Bytes
set_final_mode new old = (
  under_sign b'-' (gone_letters old new) ++ under_sign b'+' (come_letters old new),
  param_if (has_text old.key && not (has_text new.key)) old.key
      ++ param_if (has_text old.forward && not (has_text new.forward)) old.forward
      ++ param_if (not (new.limit == 0) && not (old.limit == new.limit)) (print_int new.limit)
      ++ param_if (flood_differs old new) (print_int new.msgs ++ b':' ∷ print_int new.per)
      ++ param_if (has_text new.key && differs old.key new.key) new.key
      ++ param_if (has_text new.forward && differs old.forward new.forward) new.forward,
)
