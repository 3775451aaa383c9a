-- ===== src/Modes/Show.antt =====
-- `channel_modes` of src/channel_mode.c: the modes of a channel as letters and parameters.
use unirc_ircd.Prelude.{
  ℕ, Bool, true, false, not, ◌&&◌, ◌||◌, List, [], ◌∷◌, ◌++◌, ◌==◌, if◌then◌else◌,
}
use unirc_ircd.Chars.{Bytes}
use unirc_ircd.Modes.Types.{
  Flag, private, secret, moderated, topic_limit, invite_only, no_privmsgs, reg_only, no_ctrl,
  oper_only, mod_reg, no_spam, bw_saver, no_notices, chan_reg, strip_color, no_flood, ChannelMode,
}
use unirc_ircd.Modes.Params.{print_int}

-- The table `flags`.
abbrev pub flags : List (Flag × ℕ)
flags =
    (bw_saver, b'B')
    ∷ (strip_color, b'C')
    ∷ (mod_reg, b'M')
    ∷ (no_notices, b'N')
    ∷ (oper_only, b'O')
    ∷ (reg_only, b'R')
    ∷ (no_spam, b'S')
    ∷ (no_ctrl, b'c')
    ∷ (invite_only, b'i')
    ∷ (moderated, b'm')
    ∷ (no_privmsgs, b'n')
    ∷ (private, b'p')
    ∷ (chan_reg, b'r')
    ∷ (secret, b's')
    ∷ (topic_limit, b't')
    ∷ (no_flood, b'd')
    ∷ []

unfoldable pub simple_letters : (Flag → Bool) → List (Flag × ℕ) → Bytes
simple_letters mode [] = []
simple_letters mode ((f, c) ∷ fs) =
    let rest = simple_letters mode fs in if mode f then c ∷ rest else rest

abbrev pub has_text : Bytes → Bool
has_text [] = false
has_text (c ∷ s) = true

abbrev pub letter_if : Bool → ℕ → Bytes
letter_if true c = c ∷ []
letter_if false c = []

abbrev pub has_floodtime : ChannelMode → Bool
has_floodtime m = not (m.msgs == 0) && not (m.per == 0)

unfoldable pub mode_letters : ChannelMode → Bytes
mode_letters m =
    b'+' ∷ simple_letters m.mode flags
    ++ letter_if (not (m.limit == 0)) b'l'
    ++ letter_if (has_text m.forward) b'F'
    ++ letter_if (has_text m.key) b'k'
    ++ letter_if (has_floodtime m) b'f'

abbrev pub spaced : Bytes → Bytes
spaced s = s ++ b' ' ∷ []

-- What stands at `pbuf` when the three that follow the limit have been written: each writes at the same place.
unfoldable pub at_pbuf : Bool → ChannelMode → Bytes
at_pbuf sees m =
    let forward : Bytes = if has_text m.forward && sees then spaced m.forward else [] in
    let key = if has_text m.key && (has_text forward || sees) then spaced m.key else forward in
    if has_floodtime m && sees then print_int m.msgs ++ b':' ∷ spaced (print_int m.per) else key

unfoldable pub mode_params : Bool → ChannelMode → Bytes
mode_params sees m =
    (if not (m.limit == 0) && sees then spaced (print_int m.limit) else []) ++ at_pbuf sees m

-- `channel_modes`; `sees` is for members, servers and services.
unfoldable pub channel_modes : Bool → ChannelMode → Bytes × Bytes
channel_modes sees m = (mode_letters m, mode_params sees m)
