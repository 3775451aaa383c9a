-- ===== src/Sjoin/Letters.antt =====
-- The modes in a SJOIN of modules/core/m_sjoin.c, read into a fresh `struct Mode`.
use unirc_ircd.Prelude.{
  ℕ, true, false, not, ◌-◌, ◌&&◌, ◌||◌, Option, none, some, List, [], ◌∷◌, ◌==◌, ltb, if◌then◌else◌,
  take,
}
use unirc_ircd.Chars.{Bytes}
use unirc_ircd.Modes.Types.{
  Flag, private, secret, moderated, topic_limit, invite_only, no_privmsgs, reg_only, no_ctrl,
  oper_only, mod_reg, no_spam, bw_saver, no_notices, chan_reg, strip_color, no_flood, put_flag,
  ChannelMode,
}
use unirc_ircd.Modes.Masks.{split_on}
use unirc_ircd.Modes.Params.{atoi, is_negative, keylen, forward_size}

-- The table `flags`, whose letters are also those of the switch in `ms_sjoin`.
abbrev pub sjoin_flags : List (Flag × ℕ)
sjoin_flags =
    (bw_saver, b'B')
    ∷ (strip_color, b'C')
    ∷ (mod_reg, b'M')
    ∷ (no_notices, b'N')
    ∷ (oper_only, b'O')
    ∷ (reg_only, b'R')
    ∷ (no_spam, b'S')
    ∷ (no_ctrl, b'c')
    ∷ (no_privmsgs, b'n')
    ∷ (topic_limit, b't')
    ∷ (secret, b's')
    ∷ (moderated, b'm')
    ∷ (invite_only, b'i')
    ∷ (private, b'p')
    ∷ (chan_reg, b'r')
    ∷ (no_flood, b'd')
    ∷ []

unfoldable pub flag_of : List (Flag × ℕ) → ℕ → Option Flag
flag_of [] c = none
flag_of ((f, d) ∷ fs) c = let rest = flag_of fs c in if c == d then some f else rest

abbrev pub no_modes : ChannelMode
no_modes = record { mode = λ f. false; limit = 0; key = []; forward = []; msgs = 0; per = 0 }

-- `args++; if(parc < 5 + args) return;`: the last parameter, the nicks, is not for modes.
abbrev pub after_param : ChannelMode → List Bytes → Option (ChannelMode × List Bytes)
after_param m [] = none
after_param m (p ∷ ps) = some (m, p ∷ ps)

-- `+f`; the numbers are those in front of the colon and behind it.
abbrev pub flood_param :
    ChannelMode → List Bytes → Option (Bytes × Bytes) → ChannelMode × Option (List Bytes)
flood_param m ps none = (m, none)
flood_param m ps (some (msgs, per)) =
    let xxi = atoi msgs in
    let xyi = atoi per in
    (
      if (ltb xxi 99 || is_negative xxi)
            && (ltb xyi 99 || is_negative xyi)
            && (not (xxi == 0) && not (is_negative xxi))
            && (not (xyi == 0) && not (is_negative xyi))
          then record m { msgs = xxi; per = xyi }
          else m,
      some ps,
    )

abbrev pub flood_next :
    List Bytes → ChannelMode × Option (List Bytes) → Option (ChannelMode × List Bytes)
flood_next all (m, none) = some (m, all)
flood_next all (m, some ps) = after_param m ps

abbrev pub set_by : Option Flag → ChannelMode → ChannelMode
set_by none m = m
set_by (some f) m = record m { mode = put_flag f true m.mode }

-- One letter, with the parameters that are left; there is one at least. `none` is a return.
unfoldable pub sjoin_letter : ℕ → List Bytes → ChannelMode → Option (ChannelMode × List Bytes)
sjoin_letter c [] m = none
sjoin_letter c (p ∷ ps) m =
    if c == b'F'
    then after_param (record m { forward = take (forward_size - 1) p }) ps
    else if c == b'f'
    then flood_next (p ∷ ps) (flood_param m ps (split_on b':' p))
    else if c == b'k'
    then after_param (record m { key = take (keylen - 1) p }) ps
    else if c == b'l'
    then after_param (record m { limit = atoi p }) ps
    else some (set_by (flag_of sjoin_flags c) m, p ∷ ps)

-- The loop over the letters: the modes, and the parameters behind those of the modes.
unfoldable pub sjoin_modes : Bytes → List Bytes → ChannelMode → Option (ChannelMode × List Bytes)
sjoin_modes [] ps m = some (m, ps)
sjoin_modes (c ∷ s) ps m = elim (sjoin_letter c ps m) [
  | none ↦ none
  | some (m1, ps1) ↦ sjoin_modes s ps1 m1
]
