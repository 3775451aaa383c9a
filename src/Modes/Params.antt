-- ===== src/Modes/Params.antt =====
-- The modes with a parameter of src/channel_mode.c: `chm_limit`, `chm_floodtime`, `chm_key` and
-- `chm_forward`, with `fix_key` and the like, and `atoi` and `strtoken`.
pub mod Print
use unirc_ircd.Prelude.{
  ℕ, zero, suc, ◌+◌, ◌-◌, ◌*◌, ◌/◌, ◌%◌, ◌^◌, Bool, true, false, not, ◌&&◌, ◌||◌, Option, none,
  some, List, [], ◌∷◌, map, ◌==◌, ltb, leb, if◌then◌else◌, take, min,
}
use unirc_ircd.Chars.{Bytes}
use unirc_ircd.Channel.Types.{Config}
use unirc_ircd.Channel.Join.{check_channel_name}
use unirc_ircd.Modes.Types.{
  Dir, query, add, del, Arg, no_arg, text, key_buffer, forward_buffer, Change, ChannelMode, Env,
  Work, chaccess_halfop, err_chanoprivsneeded, plain, add_change, reply, deny,
}
use unirc_ircd.Modes.Masks.{split_on}

-- `atoi`, as `strtol` in 64 bits of which the low 32 are kept: 2 ^ 31 and more is a negative int.
abbrev pub is_decimal : ℕ → Bool
is_decimal c = leb b'0' c && leb c b'9'

unfoldable pub digits_from : ℕ → Bytes → ℕ
digits_from n [] = n
digits_from n (c ∷ s) =
    let rest = digits_from (n * 10 + (c - b'0')) s in if is_decimal c then rest else n

unfoldable pub skip_white : Bytes → Bytes
skip_white [] = []
skip_white (c ∷ s) =
    let rest = skip_white s in if c == b' ' || leb 9 c && leb c 13 then rest else c ∷ s

abbrev pub positive : ℕ → ℕ
positive n = min n (2 ^ 63 - 1) % 2 ^ 32

abbrev pub negative : ℕ → ℕ
negative n = (2 ^ 32 - min n (2 ^ 63) % 2 ^ 32) % 2 ^ 32

unfoldable pub signed : Bytes → ℕ
signed [] = 0
signed (c ∷ s) =
    if c == b'-'
    then negative (digits_from 0 s)
    else if c == b'+'
    then positive (digits_from 0 s)
    else positive (digits_from 0 (c ∷ s))

unfoldable pub atoi : Bytes → ℕ
atoi s = signed (skip_white s)

abbrev pub is_negative : ℕ → Bool
is_negative n = leb (2 ^ 31) n

-- `%d` of a number below 10 ^ fuel.
unfoldable pub decimal_from : ℕ → ℕ → Bytes → Bytes
decimal_from zero n acc = acc
decimal_from (suc fuel) n acc =
    let more = decimal_from fuel (n / 10) ((b'0' + n % 10) ∷ acc) in
    if ltb n 10 then (b'0' + n) ∷ acc else more

unfoldable pub print_int : ℕ → Bytes
print_int n = if is_negative n then b'-' ∷ decimal_from 10 (2 ^ 32 - n) [] else decimal_from 10 n []

-- The copy loop of `fix_key` and its kind: bytes without their high bit, of which some are kept, and the
-- string up to its first NUL.
unfoldable pub fix_with : (ℕ → Bool) → Bytes → Bytes
fix_with keep [] = []
fix_with keep (c ∷ s) =
    let rest = fix_with keep s in if keep (c % 128) then (c % 128) ∷ rest else rest

unfoldable pub up_to_nul : Bytes → Bytes
up_to_nul [] = []
up_to_nul (c ∷ s) = let rest = up_to_nul s in if c == 0 then [] else c ∷ rest

unfoldable pub fix_key : Bytes → Bytes
fix_key s = fix_with (λ c. not (c == b':') && ltb b' ' c && not (c == b',')) s

unfoldable pub fix_key_old : Bytes → Bytes
fix_key_old s =
    up_to_nul
      (fix_with (λ c. not (c == 0x0a) && not (c == b':') && not (c == 0x0d) && not (c == b',')) s)

unfoldable pub fix_forward : Bytes → Bytes
fix_forward s = fix_with (λ c. not (c == b':') && ltb b' ' c) s

unfoldable pub fix_forward_old : Bytes → Bytes
fix_forward_old s =
    up_to_nul (fix_with (λ c. not (c == 0x0a) && not (c == b':') && not (c == 0x0d)) s)

-- The tokens that `strtoken` makes of a text with commas.
abbrev pub put_head : ℕ → Bytes → List Bytes → List Bytes
put_head c [] rest = (c ∷ []) ∷ rest
put_head c (d ∷ s) [] = (c ∷ []) ∷ []
put_head c (d ∷ s) (t ∷ rest) = if d == b',' then (c ∷ []) ∷ t ∷ rest else (c ∷ t) ∷ rest

unfoldable pub tokens : Bytes → List Bytes
tokens [] = []
tokens (c ∷ s) = let rest = tokens s in if c == b',' then rest else put_head c s rest

-- `if(mode_changes[i].letter == c && mode_changes[i].dir == MODE_ADD) mode_changes[i].letter = 0`
abbrev pub is_add : Dir → Bool
is_add add = true
is_add _ = false

abbrev pub overridden : ℕ → Change → Change
overridden c change =
    if change.letter == c && is_add change.dir then record change { letter = 0 } else change

abbrev pub replace_change : ℕ → Arg → Work → Work
replace_change c arg w =
    add_change (plain c add arg) (record w { changes = map (overridden c) w.changes })

abbrev pub on_mode : (ChannelMode → ChannelMode) → Work → Work
on_mode f w = record w { chan = record (w.chan) { mode = f w.chan.mode } }

-- Each handler is split: from the test of the direction on, and what it does with its parameter.
unfoldable pub add_limit : ℕ → ℕ → Work → Work
add_limit c limit w =
    if limit == 0 || is_negative limit
    then w
    else on_mode (λ m. record m { limit = limit }) (replace_change c (text (print_int limit)) w)

abbrev pub next_param : (Bytes → Work → Work) → List Bytes → Work → Work
next_param use_it [] w = w
next_param use_it (p ∷ ps) w = use_it p (record w { params = ps })

abbrev pub skip_param : List Bytes → Work → Work
skip_param [] w = w
skip_param (p ∷ ps) w = record w { params = ps }

unfoldable pub limit_dir : Dir → ℕ → Work → Work
limit_dir query c w = w
limit_dir add c w = next_param (λ p. add_limit c (atoi p)) w.params w
limit_dir del c w =
    if w.chan.mode.limit == 0
    then w
    else add_change (plain c del no_arg) (on_mode (λ m. record m { limit = 0 }) w)

abbrev pub for_halfops : ℕ → (Work → Work) → Work → Work
for_halfops alev go w = if ltb alev chaccess_halfop then deny err_chanoprivsneeded alev w else go w

unfoldable pub chm_limit : ℕ → Dir → ℕ → Work → Work
chm_limit alev dir c w = for_halfops alev (limit_dir dir c) w

-- `xxi` and `xyi` are the numbers in front of the colon and behind it.
unfoldable pub add_floodtime : ℕ → Bytes → ℕ → ℕ → Work → Work
add_floodtime c whole xxi xyi w =
    if ltb 99 xxi && not (is_negative xxi)
      || ltb 99 xyi && not (is_negative xyi)
      || (leb xxi 1 || is_negative xxi)
      || xyi == 0
    then w
    else on_mode (λ m. record m { msgs = xxi; per = xyi }) (replace_change c (text whole) w)

abbrev pub floodtime_param : ℕ → Bytes → Option (Bytes × Bytes) → Work → Work
floodtime_param c whole none w = w
floodtime_param c whole (some (msgs, per)) w = add_floodtime c whole (atoi msgs) (atoi per) w

unfoldable pub floodtime_dir : Dir → ℕ → Work → Work
floodtime_dir query c w = w
floodtime_dir add c w = next_param (λ p. floodtime_param c p (split_on b':' p)) w.params w
floodtime_dir del c w =
    if w.chan.mode.msgs == 0
    then w
    else add_change (plain c del no_arg) (on_mode (λ m. record m { msgs = 0; per = 0 }) w)

unfoldable pub chm_floodtime : ℕ → Dir → ℕ → Work → Work
chm_floodtime alev dir c w = for_halfops alev (floodtime_dir dir c) w

abbrev pub keylen : ℕ
keylen = 24

abbrev pub set_key : Bytes → ℕ → Work → Work
set_key [] c w = w
set_key (k ∷ key) c w =
    replace_change c key_buffer (on_mode (λ m. record m { key = take (keylen - 1) (k ∷ key) }) w)

abbrev pub clear_key : Bytes → ℕ → Work → Work
clear_key [] c w = w
clear_key (k ∷ key) c w =
    add_change (plain c del (text (b'*' ∷ []))) (on_mode (λ m. record m { key = [] }) w)

unfoldable pub key_dir : Env → Dir → ℕ → Work → Work
key_dir env query c w = w
key_dir env add c w =
    next_param (λ p. set_key (if env.source.my_client then fix_key p else fix_key_old p) c) w.params
      w
key_dir env del c w = clear_key w.chan.mode.key c (skip_param w.params w)

unfoldable pub chm_key : Env → ℕ → Dir → ℕ → Work → Work
chm_key env alev dir c w = for_halfops alev (key_dir env dir c) w

abbrev pub err_badchanname : ℕ
err_badchanname = 479

unfoldable pub all_good_names : Config → Bool → List Bytes → Bool
all_good_names conf local [] = true
all_good_names conf local (t ∷ ts) = check_channel_name conf t local && all_good_names conf local ts

abbrev pub forward_size : ℕ
forward_size = 128

abbrev pub set_forward : Env → Bytes → ℕ → Work → Work
set_forward env [] c w = w
set_forward env (f ∷ forward) c w =
    if all_good_names env.conf (not env.source.is_oper) (tokens (f ∷ forward))
    then replace_change c forward_buffer
        (on_mode (λ m. record m { forward = take (forward_size - 1) (f ∷ forward) }) w)
    else reply err_badchanname w

abbrev pub clear_forward : Bytes → ℕ → Work → Work
clear_forward [] c w = w
clear_forward (f ∷ forward) c w =
    add_change (plain c del (text [])) (on_mode (λ m. record m { forward = [] }) w)

unfoldable pub forward_dir : Env → Dir → ℕ → Work → Work
forward_dir env query c w = w
forward_dir env add c w =
    next_param
      (λ p. set_forward env (if env.source.my_client then fix_forward p else fix_forward_old p) c)
      w.params w
forward_dir env del c w = clear_forward w.chan.mode.forward c (skip_param w.params w)

unfoldable pub chm_forward : Env → ℕ → Dir → ℕ → Work → Work
chm_forward env alev dir c w = for_halfops alev (forward_dir env dir c) w
