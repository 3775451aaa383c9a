-- ===== src/Modes/Send.antt =====
-- `send_mode_changes` and `send_cap_mode_changes` of src/channel_mode.c: the lines that tell of the changes.
-- What the two loops have in common is written once.
use unirc_ircd.Prelude.{
  ℕ, ◌+◌, Bool, true, false, not, ◌||◌, Option, none, some, List, [], ◌∷◌, ◌++◌, ◌==◌, ltb, leb,
  if◌then◌else◌, length,
}
use unirc_ircd.Chars.{Bytes}
use unirc_ircd.Modes.Types.{
  Dir, query, add, del, Arg, no_arg, text, key_buffer, forward_buffer, Mems, only_servers, Caps,
  no_caps, cap_ex, cap_ie, Change, Channel, maxmodeparams,
}
use unirc_ircd.Modes.Show.{spaced}
pub mod Reading
pub mod Room

abbrev pub ircd_bufsize : ℕ
ircd_bufsize = 512

abbrev pub modebuflen : ℕ
modebuflen = 200

abbrev pub ban_fudge : ℕ
ban_fudge = 10

-- A change that is sent: its letter, its direction and its argument.
abbrev pub Item : Type 0
Item = ℕ × Dir × Option Bytes

-- `modebuf`, `parabuf`, `nc`, `mc` and `dir`.
pub record Buffers : Type 0 where
  pub modebuf : Bytes
  pub parabuf : Bytes
  pub nc : ℕ
  pub mc : ℕ
  pub dir : Dir

abbrev pub fresh : Bytes → Buffers
fresh prefix = record { modebuf = prefix; parabuf = []; nc = 0; mc = 0; dir = query }

abbrev pub arglen : Option Bytes → ℕ
arglen none = 0
arglen (some arg) = length arg

abbrev pub is_full : Option Bytes → Buffers → Bool
is_full arg b =
    b.mc == maxmodeparams
    || ltb ircd_bufsize (arglen arg + length b.modebuf + length b.parabuf + 2)
    || leb modebuflen (arglen arg + length b.parabuf + ban_fudge)

abbrev pub same_dir : Dir → Dir → Bool
same_dir query query = true
same_dir add add = true
same_dir del del = true
same_dir _ _ = false

abbrev pub sign_of : Dir → ℕ
sign_of add = b'+'
sign_of _ = b'-'

abbrev pub signed_letter : Dir → ℕ → Dir → Bytes
signed_letter before letter dir =
    if same_dir before dir then letter ∷ [] else sign_of dir ∷ letter ∷ []

abbrev pub with_arg : Option Bytes → Bytes → Bytes
with_arg none buf = buf
with_arg (some arg) buf = buf ++ spaced arg

abbrev pub count_arg : Option Bytes → ℕ → ℕ
count_arg none mc = mc
count_arg (some arg) mc = mc + 1

unfoldable pub write : Item → Buffers → Buffers
write (letter, dir, arg) b = record {
  modebuf = b.modebuf ++ signed_letter b.dir letter dir;
  parabuf = with_arg arg b.parabuf;
  nc = b.nc + 1;
  mc = count_arg arg b.mc;
  dir = dir;
}

-- A line that is sent: `modebuf` and `parabuf`, if there is something in it.
abbrev pub Line : Type 0
Line = Bytes × Bytes

abbrev pub flush : Buffers → List Line → List Line
flush b rest = if b.nc == 0 then rest else (b.modebuf, b.parabuf) ∷ rest

-- The space at the end of the parameters goes.
unfoldable pub drop_space : Bytes → Bytes
drop_space [] = []
drop_space (c ∷ []) = if c == b' ' then [] else c ∷ []
drop_space (c ∷ d ∷ s) = c ∷ drop_space (d ∷ s)

abbrev pub last_line : Buffers → List Line
last_line b = if b.nc == 0 then [] else (b.modebuf, drop_space b.parabuf) ∷ []

-- The loop over the changes; `again` begins each line but the first.
unfoldable pub send_items : Bytes → List Item → Buffers → List Line
send_items again [] b = last_line b
send_items again ((letter, dir, arg) ∷ items) b =
    let full = is_full arg b in
    let rest =
      send_items again items (write (letter, dir, arg) (if full then fresh again else b)) in
    if full then flush b rest else rest

-- What a pointer to an argument leads to when the change is sent.
abbrev pub arg_text : Channel → Arg → Option Bytes
arg_text ch no_arg = none
arg_text ch (text s) = some s
arg_text ch key_buffer = some ch.mode.key
arg_text ch forward_buffer = some ch.mode.forward

abbrev pub for_servers : Mems → Bool
for_servers only_servers = true
for_servers _ = false

unfoldable pub local_items : Channel → List Change → List Item
local_items ch [] = []
local_items ch (c ∷ cs) =
    let rest = local_items ch cs in
    if c.letter == 0 || for_servers c.mems
    then rest
    else (c.letter, c.dir, arg_text ch c.arg) ∷ rest

-- `send_mode_changes`, the lines for the members of the channel; `first` and `again` begin the first line
-- and the others.
unfoldable pub send_mode_changes : Bytes → Bytes → Channel → List Change → List Line
send_mode_changes first again ch [] = []
send_mode_changes first again ch (c ∷ cs) = send_items again (local_items ch (c ∷ cs)) (fresh first)

-- A combination of the capabilities `CAP_EX`, `CAP_IE` and `CAP_TS6` that servers have.
pub record CapCombo : Type 0 where
  pub ex : Bool
  pub ie : Bool
  pub ts6 : Bool

abbrev pub has_caps : CapCombo → Caps → Bool
has_caps cap no_caps = true
has_caps cap cap_ex = cap.ex
has_caps cap cap_ie = cap.ie

-- The identifier in place of the name, for servers that know it.
abbrev pub or_arg : Bytes → Option Bytes → Option Bytes
or_arg [] arg = arg
or_arg (c ∷ id) arg = some (c ∷ id)

abbrev pub arg_for : CapCombo → Option Bytes → Option Bytes → Option Bytes
arg_for cap none arg = arg
arg_for cap (some id) arg = if cap.ts6 then or_arg id arg else arg

unfoldable pub cap_items : CapCombo → Channel → List Change → List Item
cap_items cap ch [] = []
cap_items cap ch (c ∷ cs) =
    let rest = cap_items cap ch cs in
    if c.letter == 0 || not (has_caps cap c.caps)
    then rest
    else (c.letter, c.dir, arg_for cap c.id (arg_text ch c.arg)) ∷ rest

-- `send_cap_mode_changes`, the lines for the servers with a combination.
unfoldable pub send_cap_mode_changes : Bytes → Bytes → CapCombo → Channel → List Change → List Line
send_cap_mode_changes first again cap ch changes =
    send_items again (cap_items cap ch changes) (fresh first)
