-- ===== src/Modes/Send/Room.antt =====
-- How long the lines of src/channel_mode.c are.
use unirc_ircd.Prelude.{
  ℕ, ◌*◌, ◌+◌, ◌≤◌, ◌<◌, ◌≡◌, false, Option, none, some, List, [], ◌∷◌, arith, ◌==◌, if-case,
  if◌then◌else◌, length, length-append,
}
use unirc_ircd.Chars.{Bytes}
use unirc_ircd.Modes.Types.{Dir, query}
use unirc_ircd.Modes.Show.{spaced}
use unirc_ircd.Modes.Send.{
  arglen, Item, Buffers, Line, fresh, write, flush, last_line, is_full, with_arg, signed_letter,
  same_dir, drop_space, send_items,
}

-- The bytes in `modebuf` and in `parabuf`, without the NUL of each.
abbrev pub IsBounded : ℕ → Line → Type 0
IsBounded most (modebuf, parabuf) =
    (length modebuf ≤ 512) × (length modebuf ≤ most) × (length parabuf < 200)

abbrev InRoom : Buffers → Type 0
InRoom b = (length b.modebuf ≤ 512) × (length b.parabuf < 200)

abbrev pub ShortArg : Item → Type 0
ShortArg (letter, dir, none) = Unit {0}
ShortArg (letter, dir, some arg) = length arg ≤ 198

drop_space_short : (s : Bytes) → length (drop_space s) ≤ length s
unfolding drop_space
drop_space_short [] = omega arith
drop_space_short (c ∷ []) = ground arith
drop_space_short (c ∷ d ∷ s) = omega (arith, drop_space_short (d ∷ s))

signed_short :
    (before : Dir) (letter : ℕ) (dir : Dir) → length (signed_letter before letter dir) ≤ 2
signed_short before letter dir =
    if-case {A = Bytes} (λ s. length s ≤ 2) (same_dir before dir) (λ e. omega arith)
      (λ e. omega arith)

abbrev pub EachBounded : ℕ → List Line → Type 0
EachBounded most [] = Unit {0}
EachBounded most (l ∷ ls) = IsBounded most l × EachBounded most ls

-- A line has its beginning, and a sign and a letter for each change.
abbrev pub most_for : Bytes → List Item → ℕ
most_for prefix items = length prefix + 2 * length items

abbrev pub EachShort : List Item → Type 0
EachShort [] = Unit {0}
EachShort (i ∷ is) = ShortArg i × EachShort is

with_arg_short :
    (arg : Option Bytes) (letter : ℕ) (dir : Dir) (buf : Bytes)
    → ShortArg (letter, dir, arg)
    → length buf + arglen arg < 190
    → length (with_arg arg buf) < 200
with_arg_short none letter dir buf short h = omega arith
with_arg_short (some arg) letter dir buf short h =
    omega (arith, length-append buf (spaced arg), length-append arg (b' ' ∷ []))

alone :
    (arg : Option Bytes) (letter : ℕ) (dir : Dir)
    → ShortArg (letter, dir, arg)
    → length (with_arg arg []) < 200
alone none letter dir short = omega arith
alone (some arg) letter dir short = omega (arith, length-append arg (b' ' ∷ []))

not_full_lem :
    (arg : Option Bytes) (b : Buffers)
    → is_full arg b ≡ false
    → (length b.modebuf + 2 ≤ 512) × (length b.parabuf + arglen arg < 190)
not_full_lem arg b h = (ground arith, ground arith)

module _ (again : Bytes) (short_prefix : length again ≤ 510) where
  write-InRoom :
      (letter : ℕ) (dir : Dir) (arg : Option Bytes) (b : Buffers)
      → ShortArg (letter, dir, arg)
      → InRoom b
      → InRoom (write (letter, dir, arg) (if is_full arg b then fresh again else b))
  unfolding write
  write-InRoom letter dir arg b short room =
      if-case {A = Buffers} (λ r. InRoom (write (letter, dir, arg) r)) (is_full arg b)
        (λ e. (
          omega (
            arith,
            length-append again (signed_letter query letter dir),
            signed_short query letter dir,
          ),
          alone arg letter dir short,
        ))
        (λ e. (
          let (m, p) = not_full_lem arg b e in
              omega (
                arith,
                m,
                length-append b.modebuf (signed_letter b.dir letter dir),
                signed_short b.dir letter dir,
              ),
          with_arg_short arg letter dir b.parabuf short ((not_full_lem arg b e).1),
        ))

  write-most_for :
      (letter : ℕ) (dir : Dir) (arg : Option Bytes) (b : Buffers) (items : List Item) (most : ℕ)
      → most_for b.modebuf ((letter, dir, arg) ∷ items) ≤ most
      → most_for again ((letter, dir, arg) ∷ items) ≤ most
      → most_for (write (letter, dir, arg) (if is_full arg b then fresh again else b)).modebuf items
        ≤ most
  unfolding write
  write-most_for letter dir arg b items most here anew =
      if-case {A = Buffers} (λ r. most_for (write (letter, dir, arg) r).modebuf items ≤ most)
        (is_full arg b)
        (λ e. omega (
          arith,
          anew,
          length-append again (signed_letter query letter dir),
          signed_short query letter dir,
        ))
        (λ e. omega (
          arith,
          here,
          length-append b.modebuf (signed_letter b.dir letter dir),
          signed_short b.dir letter dir,
        ))

  last_line-IsBounded :
      (most : ℕ) (b : Buffers) → InRoom b → length b.modebuf ≤ most → EachBounded most (last_line b)
  last_line-IsBounded most b (m, p) l =
      if-case {A = List Line} (EachBounded most) (b.nc == 0) (λ e. tt)
        (λ e. ((m, l, omega (arith, p, drop_space_short b.parabuf)), tt))

  flush-IsBounded :
      (most : ℕ) (b : Buffers) (rest : List Line)
      → InRoom b
      → length b.modebuf ≤ most
      → EachBounded most rest
      → EachBounded most (flush b rest)
  flush-IsBounded most b rest (m, p) l fits =
      if-case {A = List Line} (EachBounded most) (b.nc == 0) (λ e. fits) (λ e. ((m, l, p), fits))

  send_items-IsBounded :
      (most : ℕ) (items : List Item) (b : Buffers)
      → EachShort items
      → InRoom b
      → most_for b.modebuf items ≤ most
      → most_for again items ≤ most
      → EachBounded most (send_items again items b)
  unfolding send_items
  send_items-IsBounded most [] b short room l anew =
      last_line-IsBounded most b room (omega (arith, l))
  send_items-IsBounded most ((letter, dir, arg) ∷ items) b (here, short) room l anew =
      let rest =
        send_items-IsBounded most items
          (write (letter, dir, arg) (if is_full arg b then fresh again else b)) short
          (write-InRoom letter dir arg b here room)
          (write-most_for letter dir arg b items most l anew) (omega (arith, anew)) in
      if-case {A = List Line} (EachBounded most) (is_full arg b)
        (λ e. flush-IsBounded most b _ room (omega (arith, l)) rest) (λ e. rest)

-- If no argument is longer than 198 bytes and what begins a line no longer than 510, each line that
-- tells of changes is at most 512 bytes long up to its parameters, and at most as long as its
-- beginning and two bytes for each change; `modebuf` has 512 bytes, so that it holds the line with its
-- NUL if that sum is below 512, and at most the NUL is written behind it otherwise. The parameters
-- are shorter than 200 bytes, so that they fit in `parabuf` with their NUL.
pub send_items-EachBounded :
    (prefix : Bytes) (items : List Item)
    → length prefix ≤ 510
    → EachShort items
    → EachBounded (most_for prefix items) (send_items prefix items (fresh prefix))
send_items-EachBounded prefix items short_prefix short =
    send_items-IsBounded prefix short_prefix (most_for prefix items) items (fresh prefix) short
      (omega arith, omega arith) (omega arith) (omega arith)
