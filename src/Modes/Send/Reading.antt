-- ===== src/Modes/Send/Reading.antt =====
-- What a reader of the lines of src/channel_mode.c makes of their letters.
use unirc_ircd.Prelude.{
  ap, ℕ, ◌≡◌, ◌≢◌, refl, sym, ◌∙◌, Option, List, [], ◌∷◌, ◌++◌, map, arith, ◌==◌, if-case,
  if◌then◌else◌, length, append_assoc, append-nil, drop,
}
use unirc_ircd.Chars.{Bytes}
use unirc_ircd.Modes.Types.{Dir, query, add, del}
use unirc_ircd.Modes.Send.{
  Item, Buffers, Line, fresh, write, flush, last_line, is_full, signed_letter, send_items,
}

-- A reader of the letters of a line: each with the direction of the last sign in front of it.
unfoldable pub read_letters : Dir → Bytes → List (Dir × ℕ)
read_letters dir [] = []
read_letters dir (c ∷ s) =
    if c == b'+'
    then read_letters add s
    else if c == b'-'
    then read_letters del s
    else (dir, c) ∷ read_letters dir s

unfoldable pub last_dir : Dir → Bytes → Dir
last_dir dir [] = dir
last_dir dir (c ∷ s) =
    if c == b'+' then last_dir add s else if c == b'-' then last_dir del s else last_dir dir s

abbrev pub read_lines : Bytes → List Line → List (Dir × ℕ)
read_lines prefix [] = []
read_lines prefix ((modebuf, parabuf) ∷ ls) =
    read_letters query (drop (length prefix) modebuf) ++ read_lines prefix ls

abbrev pub letter_of : Item → Dir × ℕ
letter_of (letter, dir, arg) = (dir, letter)

-- What can be recorded: a letter that is no sign, in one of two directions.
abbrev pub IsChange : Item → Type 0
IsChange (letter, dir, arg) = (letter ≢ b'+') × (letter ≢ b'-') × (dir ≢ query)

read_letters-append :
    (dir : Dir) (s t : Bytes)
    → read_letters dir (s ++ t) ≡ read_letters dir s ++ read_letters (last_dir dir s) t
unfolding read_letters last_dir
read_letters-append dir [] t = refl
read_letters-append dir (c ∷ s) t =
    grind
      (arith, read_letters-append add s t, read_letters-append del s t, read_letters-append dir s t)

last_dir-append : (dir : Dir) (s t : Bytes) → last_dir dir (s ++ t) ≡ last_dir (last_dir dir s) t
unfolding last_dir
last_dir-append dir [] t = refl
last_dir-append dir (c ∷ s) t =
    grind (arith, last_dir-append add s t, last_dir-append del s t, last_dir-append dir s t)

read_signed :
    (before : Dir) (letter : ℕ) (dir : Dir) (arg : Option Bytes)
    → IsChange (letter, dir, arg)
    → (read_letters before (signed_letter before letter dir) ≡ (dir, letter) ∷ [])
      × (last_dir before (signed_letter before letter dir) ≡ dir)
unfolding read_letters last_dir
read_signed before letter query arg (p, m, d) = absurd (d refl)
read_signed query letter add arg (p, m, d) = (ground arith, ground arith)
read_signed add letter add arg (p, m, d) = (ground arith, ground arith)
read_signed del letter add arg (p, m, d) = (ground arith, ground arith)
read_signed query letter del arg (p, m, d) = (ground arith, ground arith)
read_signed add letter del arg (p, m, d) = (ground arith, ground arith)
read_signed del letter del arg (p, m, d) = (ground arith, ground arith)

drop-prefix : (prefix m : Bytes) → drop (length prefix) (prefix ++ m) ≡ m
drop-prefix [] m = refl
drop-prefix (c ∷ prefix) m = drop-prefix prefix m

-- The letters that are in a buffer behind its beginning.
record Holds (prefix m : Bytes) (b : Buffers) : Type 0 where
  modebuf : b.modebuf ≡ prefix ++ m
  dir : last_dir query m ≡ b.dir
  none_yet : b.nc ≡ 0 → m ≡ []

abbrev pub EachIsChange : List Item → Type 0
EachIsChange [] = Unit {0}
EachIsChange (i ∷ is) = IsChange i × EachIsChange is

module _ (prefix : Bytes) where
  read_one :
      (m : Bytes) (b : Buffers)
      → Holds prefix m b
      → read_letters query (drop (length prefix) b.modebuf) ≡ read_letters query m
  read_one m b h = rw (h.modebuf) (rw (drop-prefix prefix m))

  last_line-Reads :
      (m : Bytes) (b : Buffers)
      → Holds prefix m b
      → read_lines prefix (last_line b) ≡ read_letters query m
  last_line-Reads m b h =
      if-case {A = List Line} (λ ls. read_lines prefix ls ≡ read_letters query m) (b.nc == 0)
        (λ e. rw (h.none_yet (ground arith)) (unfold read_letters in refl))
        (λ e. append-nil _ ∙ read_one m b h)

  flush-Reads :
      (m : Bytes) (b : Buffers) (rest : List Line)
      → Holds prefix m b
      → read_lines prefix (flush b rest) ≡ read_letters query m ++ read_lines prefix rest
  flush-Reads m b rest h =
      if-case {A = List Line}
        (λ ls. read_lines prefix ls ≡ read_letters query m ++ read_lines prefix rest) (b.nc == 0)
        (λ e. rw (h.none_yet (ground arith)) (unfold read_letters in refl))
        (λ e. rw (read_one m b h))

  write-Holds :
      (m : Bytes) (b : Buffers) (letter : ℕ) (dir : Dir) (arg : Option Bytes)
      → IsChange (letter, dir, arg)
      → Holds prefix m b
      → Holds prefix (m ++ signed_letter b.dir letter dir) (write (letter, dir, arg) b)
  unfolding write
  write-Holds m b letter dir arg change h = record {
    modebuf = rw (h.modebuf) (append_assoc prefix m (signed_letter b.dir letter dir));
    dir =
        last_dir-append query m (signed_letter b.dir letter dir)
        ∙ (rw (h.dir) ((read_signed b.dir letter dir arg change).1));
    none_yet = λ z. absurd (omega arith);
  }

  fresh-Holds : Holds prefix [] (fresh prefix)
  unfolding last_dir
  fresh-Holds = record { modebuf = sym (append-nil prefix); dir = refl; none_yet = λ z. refl }

  read_on :
      (m : Bytes) (b : Buffers) (letter : ℕ) (dir : Dir) (arg : Option Bytes)
      (rest : List (Dir × ℕ))
      → IsChange (letter, dir, arg)
      → Holds prefix m b
      → read_letters query (m ++ signed_letter b.dir letter dir) ++ rest
        ≡ read_letters query m ++ (dir, letter) ∷ rest
  read_on m b letter dir arg rest change h =
      ap (λ r. r ++ rest)
        (read_letters-append query m (signed_letter b.dir letter dir)
          ∙ rw (h.dir)
              (ap (λ r. read_letters query m ++ r) ((read_signed b.dir letter dir arg change).0)))
      ∙ append_assoc (read_letters query m) ((dir, letter) ∷ []) rest

  send_items-Reads :
      (items : List Item) (m : Bytes) (b : Buffers)
      → EachIsChange items
      → Holds prefix m b
      → read_lines prefix (send_items prefix items b) ≡ read_letters query m ++ map letter_of items
  unfolding send_items read_letters
  send_items-Reads [] m b change h = last_line-Reads m b h ∙ sym (append-nil (read_letters query m))
  send_items-Reads ((letter, dir, arg) ∷ items) m b (here, change) h =
      let after : (m1 : Bytes) (b1 : Buffers)
          → Holds prefix m1 b1
          → read_lines prefix (send_items prefix items (write (letter, dir, arg) b1))
            ≡ read_letters query m1 ++ (dir, letter) ∷ map letter_of items =
        λ m1 b1 h1.
          send_items-Reads items (m1 ++ signed_letter b1.dir letter dir)
            (write (letter, dir, arg) b1) change (write-Holds m1 b1 letter dir arg here h1)
          ∙ read_on m1 b1 letter dir arg (map letter_of items) here h1 in
      if-case {A = List Line}
        (λ ls. read_lines prefix ls ≡ read_letters query m ++ (dir, letter) ∷ map letter_of items)
        (is_full arg b)
        (λ e.
          flush-Reads m b _ h
          ∙ ap (λ r. read_letters query m ++ r) (rw e (after [] (fresh prefix) fresh-Holds)))
        (λ e. rw e (after m b h))

-- The lines that tell of changes leave none of them out and keep their order: the letters behind the beginning of each
-- line, each read with the direction of the last sign in front of it, are one line after the other those of
-- the changes, however the lines were filled. The letters of the changes are no signs, and their directions are
-- addition and removal.
pub send_items-read :
    (prefix : Bytes) (items : List Item)
    → EachIsChange items
    → read_lines prefix (send_items prefix items (fresh prefix)) ≡ map letter_of items
unfolding read_letters
send_items-read prefix items change =
    send_items-Reads prefix items [] (fresh prefix) change (fresh-Holds prefix)
