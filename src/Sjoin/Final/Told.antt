-- ===== src/Sjoin/Final/Told.antt =====
-- What those who are told of the change by modules/core/m_sjoin.c make of the modes.
use unirc_ircd.Prelude.{
  ap, ℕ, ◌≡◌, refl, ◌∙◌, Bool, true, false, not, ◌&&◌, ◌||◌, Option, none, some, List, [], ◌∷◌,
  ◌++◌, arith, ◌==◌, if◌then◌else◌, if-case, Bool-cases, inl, inr,
}
use unirc_ircd.Chars.{Bytes}
use unirc_ircd.Modes.Types.{Flag, bit, put_flag, ChannelMode}
use unirc_ircd.Modes.Show.{simple_letters, letter_if}
use unirc_ircd.Sjoin.Letters.{sjoin_flags, flag_of}
use unirc_ircd.Sjoin.Final.{under_sign, gone_letters, come_letters, set_final_mode}

-- A reader of letters with signs among them, from some simple modes on.
abbrev pub set_to : Option Flag → Bool → (Flag → Bool) → Flag → Bool
set_to none b m = m
set_to (some f) b m = put_flag f b m

unfoldable pub read_flags : Bool → Bytes → (Flag → Bool) → Flag → Bool
read_flags b [] m = m
read_flags b (c ∷ s) m =
    if c == b'+'
    then read_flags true s m
    else if c == b'-'
    then read_flags false s m
    else read_flags b s (set_to (flag_of sjoin_flags c) b m)

abbrev pub in_table : Flag → List (Flag × ℕ) → Bool
in_table g [] = false
in_table g ((f, c) ∷ fs) = bit g == bit f || in_table g fs

-- Each letter of a table is no sign, and read as its flag.
abbrev pub Reads : List (Flag × ℕ) → Type 0
Reads [] = Unit {0}
Reads ((f, c) ∷ fs) =
    ((c == b'+') ≡ false) × ((c == b'-') ≡ false) × (flag_of sjoin_flags c ≡ some f) × Reads fs

sjoin_flags-Reads : Reads sjoin_flags
unfolding flag_of
sjoin_flags-Reads = ground arith

bit_injective : (f g : Flag) → bit f ≡ bit g → f ≡ g
bit_injective f g h = ground (arith, h)

NoSign : Bytes → Type 0
NoSign [] = Unit {0}
NoSign (c ∷ s) = ((c == b'+') ≡ false) × ((c == b'-') ≡ false) × NoSign s

read_flags-append :
    (b : Bool) (s t : Bytes) (m : Flag → Bool)
    → NoSign s
    → read_flags b (s ++ t) m ≡ read_flags b t (read_flags b s m)
unfolding read_flags NoSign
read_flags-append b [] t m h = refl
read_flags-append b (c ∷ s) t m (p, q, h) =
    rw p (rw q (read_flags-append b s t (set_to (flag_of sjoin_flags c) b m) h))

simple_letters-NoSign :
    (p : Flag → Bool) (fs : List (Flag × ℕ)) → Reads fs → NoSign (simple_letters p fs)
unfolding simple_letters NoSign
simple_letters-NoSign p [] r = tt
simple_letters-NoSign p ((f, c) ∷ fs) (u, v, e, r) =
    if-case {A = Bytes} NoSign (p f) (λ h. (u, v, simple_letters-NoSign p fs r))
      (λ h. simple_letters-NoSign p fs r)

pub read_flags-simple_letters :
    (b : Bool) (p : Flag → Bool) (fs : List (Flag × ℕ)) (m : Flag → Bool) (g : Flag)
    → Reads fs
    → read_flags b (simple_letters p fs) m g ≡ (if p g && in_table g fs then b else m g)
unfolding simple_letters read_flags
read_flags-simple_letters b p [] m g r = ground arith
read_flags-simple_letters b p ((f, c) ∷ fs) m g (u, v, e, r) = elim (Bool-cases (p f)) [
  | inl h ↦
      rw h (rw u (rw v (rw e (read_flags-simple_letters b p fs (put_flag f b m) g r ∙ here h))))
  | inr h ↦ rw h (read_flags-simple_letters b p fs m g r ∙ absent h)
]
  where
    at : (bit g == bit f) ≡ true → p g ≡ p f
    at k = ap p (bit_injective g f (ground (arith, k)))

    here :
        p f ≡ true
        → (if p g && in_table g fs then b else put_flag f b m g)
          ≡ (if p g && (bit g == bit f || in_table g fs) then b else m g)
    here h = elim (Bool-cases (bit g == bit f)) [
      | inl k ↦ ground (arith, k, at k, h)
      | inr k ↦ ground (arith, k)
    ]

    absent :
        p f ≡ false
        → (if p g && in_table g fs then b else m g)
          ≡ (if p g && (bit g == bit f || in_table g fs) then b else m g)
    absent h = elim (Bool-cases (bit g == bit f)) [
      | inl k ↦ ground (arith, k, at k, h)
      | inr k ↦ ground (arith, k)
    ]

-- The letters of modes with a parameter are those of no flag.
others-read :
    (b l f k w : Bool) (m : Flag → Bool)
    → let s = letter_if l b'l' ++ (letter_if f b'f' ++ (letter_if k b'k' ++ letter_if w b'F')) in
      NoSign s × (read_flags b s m ≡ m)
unfolding read_flags NoSign flag_of
others-read b l f k w m = ground arith

letters-NoSign : (s t : Bytes) → NoSign s → NoSign t → NoSign (s ++ t)
unfolding NoSign
letters-NoSign [] t n k = k
letters-NoSign (c ∷ s) t (u, v, n) k = (u, v, letters-NoSign s t n k)

-- A part of the change: the letters of flags, and four of modes with a parameter.
part-read :
    (b : Bool) (p : Flag → Bool) (l f k w : Bool) (m : Flag → Bool)
    → let s =
        simple_letters p sjoin_flags
        ++ (letter_if l b'l' ++ (letter_if f b'f' ++ (letter_if k b'k' ++ letter_if w b'F'))) in
      NoSign s × (read_flags b s m ≡ read_flags b (simple_letters p sjoin_flags) m)
part-read b p l f k w m =
    let flags = simple_letters-NoSign p sjoin_flags sjoin_flags-Reads in
    let (n, skipped) = others-read b l f k w (read_flags b (simple_letters p sjoin_flags) m) in
    (
      letters-NoSign (simple_letters p sjoin_flags) _ flags n,
      read_flags-append b (simple_letters p sjoin_flags) _ m flags ∙ skipped,
    )

read_under :
    (b sign : Bool) (c : ℕ) (s : Bytes) (m : Flag → Bool)
    → ((t : Bytes) (k : Flag → Bool) → read_flags b (c ∷ t) k ≡ read_flags sign t k)
    → read_flags b (under_sign c s) m ≡ read_flags sign s m
unfolding read_flags
read_under b sign c [] m h = refl
read_under b sign c (d ∷ s) m h = h (d ∷ s) m

both_read :
    (s t : Bytes) (m : Flag → Bool)
    → NoSign s
    → read_flags true (under_sign b'-' s ++ under_sign b'+' t) m
      ≡ read_flags true t (read_flags false s m)
unfolding read_flags
both_read [] t m n = read_under true true b'+' t m (λ u k. refl)
both_read (d ∷ s) t m n =
    read_flags-append false (d ∷ s) (under_sign b'+' t) m n
    ∙ read_under false true b'+' t (read_flags false (d ∷ s) m) (λ u k. refl)

-- What is left of flags of `old` and `new`, once those that went and those that came are read.
gone_and_come :
    (old new t : Bool)
    → (if (new && not old) && t then true else (if (old && not new) && t then false else old))
      ≡ (if t then new else old)
gone_and_come true true true = refl
gone_and_come true true false = refl
gone_and_come true false true = refl
gone_and_come true false false = refl
gone_and_come false true true = refl
gone_and_come false true false = refl
gone_and_come false false true = refl
gone_and_come false false false = refl

-- A reader of the change that the members are told, who had the flags of the old modes, then has those of the new ones,
-- but for the flag of secure connections, which has no letter there and of which the reader keeps what it had.
pub set_final_mode-read :
    (new old : ChannelMode) (g : Flag)
    → read_flags true (set_final_mode new old).0 old.mode g
      ≡ (if in_table g sjoin_flags then new.mode g else old.mode g)
unfolding set_final_mode gone_letters come_letters
set_final_mode-read new old g =
    let gone : Flag → Bool = λ f. old.mode f && not (new.mode f) in
    let come : Flag → Bool = λ f. new.mode f && not (old.mode f) in
    let (n, minus) = part-read false gone _ _ _ _ old.mode in
    let (k, plus) =
      part-read true come _ _ _ _ (read_flags false (gone_letters old new) old.mode) in
    ap (λ r. r g) (both_read (gone_letters old new) (come_letters old new) old.mode n)
    ∙ ap (λ r. r g) plus
    ∙ read_flags-simple_letters true come sjoin_flags _ g sjoin_flags-Reads
    ∙ ap (λ b. if come g && in_table g sjoin_flags then true else b)
        (ap (λ r. r g) minus
          ∙ read_flags-simple_letters false gone sjoin_flags old.mode g sjoin_flags-Reads)
    ∙ gone_and_come (old.mode g) (new.mode g) (in_table g sjoin_flags)
