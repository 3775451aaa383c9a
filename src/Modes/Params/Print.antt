-- ===== src/Modes/Params/Print.antt =====
-- The numbers that the modes of src/channel_mode.c are written with, read by `atoi`.
use unirc_ircd.Prelude.{
  ℕ, zero, suc, ◌+◌, ◌-◌, ◌*◌, ◌/◌, ◌%◌, ◌^◌, ◌<◌, ◌≤◌, ◌≡◌, refl, ap, ◌∙◌, true, false, ◌&&◌, ◌||◌,
  [], ◌∷◌, arith, ◌==◌, ltb, leb, Bool-cases, inl, inr,
}
use unirc_ircd.Chars.{Bytes}
use unirc_ircd.Modes.Params.{
  is_decimal, digits_from, skip_white, positive, signed, atoi, is_negative, decimal_from, print_int,
}

-- A text of digits.
abbrev pub Digits : Bytes → Type 0
Digits [] = Unit {0}
Digits (c ∷ s) = (is_decimal c ≡ true) × Digits s

-- At most one digit more than `rounds`.
abbrev Fits : ℕ → ℕ → Type 0
Fits zero n = n < 10
Fits (suc rounds) n = Fits rounds (n / 10)

digit-read :
    (k d : ℕ) (acc : Bytes)
    → d < 10
    → digits_from k ((b'0' + d) ∷ acc) ≡ digits_from (k * 10 + d) acc
unfolding digits_from
digit-read k d acc h =
    let is : is_decimal (b'0' + d) ≡ true = ground (arith, h) in
    let back : k * 10 + (b'0' + d - b'0') ≡ k * 10 + d = omega arith in
    rw is (ap (λ n. digits_from n acc) back)

decimal_from-small :
    (rounds n : ℕ) (acc : Bytes) → n < 10 → decimal_from (suc rounds) n acc ≡ (b'0' + n) ∷ acc
unfolding decimal_from
decimal_from-small rounds n acc h = ground (arith, h)

decimal_from-large :
    (rounds n : ℕ) (acc : Bytes)
    → 10 ≤ n
    → decimal_from (suc rounds) n acc ≡ decimal_from rounds (n / 10) ((b'0' + n % 10) ∷ acc)
unfolding decimal_from
decimal_from-large rounds n acc h = ground (arith, h)

digits_from-decimal_from :
    (rounds n : ℕ) (acc : Bytes)
    → Fits rounds n
    → digits_from 0 (decimal_from (suc rounds) n acc) ≡ digits_from n acc
digits_from-decimal_from zero n acc h =
    ap (digits_from 0) (decimal_from-small 0 n acc h)
    ∙ digit-read 0 n acc h
    ∙ ap (λ m. digits_from m acc) (omega arith)
digits_from-decimal_from (suc rounds) n acc h = elim (Bool-cases (ltb n 10)) [
  | inl e ↦
      let k : n < 10 = ground (arith, e) in
      ap (digits_from 0) (decimal_from-small (suc rounds) n acc k)
      ∙ digit-read 0 n acc k
      ∙ ap (λ m. digits_from m acc) (omega arith)
  | inr e ↦
      ap (digits_from 0) (decimal_from-large (suc rounds) n acc (ground (arith, e)))
      ∙ digits_from-decimal_from rounds (n / 10) ((b'0' + n % 10) ∷ acc) h
      ∙ digit-read (n / 10) (n % 10) acc (omega arith)
      ∙ ap (λ m. digits_from m acc) (omega arith)
]

-- A text of digits with a first one.
abbrev pub Numeral : Bytes → Type 0
Numeral [] = ⊥
Numeral (c ∷ s) = (is_decimal c ≡ true) × Digits s

decimal_from-Numeral :
    (rounds n : ℕ) (acc : Bytes)
    → Fits rounds n
    → Digits acc
    → Numeral (decimal_from (suc rounds) n acc)
decimal_from-Numeral zero n acc h d = rw (decimal_from-small 0 n acc h) (ground (arith, h), d)
decimal_from-Numeral (suc rounds) n acc h d = elim (Bool-cases (ltb n 10)) [
  | inl e ↦ rw (decimal_from-small (suc rounds) n acc (ground (arith, e))) (ground (arith, e), d)
  | inr e ↦
      rw (decimal_from-large (suc rounds) n acc (ground (arith, e)))
        (decimal_from-Numeral rounds (n / 10) ((b'0' + n % 10) ∷ acc) h (ground arith, d))
]

atoi-Numeral : (s : Bytes) → Numeral s → atoi s ≡ positive (digits_from 0 s)
unfolding atoi skip_white signed
atoi-Numeral [] h = absurd h
atoi-Numeral (c ∷ s) (d, r) =
    let white : (c == b' ' || (leb 9 c && leb c 13)) ≡ false = ground (arith, d) in
    let minus : (c == b'-') ≡ false = ground (arith, d) in
    let plus : (c == b'+') ≡ false = ground (arith, d) in rw white (rw minus (rw plus refl))

small-Fits : (n : ℕ) → n < 2 ^ 31 → Fits 9 n
small-Fits n h = omega (arith, h)

pub print_int-Numeral : (n : ℕ) → n < 2 ^ 31 → Numeral (print_int n)
unfolding print_int
print_int-Numeral n h =
    let no : is_negative n ≡ false = ground (arith, h) in
    rw no (decimal_from-Numeral 9 n [] (small-Fits n h) tt)

kept : (n : ℕ) → n < 2 ^ 31 → positive n ≡ n
kept n h = omega (arith, h)

pub atoi-print_int : (n : ℕ) → n < 2 ^ 31 → atoi (print_int n) ≡ n
unfolding print_int digits_from
atoi-print_int n h =
    let no : is_negative n ≡ false = ground (arith, h) in
    atoi-Numeral (print_int n) (print_int-Numeral n h)
    ∙ rw no (ap positive (digits_from-decimal_from 9 n [] (small-Fits n h)) ∙ kept n h)
