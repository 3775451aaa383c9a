-- ===== src/Packet/Lines.antt =====
-- What a line is, with no counters: the bytes up to a CR or LF, behind leading spaces and line ends.
use unirc_ircd.Prelude.{
  ℕ, suc, ◌+◌, ◌-◌, ◌≤◌, ◌≡◌, refl, sym, Bool, true, false, ◌||◌, [], ◌∷◌, ◌==◌, if◌then◌else◌,
  length, drop, arith, zero, ap, ◌∙◌, Bool-cases, inl, inr,
}
use unirc_ircd.Chars.{Bytes, is_eol}

abbrev pub is_empty : ℕ → Bool
is_empty c = is_eol c || c == 32

unfoldable pub skip_empty : Bytes → Bytes
skip_empty [] = []
skip_empty (c ∷ s) = if is_empty c then skip_empty s else c ∷ s

-- The bytes before the first line end, and those from it on.
unfoldable pub until_eol : Bytes → Bytes × Bytes
until_eol [] = ([], [])
until_eol (c ∷ s) =
    let (line, rest) = until_eol s in if is_eol c then ([], c ∷ s) else (c ∷ line, rest)

-- A complete line, or none, and what is left: behind a line the empty bytes go too, and of an
-- incomplete line everything stays.
unfoldable pub split_line : Bytes → Bytes → Bytes × Bytes → Bytes × Bytes
split_line kept s (line, []) = ([], kept)
split_line kept s (line, c ∷ rest) = (line, skip_empty (c ∷ rest))

unfoldable pub next_line : Bytes → Bytes × Bytes
unfolding skip_empty until_eol split_line
next_line s = split_line (skip_empty s) s (until_eol (skip_empty s))

abbrev pub skipped : Bytes → ℕ
skipped s = length s - length (skip_empty s)

pub length-skip_empty-le : (s : Bytes) → length (skip_empty s) ≤ length s
unfolding skip_empty
length-skip_empty-le [] = omega arith
length-skip_empty-le (c ∷ s) = ground (arith, length-skip_empty-le s)

pub drop-skipped : (s : Bytes) → drop (skipped s) s ≡ skip_empty s
unfolding skip_empty
drop-skipped [] = refl
drop-skipped (c ∷ s) = elim (Bool-cases (is_empty c)) [
  | inl e ↦
      let n : length (c ∷ s) - length (skip_empty s) ≡ suc (skipped s) =
        omega (arith, length-skip_empty-le s) in
      rw (e, n) (drop-skipped s)
  | inr e ↦ let n : length (c ∷ s) - length (c ∷ s) ≡ 0 = omega arith in rw (e, n)
]

pub drop-until_eol : (s : Bytes) → drop (length (until_eol s).0) s ≡ (until_eol s).1
unfolding until_eol
drop-until_eol [] = refl
drop-until_eol (c ∷ s) = elim (Bool-cases (is_eol c)) [
  | inl e ↦ rw e
  | inr e ↦ rw e (drop-until_eol s)
]

pub length-until_eol : (s : Bytes) → length (until_eol s).0 + length (until_eol s).1 ≡ length s
unfolding until_eol
length-until_eol [] = refl
length-until_eol (c ∷ s) = ground (arith, length-until_eol s)

drop-nil : (k : ℕ) → drop {A = ℕ} k [] ≡ []
drop-nil zero = refl
drop-nil (suc k) = refl

pub drop-drop : (m n : ℕ) (s : Bytes) → drop m (drop n s) ≡ drop (n + m) s
drop-drop m zero s = ap (λ (k : ℕ). drop k s) {x = m} {y = 0 + m} (omega arith)
drop-drop zero (suc n) [] = sym (drop-nil (suc n + 0))
drop-drop (suc m) (suc n) [] = sym (drop-nil (suc n + suc m))
drop-drop m (suc n) (c ∷ s) =
    drop-drop m n s ∙ ap (λ (k : ℕ). drop k (c ∷ s)) {x = suc (n + m)} {y = suc n + m} (omega arith)

module _ (c : ℕ) (s : Bytes) where
  pub skip_empty-empty : is_empty c ≡ true → skip_empty (c ∷ s) ≡ skip_empty s
  unfolding skip_empty
  skip_empty-empty h = rw h

  pub skip_empty-other : is_empty c ≡ false → skip_empty (c ∷ s) ≡ c ∷ s
  unfolding skip_empty
  skip_empty-other h = rw h

  pub until_eol-eol : is_eol c ≡ true → until_eol (c ∷ s) ≡ ([], c ∷ s)
  unfolding until_eol
  until_eol-eol h = rw h

  pub until_eol-other :
      is_eol c ≡ false → until_eol (c ∷ s) ≡ (c ∷ (until_eol s).0, (until_eol s).1)
  unfolding until_eol
  until_eol-other h = rw h
