-- ===== src/Sjoin/Settle/Order.antt =====
-- `strcmp` of modules/core/m_sjoin.c as an order, and the later of two strings.
use unirc_ircd.Prelude.{
  ap, ℕ, ◌≡◌, refl, sym, ◌∙◌, false, [], ◌∷◌, arith, ◌==◌, ltb, if◌then◌else◌, Bool-cases, inl, inr,
}
use unirc_ircd.Chars.{Bytes}
use unirc_ircd.Sjoin.Settle.{comes_before, later, larger}

later-cons : (c : ℕ) (s t : Bytes) → later (c ∷ s) (c ∷ t) ≡ c ∷ later s t
unfolding comes_before
later-cons c s t = ground arith

later-cons_ne :
    (c d : ℕ) (s t : Bytes)
    → (c == d) ≡ false
    → later (c ∷ s) (d ∷ t) ≡ (if ltb d c then c ∷ s else d ∷ t)
unfolding comes_before
later-cons_ne c d s t h = ground (arith, h)

pub later_comm : (s t : Bytes) → later s t ≡ later t s
unfolding comes_before
later_comm [] [] = refl
later_comm [] (d ∷ t) = refl
later_comm (c ∷ s) [] = refl
later_comm (c ∷ s) (d ∷ t) = elim (Bool-cases (c == d)) [
  | inl e ↦
      let k : c ≡ d = ground (arith, e) in
      rw k (later-cons d s t ∙ ap (λ r. d ∷ r) (later_comm s t) ∙ sym (later-cons d t s))
  | inr e ↦ ground (arith, e)
]

later-nil : (t : Bytes) → later [] t ≡ t
unfolding comes_before
later-nil [] = refl
later-nil (d ∷ t) = refl

nil-later : (t : Bytes) → later t [] ≡ t
unfolding comes_before
nil-later [] = refl
nil-later (d ∷ t) = refl

pub later_assoc : (s t u : Bytes) → later (later s t) u ≡ later s (later t u)
unfolding comes_before
later_assoc [] t u = rw (later-nil t) (rw (later-nil (later t u)) refl)
later_assoc (c ∷ s) [] u = rw (later-nil u) refl
later_assoc (c ∷ s) (d ∷ t) [] = rw (nil-later (later (c ∷ s) (d ∷ t))) refl
later_assoc (c ∷ s) (d ∷ t) (e ∷ u) = elim (Bool-cases (c == d)) [
  | inr n ↦ elim (Bool-cases (d == e)) [
    | inr m ↦ ground (arith, n, m)
    | inl m ↦ ground (arith, n, m)
  ]
  | inl n ↦ elim (Bool-cases (d == e)) [
    | inr m ↦ ground (arith, n, m)
    | inl m ↦
        let k : c ≡ d = ground (arith, n) in
        let l : d ≡ e = ground (arith, m) in
        rw (k, l)
          (ap (λ r. later r (e ∷ u)) (later-cons e s t)
            ∙ later-cons e (later s t) u
            ∙ ap (λ r. e ∷ r) (later_assoc s t u)
            ∙ sym (ap (λ r. later (e ∷ s) r) (later-cons e t u) ∙ later-cons e s (later t u)))
  ]
]

pub larger_comm : (a b : ℕ) → larger a b ≡ larger b a
larger_comm a b = ground arith

pub larger_assoc : (a b c : ℕ) → larger (larger a b) c ≡ larger a (larger b c)
larger_assoc a b c = ground arith
