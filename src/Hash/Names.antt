-- ===== src/Hash/Names.antt =====
-- `irccmp` as the comparison of the searches in src/hash.c, which is an equivalence.
use mathlib.Core.Bool.{true≢false}
use unirc_ircd.Prelude.{◌≡◌, refl, sym, ◌∙◌, ap, ◌↔◌, inl, inr, true, false, map, Bool-cases}
use unirc_ircd.Chars.{Bytes, to_upper}
use unirc_ircd.Match.Case.{NoNul, irccmp, irccmp-Compares, Compares}
use unirc_ircd.Hash.{names_equal, is_zero}

-- Two names are equal to the search exactly if they are equal in upper case.
pub names_equal_iff :
    (s t : Bytes) → NoNul s → NoNul t → (names_equal s t ≡ true) ↔ (map to_upper s ≡ map to_upper t)
names_equal_iff s t hs ht = decided (irccmp-Compares s t hs ht)
  where
    decided :
        Compares s t (irccmp s t) → (names_equal s t ≡ true) ↔ (map to_upper s ≡ map to_upper t)
    decided (inl (o, e)) = (λ h. e, λ h. ap is_zero o)
    decided (inr (o, e)) = (λ h. absurd (cc (h, ap is_zero o)), λ h. absurd (e h))

pub names_equal_same : (s : Bytes) → NoNul s → names_equal s s ≡ true
names_equal_same s z = (names_equal_iff s s z z).1 refl

pub names_equal_sym :
    (s t : Bytes) → NoNul s → NoNul t → names_equal s t ≡ true → names_equal t s ≡ true
names_equal_sym s t hs ht e = (names_equal_iff t s ht hs).1 (sym ((names_equal_iff s t hs ht).0 e))

pub names_equal_trans :
    (s t u : Bytes)
    → NoNul s
    → NoNul t
    → NoNul u
    → names_equal s t ≡ true
    → names_equal t u ≡ true
    → names_equal s u ≡ true
names_equal_trans s t u hs ht hu e f =
    (names_equal_iff s u hs hu).1
      ((names_equal_iff s t hs ht).0 e ∙ (names_equal_iff t u ht hu).0 f)

pub names_equal_apart :
    (s t : Bytes) → NoNul s → NoNul t → names_equal s t ≡ false → names_equal t s ≡ false
names_equal_apart s t hs ht e = elim (Bool-cases (names_equal t s)) [
  | inl k ↦ absurd (true≢false (sym (names_equal_sym t s ht hs k) ∙ e))
  | inr k ↦ k
]
