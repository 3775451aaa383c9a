-- ===== src/Match/Ncmp.antt =====
-- src/match.c, `ircncmp`.
use unirc_ircd.Prelude.{
  ℕ, zero, suc, ◌+◌, ◌-◌, ◌%◌, ◌^◌, ◌<◌, ◌≡◌, refl, Bool, true, false, ◌&&◌, [], ◌∷◌, map, arith,
  ◌==◌, if◌then◌else◌, take, ==_iff, Bool-cases, inl, inr,
}
use unirc_ircd.Match.{Outcome, returns, fault}
use unirc_ircd.Chars.{Bytes, to_upper}
use unirc_ircd.Match.Case.{NoNul, Compares, Compares-cons, to_upper-nul, cons_head}

-- `n--` on a `size_t`
abbrev pub less_one : ℕ → ℕ
less_one n = (n + 2 ^ 64 - 1) % 2 ^ 64

abbrev pub at_end : Bytes → Bool
at_end [] = true
at_end (c ∷ s) = false

-- It returns false, C's 0, for equality. Behind equal bytes of which one is a NUL, the code goes on
-- only if `n` is not used up, and then reads behind that NUL.
unfoldable pub ircncmp : Bytes → Bytes → ℕ → Outcome
ircncmp [] [] n = if less_one n == 0 then returns false else fault
ircncmp [] (d ∷ t) n =
    if to_upper 0 == to_upper d
    then if less_one n == 0 then returns false else fault
    else returns true
ircncmp (c ∷ s) [] n =
    if to_upper c == to_upper 0
    then if less_one n == 0 then returns false else fault
    else returns true
ircncmp (c ∷ s) (d ∷ t) n =
    let rest = ircncmp s t (less_one n) in
    if to_upper c == to_upper d
    then if less_one n == 0
      then returns false
      else if at_end s && at_end t
      then returns false
      else rest
    else returns true

take_end :
    (n : ℕ) (s t : Bytes)
    → (at_end s && at_end t) ≡ true
    → map to_upper (take n s) ≡ map to_upper (take n t)
take_end n [] [] h = refl
take_end n [] (d ∷ t) h = absurd (cc h)
take_end n (c ∷ s) t h = absurd (cc h)

-- What is compared behind equal bytes, with `n` bytes to go.
compared_rest :
    (s t : Bytes) (n : ℕ)
    → ((at_end s && at_end t) ≡ false → 0 < n → Compares (take n s) (take n t) (ircncmp s t n))
    → (z : Bool) → (n == 0) ≡ z
    → (y : Bool) → (at_end s && at_end t) ≡ y
    → Compares (take n s) (take n t) (
        if n == 0
        then returns false
        else if at_end s && at_end t
        then returns false
        else ircncmp s t n)
compared_rest s t n ih true h y k = let n0 : n ≡ 0 = ground (arith, h) in rw n0 (inl (refl, refl))
compared_rest s t n ih false h true k = rw (h, k) (inl (refl, take_end n s t k))
compared_rest s t n ih false h false k = rw (h, k) (ih k (ground (arith, h)))

-- For two strings of bytes that are not NUL, at least one of them not empty, and a positive number of
-- bytes, `ircncmp` stops without reading behind a NUL, with 0 if the strings are equal in upper case
-- as far as the number goes, and with another value if they are not.
pub ircncmp-Compares :
    (s t : Bytes) (n : ℕ)
    → NoNul s
    → NoNul t
    → (at_end s && at_end t) ≡ false
    → 0 < n
    → n < 2 ^ 64
    → Compares (take n s) (take n t) (ircncmp s t n)
unfolding ircncmp
ircncmp-Compares s t zero hs ht e p b = absurd (omega arith)
ircncmp-Compares [] [] (suc n) hs ht e p b = absurd (cc e)
ircncmp-Compares [] (d ∷ t) (suc n) hs ht e p b =
    rw (to_upper-nul d ht.0 ht.1) (inr (refl, λ q. cc))
ircncmp-Compares (c ∷ s) [] (suc n) hs ht e p b =
    inr (ground (arith, to_upper-nul c hs.0 hs.1), λ q. cc)
ircncmp-Compares (c ∷ s) (d ∷ t) (suc n) hs ht e p b =
    let go_on = compared_rest s t n (λ k q. ircncmp-Compares s t n hs.2 ht.2 k q (omega arith)) in
    elim (Bool-cases (to_upper c == to_upper d)) [
      | inr other ↦ rw other (inr (refl, λ q. ground (arith, other, cons_head q)))
      | inl same ↦
          rw (same, less)
            (Compares-cons c d (take n s) (take n t) _ ((==_iff _ _).0 same)
              (go_on (n == 0) refl _ refl))
    ]
  where
    less : less_one (suc n) ≡ n
    less = omega arith
