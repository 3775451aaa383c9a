-- ===== src/Hash/Chain.antt =====
-- The search of a chain in src/hash.c and what it moves.
use unirc_ircd.Prelude.{
  ℕ, ◌<◌, ◌≡◌, refl, sym, Bool, true, false, Option, none, some, List, [], ◌∷◌, arith, ◌==◌, count,
  Bool-cases, inl, inr,
}
use unirc_ircd.Hash.{take_out, find_in}

-- What is taken out passes the test and is the chain's; with nothing taken out, nothing passes.
abbrev pub TakenFrom : (ℕ → Bool) → List ℕ → Option (ℕ × List ℕ) → Type 0
TakenFrom test chain none = (a : ℕ) → 0 < count a chain → test a ≡ false
TakenFrom test chain (some (d, ds)) = (test d ≡ true) × ((a : ℕ) → count a chain ≡ count a (d ∷ ds))

take_out-cons :
    (test : ℕ → Bool) (c : ℕ) (cs : List ℕ) (o : Option (ℕ × List ℕ))
    → test c ≡ false
    → TakenFrom test cs o
    → TakenFrom test (c ∷ cs) (elim o [ none ↦ none | some (d, ds) ↦ some (d, c ∷ ds) ])
take_out-cons test c cs none h t = λ a k. elim (Bool-cases (c == a)) [
  | inl e ↦ let ca : c ≡ a = ground (arith, e) in rw (← ca) h
  | inr e ↦ t a (ground (arith, e, k))
]
take_out-cons test c cs (some (d, ds)) h t = (t.0, λ a. ground (arith, t.1 a))

take_out-TakenFrom : (test : ℕ → Bool) (chain : List ℕ) → TakenFrom test chain (take_out test chain)
unfolding take_out
take_out-TakenFrom test [] = λ a h. absurd (omega arith)
take_out-TakenFrom test (c ∷ cs) = elim (Bool-cases (test c)) [
  | inl e ↦ rw e (e, λ a. refl)
  | inr e ↦ rw e (take_out-cons test c cs (take_out test cs) e (take_out-TakenFrom test cs))
]

-- What a search finds, and the chain it leaves.
abbrev pub FoundIn : (ℕ → Bool) → List ℕ → Option ℕ × List ℕ → Type 0
FoundIn test chain (none, left) = ((a : ℕ) → 0 < count a chain → test a ≡ false) × (left ≡ chain)
FoundIn test chain (some d, left) =
    (test d ≡ true) × (0 < count d chain) × ((a : ℕ) → count a left ≡ count a chain)

pub find_in-FoundIn : (test : ℕ → Bool) (chain : List ℕ) → FoundIn test chain (find_in test chain)
unfolding find_in
find_in-FoundIn test chain = moved (take_out test chain) (take_out-TakenFrom test chain)
  where
    moved :
        (o : Option (ℕ × List ℕ))
        → TakenFrom test chain o
        → FoundIn test chain (elim o [ none ↦ (none, chain) | some (d, ds) ↦ (some d, d ∷ ds) ])
    moved none t = (t, refl)
    moved (some (d, ds)) t = (t.0, ground (arith, t.1 d), λ a. sym (t.1 a))
