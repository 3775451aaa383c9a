-- ===== src/Whowas/Find.antt =====
-- `get_history` of src/whowas.c: who had a nick.
use mathlib.Core.Path.{subst}
use unirc_ircd.Prelude.{
  ℕ, zero, suc, ◌-◌, ◌≤◌, ◌≡◌, refl, sym, ◌∙◌, ap, ◌⊎◌, inl, inr, Bool, true, false, not, ◌||◌,
  Option, none, some, List, [], ◌∷◌, map, arith, ◌==◌, ==_refl, ==_iff, ltb, Bool-cases,
  if◌then◌else◌, length,
}
use unirc_ircd.Chars.{Bytes, to_upper}
use unirc_ircd.Match.Case.{NoNul}
use unirc_ircd.Hash.{strhash, names_equal}
use unirc_ircd.Hash.Names.{names_equal_iff}
use unirc_ircd.Hash.Value.{strhash-fold}
use unirc_ircd.Dlink.{points_to}
use unirc_ircd.Dlink.Chain.{has, first_or, Chain}
use unirc_ircd.Whowas.{History, Entry, get_loop, get_history}
use unirc_ircd.Whowas.Valid.{IsValid}
use unirc_ircd.Whowas.Off.{pigeonhole}

-- The test that the loop makes of a slot, as it is computed.
abbrev skipped : Bytes → ℕ → Entry → Bool
skipped nick limit e = not (names_equal nick e.name) || ltb e.logoff limit

abbrev Found : Bytes → ℕ → History → List ℕ → Option (Option ℕ) → Type 0
Found nick limit s xs r =
    ((w : ℕ) × (has w xs ≡ true)
      × (skipped nick limit (s.entry w) ≡ false)
      × (r ≡ some (s.online w)))
    ⊎ (((w : ℕ) → has w xs ≡ true → skipped nick limit (s.entry w) ≡ true) × (r ≡ some none))

pick_later {ℓ} :
    {A : Type ℓ} (n l : Bool) (r o : A)
    → (not n || l) ≡ true
    → r ≡ (if not n then r else if l then r else o)
pick_later false l r o h = refl
pick_later true true r o h = refl
pick_later true false r o h = absurd (ground (arith, h))

pick_here {ℓ} :
    {A : Type ℓ} (n l : Bool) (r o : A)
    → (not n || l) ≡ false
    → (if not n then r else if l then r else o) ≡ o
pick_here false l r o h = absurd (ground (arith, h))
pick_here true true r o h = absurd (ground (arith, h))
pick_here true false r o h = refl

get_loop-Found :
    (rounds : ℕ) (nick : Bytes) (limit : ℕ) (s : History) (p : Option ℕ) (xs : List ℕ)
    → length xs ≤ rounds
    → Chain s.hashes.prev s.hashes.next p xs none
    → Found nick limit s xs (get_loop rounds nick limit s (first_or none xs))
unfolding get_loop
get_loop-Found zero nick limit s p [] l c = inr (λ w i. absurd (ground (arith, i)), refl)
get_loop-Found (suc n) nick limit s p [] l c = inr (λ w i. absurd (ground (arith, i)), refl)
get_loop-Found zero nick limit s p (w ∷ xs) l c = absurd (omega arith)
get_loop-Found (suc n) nick limit s p (w ∷ xs) l c =
    let rest =
      subst (λ q. Found nick limit s xs (get_loop n nick limit s q)) (sym c.1)
        (get_loop-Found n nick limit s (some w) xs (omega arith) c.2) in
    either (get_loop n nick limit s (s.hashes.next w)) (Bool-cases (skipped nick limit (s.entry w)))
      rest
  where
    first :
        (a : ℕ)
        → (a == w) ≡ true
        → skipped nick limit (s.entry w) ≡ true
        → skipped nick limit (s.entry a) ≡ true
    first a e k = subst (λ b. skipped nick limit (s.entry b) ≡ true) (sym ((==_iff a w).0 e)) k

    step : Option (Option ℕ) → Option (Option ℕ)
    step r =
        if not (names_equal nick (s.entry w).name)
        then r
        else if ltb (s.entry w).logoff limit
        then r
        else some (s.online w)

    later :
        (r : Option (Option ℕ))
        → skipped nick limit (s.entry w) ≡ true
        → Found nick limit s xs r
        → Found nick limit s (w ∷ xs) r
    later r k (inl (a, i, t, e)) = inl (a, ground arith, t, e)
    later r k (inr (none_fits, e)) = inr (
      λ a i. elim (Bool-cases (a == w)) [
        | inl h ↦ first a h k
        | inr h ↦ none_fits a (ground arith)
      ],
      e,
    )

    either :
        (r : Option (Option ℕ))
        → (skipped nick limit (s.entry w) ≡ true) ⊎ (skipped nick limit (s.entry w) ≡ false)
        → Found nick limit s xs r
        → Found nick limit s (w ∷ xs) (step r)
    either r (inl k) f =
        subst (Found nick limit s (w ∷ xs))
          (pick_later (names_equal nick (s.entry w).name) (ltb (s.entry w).logoff limit) r
            (some (s.online w)) k)
          (later r k f)
    either r (inr k) f = inl (
      w,
      ground (arith, ==_refl w),
      k,
      pick_here (names_equal nick (s.entry w).name) (ltb (s.entry w).logoff limit) r
          (some (s.online w)) k,
    )

-- A slot in use bears the nick, in any case, and is not older than `limit`.
abbrev pub Had : Bytes → ℕ → History → ℕ → Type 0
Had nick limit s w =
    (h : ℕ) × (s.hashv w ≡ some h)
    × (map to_upper nick ≡ map to_upper (s.entry w).name)
    × (limit ≤ (s.entry w).logoff)

-- In a valid history `get_history` ends within as many rounds as the ring has slots; it gives the client of a slot in
-- use that bears the nick, in any case, and was written at most `timelimit` seconds ago, or NULL where there is none.
pub get_history-Had :
    (size rounds key now : ℕ) (nick : Bytes) (timelimit : ℕ) (s : History)
    → size ≤ rounds
    → NoNul nick
    → IsValid size key s
    → ((w : ℕ) × Had nick (now - timelimit) s w
        × (get_history rounds key now nick timelimit s ≡ some (s.online w)))
      ⊎ (((w : ℕ) → ¬ Had nick (now - timelimit) s w)
          × (get_history rounds key now nick timelimit s ≡ some none))
unfolding get_history
get_history-Had size rounds key now nick timelimit s enough nonul v =
    rw (v.hashes.start (strhash key nick), get_history)
      (decide (
        get_loop-Found rounds nick (now - timelimit) s none (v.named (strhash key nick)) bound
          (v.hashes.chain (strhash key nick))))
  where
    slots : List ℕ
    slots = v.named (strhash key nick)

    owner_of : (o : Option ℕ) (b : ℕ) → points_to o b ≡ true → o ≡ some b
    owner_of o b h = ground arith

    in_use : (w : ℕ) → has w slots ≡ true → s.hashv w ≡ some (strhash key nick)
    in_use w i =
        owner_of (s.hashv w) (strhash key nick) (sym (v.hashes.member (strhash key nick) w) ∙ i)

    bound : length slots ≤ rounds
    bound = omega (
      arith,
      pigeonhole size slots (v.hashes.distinct (strhash key nick))
          (λ a i. v.ring a (strhash key nick) (in_use a i)),
    )

    had :
        (w : ℕ)
        → has w slots ≡ true
        → skipped nick (now - timelimit) (s.entry w) ≡ false
        → Had nick (now - timelimit) s w
    had w i k = (
      strhash key nick,
      in_use w i,
      (names_equal_iff nick (s.entry w).name nonul (v.names w (strhash key nick) (in_use w i))).0
          (ground arith),
      ground arith,
    )

    in_slots :
        (w h : ℕ)
        → s.hashv w ≡ some h
        → map to_upper nick ≡ map to_upper (s.entry w).name
        → has w slots ≡ true
    in_slots w h e n =
        v.hashes.member (strhash key nick) w
        ∙ ap (λ o. points_to o (strhash key nick)) e
        ∙ ap (λ b. b == strhash key nick)
            (v.hash w h e ∙ sym (strhash-fold key nick (s.entry w).name nonul (v.names w h e) n))
        ∙ ==_refl (strhash key nick)

    not_skipped :
        (w : ℕ)
        → Had nick (now - timelimit) s w
        → skipped nick (now - timelimit) (s.entry w) ≡ false
    not_skipped w (h, e, n, l) =
        ground (arith, (names_equal_iff nick (s.entry w).name nonul (v.names w h e)).1 n, l)

    decide :
        Found nick
          (now - timelimit)
          s
          slots
          (get_loop rounds nick (now - timelimit) s (first_or none slots))
        → ((w : ℕ) × Had nick (now - timelimit) s w
            × (get_loop rounds nick (now - timelimit) s (first_or none slots) ≡ some (s.online w)))
          ⊎ (((w : ℕ) → ¬ Had nick (now - timelimit) s w)
              × (get_loop rounds nick (now - timelimit) s (first_or none slots) ≡ some none))
    decide (inl (w, i, k, e)) = inl (w, had w i k, e)
    decide (inr (none_fits, e)) =
        inr (λ w d. absurd (cc (none_fits w (in_slots w d.0 d.1 d.2), not_skipped w d)), e)
