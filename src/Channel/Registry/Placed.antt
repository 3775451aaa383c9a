-- ===== src/Channel/Registry/Placed.antt =====
-- Lists of numbers each of which has a home: the members of channels in src/channel.c.
use unirc_ircd.Prelude.{
  ℕ, ◌≡◌, Bool, false, ◌&&◌, List, [], ◌∷◌, arith, ◌==◌, if◌then◌else◌, count, remove_first,
  count-remove_first, Bool-cases, inl, inr,
}
use unirc_ircd.Dlink.{set_at}
use unirc_ircd.Hash.Spec.{added, deleted}
use unirc_ircd.Channel.Registry.Uninvite.{set_at-count}

-- Each number in use stands once in the list of its home, and in no other list.
abbrev pub Placed : (ℕ → Bool) → (ℕ → ℕ) → (ℕ → List ℕ) → Type 0
Placed live home lists = (m c : ℕ) → count m (lists c) ≡ (if live m && home m == c then 1 else 0)

pub add-Placed :
    (live : ℕ → Bool) (home : ℕ → ℕ) (lists : ℕ → List ℕ) (m c : ℕ)
    → live m ≡ false
    → Placed live home lists
    → Placed (added m live) (set_at home m c) (set_at lists c (m ∷ lists c))
add-Placed live home lists m c fresh placed m1 c1 = elim (Bool-cases (m1 == m)) [
  | inl e ↦
      let k : m1 ≡ m = ground (arith, e) in
      rw k (ground (arith, set_at-count lists c c1 m (m ∷ lists c), placed m c1, placed m c, fresh))
  | inr e ↦ ground (arith, e, set_at-count lists c c1 m1 (m ∷ lists c), placed m1 c1, placed m1 c)
]

pub del-Placed :
    (live : ℕ → Bool) (home : ℕ → ℕ) (lists : ℕ → List ℕ) (m : ℕ)
    → Placed live home lists
    → Placed (deleted m live) home (set_at lists (home m) (remove_first m (lists (home m))))
del-Placed live home lists m placed m1 c1 = elim (Bool-cases (m1 == m)) [
  | inl e ↦
      let k : m1 ≡ m = ground (arith, e) in
      rw k (
        ground (
          arith,
          set_at-count lists (home m) c1 m (remove_first m (lists (home m))),
          placed m c1,
          placed m (home m),
          count-remove_first m m (lists (home m)),
        ))
  | inr e ↦ ground (
    arith,
    e,
    set_at-count lists (home m) c1 m1 (remove_first m (lists (home m))),
    placed m1 c1,
    placed m1 (home m),
    count-remove_first m m1 (lists (home m)),
  )
]

pub empty-Placed :
    (live : ℕ → Bool) (home : ℕ → ℕ) (lists : ℕ → List ℕ) (c : ℕ)
    → ((m : ℕ) → count m (lists c) ≡ 0)
    → Placed live home lists
    → Placed live home (set_at lists c [])
empty-Placed live home lists c none_there placed m c1 = elim (Bool-cases (c1 == c)) [
  | inl e ↦
      let k : c1 ≡ c = ground (arith, e) in
      rw k (ground (arith, set_at-count lists c c m [], placed m c, none_there m))
  | inr e ↦ ground (arith, e, set_at-count lists c c1 m [], placed m c1)
]
