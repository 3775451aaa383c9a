-- ===== src/Whowas/Keeps.antt =====
-- The lists of src/whowas.c as sequences of slots, one for each owner.
use mathlib.Core.Path.{subst}
use unirc_ircd.Prelude.{
  ℕ, ◌≡◌, refl, sym, ◌∙◌, ap, Bool, true, false, not, ◌&&◌, ◌||◌, Option, none, some, List, [], ◌∷◌,
  ◌++◌, arith, ◌==◌, ==_refl, ==_iff, Bool-cases, inl, inr, if-case, remove_first,
}
use unirc_ircd.Dlink.{set_at, set_through, if_null, points_to}
use unirc_ircd.Dlink.Chain.{
  has, has_ptr-first, has_ptr-last, Distinct, Apart, Apart-sym, first_or, last_or, Chain,
  set_at-other, set_last-outside, set_through-other, apart, Chain-frame, has-append, Distinct-split,
}
use unirc_ircd.Dlink.Change.{unlink, unlink-kept, push, Distinct-without, first-without}
use unirc_ircd.Dlink.Spec.{Parts, parts}
use unirc_ircd.Whowas.{Lists, add_whowas_to, del_whowas_from}

-- The slots of owner `b` are `nodes b`, in this order along the pointers.
pub record Keeps (l : Lists) (owner : ℕ → Option ℕ) (nodes : ℕ → List ℕ) : Type 0 where
  pub chain : (b : ℕ) → Chain l.prev l.next none (nodes b) none
  pub distinct : (b : ℕ) → Distinct (nodes b)
  pub start : (b : ℕ) → l.bucket b ≡ first_or none (nodes b)
  pub member : (b a : ℕ) → has a (nodes b) ≡ points_to (owner a) b

abbrev pub with_node : ℕ → ℕ → (ℕ → List ℕ) → ℕ → List ℕ
with_node b w nodes = set_at nodes b (w ∷ nodes b)

abbrev pub without_node : ℕ → ℕ → (ℕ → List ℕ) → ℕ → List ℕ
without_node b w nodes = set_at nodes b (remove_first w (nodes b))

pub has-remove_first :
    (a w : ℕ) (xs : List ℕ) → Distinct xs → has a (remove_first w xs) ≡ (has a xs && not (a == w))
has-remove_first a w [] d = refl
has-remove_first a w (b ∷ xs) d = elim (Bool-cases (b == w)) [
  | inl e ↦ rw e (in_rest ((==_iff b w).0 e))
  | inr e ↦ rw e (ground (arith, has-remove_first a w xs d.1))
]
  where
    in_rest : b ≡ w → has a xs ≡ ((a == b || has a xs) && not (a == w))
    in_rest e = elim (Bool-cases (a == w)) [
      | inl h ↦ ground (arith, ap (λ x. has x xs) ((==_iff a w).0 h ∙ sym e), d.0)
      | inr h ↦ ground arith
    ]

and_false : (b : Bool) → (b && false) ≡ false
and_false b = ground arith

and_true : (b : Bool) → (b && true) ≡ b
and_true b = ground arith

module _ (l : Lists) (owner : ℕ → Option ℕ) (nodes : ℕ → List ℕ) (k : Keeps l owner nodes) where
  -- No slot has two owners.
  Keeps-Apart : (b c : ℕ) → (c == b) ≡ false → Apart (nodes b) (nodes c)
  Keeps-Apart b c e a i = k.member c a ∙ one_owner (owner a) (sym (k.member b a) ∙ i)
    where
      one_owner : (o : Option ℕ) → points_to o b ≡ true → points_to o c ≡ false
      one_owner none h = refl
      one_owner (some d) h = ground arith

  pub add-Keeps :
      (b w : ℕ)
      → owner w ≡ none
      → Keeps (add_whowas_to b w l) (set_at owner w (some b)) (with_node b w nodes)
  unfolding add_whowas_to
  add-Keeps b w free = record {
    chain = λ c.
        subst
          (λ p.
            Chain (set_through (set_at l.prev w none) p (some w)) (set_at l.next w p) none
              (with_node b w nodes c) none)
          (sym (k.start b)) (chains c);
    distinct = λ c. if-case Distinct (c == b) (λ e. (outside b, k.distinct b)) (λ e. k.distinct c);
    start = λ c. elim (Bool-cases (c == b)) [ inl e ↦ rw e refl | inr e ↦ rw e (k.start c) ];
    member = λ c a. members c a;
  }
    where
      outside : (c : ℕ) → has w (nodes c) ≡ false
      outside c = k.member c w ∙ ap (λ o. points_to o c) free

      chains :
          (c : ℕ)
          → Chain
              (set_through (set_at l.prev w none) (first_or none (nodes b)) (some w))
              (set_at l.next w (first_or none (nodes b)))
              none
              (with_node b w nodes c)
              none
      chains c =
          if-case
            (λ zs.
              Chain (set_through (set_at l.prev w none) (first_or none (nodes b)) (some w))
                (set_at l.next w (first_or none (nodes b))) none zs none)
            (c == b) (λ e. push l.prev l.next w (nodes b) (outside b) (k.distinct b) (k.chain b))
            (λ e.
              Chain-frame l.prev l.next _ _ none (nodes c) none
                (λ a i.
                  let other = apart w a (nodes c) i (outside c) in
                  (
                    set_through-other (set_at l.prev w none) (first_or none (nodes b)) a (some w)
                          (nodes c) i (has_ptr-first (nodes b) (nodes c) (Keeps-Apart b c e))
                        ∙ set_at-other l.prev w a none other,
                    set_at-other l.next w a (first_or none (nodes b)) other,
                  ))
                (k.chain c))

      at_b : (a : ℕ) → has a (w ∷ nodes b) ≡ points_to (set_at owner w (some b) a) b
      at_b a = elim (Bool-cases (a == w)) [
        | inl e ↦ rw e (sym (==_refl b))
        | inr e ↦ rw e (k.member b a)
      ]

      elsewhere :
          (c a : ℕ)
          → (c == b) ≡ false
          → points_to (owner a) c ≡ points_to (set_at owner w (some b) a) c
      elsewhere c a f = elim (Bool-cases (a == w)) [
        | inl e ↦ rw e (ap (λ o. points_to o c) (ap owner ((==_iff a w).0 e) ∙ free) ∙ ground arith)
        | inr e ↦ rw e refl
      ]

      members : (c a : ℕ) → has a (with_node b w nodes c) ≡ points_to (set_at owner w (some b) a) c
      members c a = elim (Bool-cases (c == b)) [
        | inl f ↦
            rw f (at_b a ∙ ap (points_to (set_at owner w (some b) a)) (sym ((==_iff c b).0 f)))
        | inr f ↦ rw f (k.member c a ∙ elsewhere c a f)
      ]

  pub del-Keeps :
      (b w : ℕ)
      → owner w ≡ some b
      → Keeps (del_whowas_from b w l) (set_at owner w none) (without_node b w nodes)
  unfolding del_whowas_from
  del-Keeps b w own = record {
    chain = λ c. rw (kept.0, kept.1.0, again) (chains c);
    distinct = λ c.
        if-case Distinct (c == b)
          (λ e. subst Distinct (sym cut.removed) (Distinct-without w cut.front cut.back parted))
          (λ e. k.distinct c);
    start = λ c. rw (kept.0, kept.1.0) (starts c);
    member = λ c a. members c a;
  }
    where
      inside : has w (nodes b) ≡ true
      inside = k.member b w ∙ ap (λ o. points_to o b) own ∙ ==_refl b

      cut : Parts w w (nodes b)
      cut = parts w w (nodes b) inside

      parted : Distinct (cut.front ++ w ∷ cut.back)
      parted = subst Distinct cut.whole (k.distinct b)

      joined : Chain l.prev l.next none (cut.front ++ w ∷ cut.back) none
      joined = subst (λ zs. Chain l.prev l.next none zs none) cut.whole (k.chain b)

      kept :
          (l.next w ≡ first_or none cut.back)
          × ((l.prev w ≡ last_or none cut.front)
              × (set_through l.prev (first_or none cut.back) (last_or none cut.front) w
                  ≡ last_or none cut.front))
      kept = unlink-kept l.prev l.next w cut.front cut.back parted joined

      out_front : has w cut.front ≡ false
      out_front =
          Apart-sym cut.front (w ∷ cut.back) (Distinct-split cut.front (w ∷ cut.back) parted).1.1 w
            (ground (arith, ==_refl w))

      in_front : (d : ℕ) → has d cut.front ≡ true → has d (nodes b) ≡ true
      in_front d j = ap (has d) cut.whole ∙ ground (arith, has-append d cut.front (w ∷ cut.back), j)

      in_back : (d : ℕ) → has d cut.back ≡ true → has d (nodes b) ≡ true
      in_back d j = ap (has d) cut.whole ∙ ground (arith, has-append d cut.front (w ∷ cut.back), j)

      again :
          set_through l.next (last_or none cut.front) (first_or none cut.back) w
          ≡ first_or none cut.back
      again = set_last-outside l.next w cut.front (first_or none cut.back) out_front ∙ kept.0

      chains :
          (c : ℕ)
          → Chain
              (set_through l.prev (first_or none cut.back) (last_or none cut.front))
              (set_through l.next (last_or none cut.front) (first_or none cut.back))
              none
              (without_node b w nodes c)
              none
      chains c =
          if-case
            (λ zs.
              Chain (set_through l.prev (first_or none cut.back) (last_or none cut.front))
                (set_through l.next (last_or none cut.front) (first_or none cut.back)) none zs none)
            (c == b)
            (λ e.
              subst
                (λ zs.
                  Chain (set_through l.prev (first_or none cut.back) (last_or none cut.front))
                    (set_through l.next (last_or none cut.front) (first_or none cut.back)) none zs
                    none)
                (sym cut.removed) (unlink l.prev l.next w cut.front cut.back parted joined))
            (λ e.
              Chain-frame l.prev l.next _ _ none (nodes c) none
                (λ a i. (
                  set_through-other l.prev (first_or none cut.back) a (last_or none cut.front)
                      (nodes c) i
                      (has_ptr-first cut.back (nodes c) (λ d j. Keeps-Apart b c e d (in_back d j))),
                  set_through-other l.next (last_or none cut.front) a (first_or none cut.back)
                      (nodes c) i
                      (has_ptr-last cut.front (nodes c)
                        (λ d j. Keeps-Apart b c e d (in_front d j))),
                ))
                (k.chain c))

      at_owner :
          (p : Option ℕ) (c : ℕ)
          → (c == b) ≡ true
          → if_null p (set_at l.bucket b (first_or none cut.back)) l.bucket c
            ≡ if_null p (first_or none cut.back) (l.bucket b)
      at_owner none c e = rw e
      at_owner (some d) c e = ap l.bucket ((==_iff c b).0 e)

      elsewhere :
          (p : Option ℕ) (c : ℕ)
          → (c == b) ≡ false
          → if_null p (set_at l.bucket b (first_or none cut.back)) l.bucket c ≡ l.bucket c
      elsewhere none c e = rw e
      elsewhere (some d) c e = refl

      cleared :
          (c a : ℕ) → (points_to (owner a) c && not (a == w)) ≡ points_to (set_at owner w none a) c
      cleared c a = elim (Bool-cases (a == w)) [
        | inl e ↦ rw e (and_false (points_to (owner a) c))
        | inr e ↦ rw e (and_true (points_to (owner a) c))
      ]

      other_owner :
          (c a : ℕ) → (c == b) ≡ false → points_to (owner a) c ≡ points_to (set_at owner w none a) c
      other_owner c a f = elim (Bool-cases (a == w)) [
        | inl e ↦ rw e (ap (λ o. points_to o c) (ap owner ((==_iff a w).0 e) ∙ own) ∙ ground arith)
        | inr e ↦ rw e refl
      ]

      starts :
          (c : ℕ)
          → if_null (last_or none cut.front) (set_at l.bucket b (first_or none cut.back)) l.bucket c
            ≡ first_or none (without_node b w nodes c)
      starts c = elim (Bool-cases (c == b)) [
        | inl e ↦ rw e (
            at_owner (last_or none cut.front) c e
            ∙ ap (if_null (last_or none cut.front) (first_or none cut.back))
                (k.start b ∙ ap (first_or none) cut.whole)
            ∙ first-without w cut.front cut.back
            ∙ ap (first_or none) (sym cut.removed))
        | inr e ↦ rw e (elsewhere (last_or none cut.front) c e ∙ k.start c)
      ]

      members : (c a : ℕ) → has a (without_node b w nodes c) ≡ points_to (set_at owner w none a) c
      members c a = elim (Bool-cases (c == b)) [
        | inl f ↦ rw f (
            has-remove_first a w (nodes b) (k.distinct b)
            ∙ ap (λ x. x && not (a == w)) (k.member b a)
            ∙ ap (λ d. points_to (owner a) d && not (a == w)) (sym ((==_iff c b).0 f))
            ∙ cleared c a)
        | inr f ↦ rw f (k.member c a ∙ other_owner c a f)
      ]
