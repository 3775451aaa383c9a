-- ===== src/Dlink/Move.antt =====
-- `dlinkMoveList` of src/tools.c.
use mathlib.Core.Path.{subst}
use unirc_ircd.Prelude.{
  ℕ, ◌+◌, ◌<◌, ◌≡◌, refl, sym, ◌∙◌, ap, false, Option, none, some, List, [], ◌∷◌, ◌++◌, append-nil,
  arith, ◌==◌, ==_refl, ==_iff, Bool-cases, inl, inr, if◌then◌else◌, length, length-append,
}
use unirc_ircd.Dlink.{
  word, Nodes, DlinkList, set_at, set_through, dlink_move_list, no_list, move_links,
}
use unirc_ircd.Dlink.Chain.{
  has, has_ptr, Distinct, Apart, last_or, Chain, set_at-other, apart, Chain-frame, Chain-append,
  Chain-end, Chain-start, Apart-sym, Distinct-append, last_or-append, has_ptr-last, last-some,
}
use unirc_ircd.Dlink.Change.{Holds}

-- No fault; the first list is empty, and the second is `zs`.
abbrev pub MovedTo : Option (Nodes × (DlinkList × DlinkList)) → List ℕ → Type 0
MovedTo none zs = ⊥
MovedTo (some r) zs = Holds r.0 r.1.0 [] × Holds r.0 r.1.1 zs

set_at-keep {ℓ} : {A : Type ℓ} (f : ℕ → A) (a b : ℕ) (x : A) → f a ≡ x → set_at f a x b ≡ f b
set_at-keep f a b x e = elim (Bool-cases (b == a)) [
  | inl h ↦ rw h (sym e ∙ ap f (sym ((==_iff b a).0 h)))
  | inr h ↦ rw h refl
]

move-Chain :
    (h : Nodes) (a last b : ℕ) (xs ys : List ℕ)
    → last_or (some a) xs ≡ some last
    → Distinct (a ∷ xs)
    → Distinct (b ∷ ys)
    → Apart (a ∷ xs) (b ∷ ys)
    → Chain h.prev h.next none (a ∷ xs) none
    → Chain h.prev h.next none (b ∷ ys) none
    → Chain (move_links last a b h).prev (move_links last a b h).next none (a ∷ xs ++ b ∷ ys) none
move-Chain h a last b xs ys e dx dy far cx cy =
    Chain-append _ _ none (a ∷ xs) (b ∷ ys) none
      (Chain-frame h.prev (set_at h.next last (some b)) _ _ none (a ∷ xs) (some b)
        (λ c i. (
          set_at-other (set_at h.prev a (h.prev b)) b c (some last) (apart b c (a ∷ xs) i out_b)
              ∙ set_at-keep h.prev a c (h.prev b) (cx.0 ∙ sym cy.0),
          refl,
        ))
        (subst (λ l. Chain h.prev (set_through h.next l (some b)) none (a ∷ xs) (some b)) e
          (Chain-end h.prev h.next none (a ∷ xs) none (some b) dx cx)))
      (subst (λ l. Chain (move_links last a b h).prev (move_links last a b h).next l (b ∷ ys) none)
        (sym e)
        (Chain-frame (set_at h.prev b (some last)) h.next _ _ (some last) (b ∷ ys) none
          (λ c i. (
            ap (λ x. if c == b then some last else x)
                (set_at-other h.prev a c (h.prev b)
                  (apart a c (b ∷ ys) i (far a (ground (arith, ==_refl a))))),
            set_at-other h.next last c (some b) (apart last c (b ∷ ys) i out_last),
          ))
          (Chain-start h.prev h.next none (some last) (b ∷ ys) none dy cy)))
  where
    out_b : has b (a ∷ xs) ≡ false
    out_b = Apart-sym (a ∷ xs) (b ∷ ys) far b (ground (arith, ==_refl b))

    out_last : has last (b ∷ ys) ≡ false
    out_last = subst (λ p. has_ptr p (b ∷ ys) ≡ false) e (has_ptr-last (a ∷ xs) (b ∷ ys) far)

-- Moving a list in front of another one, where no node is in both, leaves the first empty and the second
-- with the nodes of both in their order, and meets no NULL.
dlink_move_list-Holds :
    (h : Nodes) (from to : DlinkList) (xs ys : List ℕ)
    → length xs + length ys < word
    → Apart xs ys
    → Holds h from xs
    → Holds h to ys
    → MovedTo (dlink_move_list h from to) (xs ++ ys)
unfolding dlink_move_list
dlink_move_list-Holds h from to [] ys fits far wx wy = simp (wx.head, dlink_move_list) (wx, wy)
dlink_move_list-Holds h from to (a ∷ xs) [] fits far wx wy =
    simp (wx.head, wy.head, dlink_move_list)
      (
        empty h,
        subst (Holds h _) (sym (append-nil (a ∷ xs))) (record {
          chain = wx.chain;
          distinct = wx.distinct;
          head = refl;
          tail = wx.tail;
          size = wx.size;
        }),
      )
  where
    empty : (h : Nodes) → Holds h no_list []
    empty h = record { chain = tt; distinct = tt; head = refl; tail = refl; size = refl }
dlink_move_list-Holds h from to (a ∷ xs) (b ∷ ys) fits far wx wy =
    let (last, e) = last-some a xs in
    simp (wx.head, wy.head, wx.tail, e, dlink_move_list)
      (
        record { chain = tt; distinct = tt; head = refl; tail = refl; size = refl },
        record {
          chain = move-Chain h a last b xs ys e wx.distinct wy.distinct far wx.chain wy.chain;
          distinct = Distinct-append (a ∷ xs) (b ∷ ys) wx.distinct wy.distinct far;
          head = refl;
          tail = wy.tail ∙ sym (last_or-append (some a) xs (b ∷ ys));
          size = omega (arith, wx.size, wy.size, length-append (a ∷ xs) (b ∷ ys));
        },
      )
