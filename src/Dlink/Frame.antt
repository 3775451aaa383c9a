-- ===== src/Dlink/Frame.antt =====
-- The nodes that the operations of src/tools.c leave alone.
use mathlib.Core.Bool.{true≢false}
use mathlib.Core.Path.{subst}
use unirc_ircd.Prelude.{
  ℕ, ◌≡◌, sym, ◌∙◌, ap, false, Option, none, some, List, [], ◌∷◌, ◌++◌, arith, ◌==◌, ==_refl,
  if-case,
}
use unirc_ircd.Dlink.{
  Nodes, DlinkList, set_at, set_through, points_to, dlink_add, dlink_add_tail, dlink_add_before,
  dlink_delete,
}
use unirc_ircd.Dlink.Chain.{
  has, first_or, last_or, Chain-split, Distinct-split, has-append, set_at-other, set_first-other,
  set_last-outside, last-some,
}
use unirc_ircd.Dlink.Change.{Holds, unlink-kept}

-- The pointers of nodes that are not in `xs` stay.
abbrev pub Untouched : Nodes → List ℕ → Nodes → Type 0
Untouched h xs h' = (a : ℕ) → has a xs ≡ false → (h'.prev a ≡ h.prev a) × (h'.next a ≡ h.next a)

-- What a node outside of a list is not.
outside :
    (a b : ℕ) (xs ys : List ℕ)
    → has a (xs ++ b ∷ ys) ≡ false
    → (has a xs ≡ false) × ((a == b) ≡ false) × (has a ys ≡ false)
outside a b xs ys o = (
  ground (arith, has-append a xs (b ∷ ys), o),
  ground (arith, has-append a xs (b ∷ ys), o),
  ground (arith, has-append a xs (b ∷ ys), o),
)

behind : (a m : ℕ) (xs : List ℕ) → has a (m ∷ xs) ≡ false → ((a == m) ≡ false) × (has a xs ≡ false)
behind a m xs o = (ground (arith, o), ground (arith, o))

pub dlink_add-Untouched :
    (object m : ℕ) (h : Nodes) (l : DlinkList) (xs : List ℕ)
    → Holds h l xs
    → Untouched h (m ∷ xs) (dlink_add object m h l).0
unfolding dlink_add
dlink_add-Untouched object m h l xs w a o =
    let (other, out) = behind a m xs o in
    rw w.head (
      set_first-other (set_at h.prev m none) a xs (some m) out ∙ set_at-other h.prev m a none other,
      set_at-other h.next m a (first_or none xs) other,
    )

pub dlink_add_tail-Untouched :
    (object m : ℕ) (h : Nodes) (l : DlinkList) (xs : List ℕ)
    → Holds h l xs
    → Untouched h (m ∷ xs) (dlink_add_tail object m h l).0
unfolding dlink_add_tail
dlink_add_tail-Untouched object m h l xs w a o =
    let (other, out) = behind a m xs o in
    rw w.tail (
      set_at-other h.prev m a (last_or none xs) other,
      set_last-outside (set_at h.next m none) a xs (some m) out
          ∙ set_at-other h.next m a none other,
    )

pub dlink_delete-Untouched :
    (m : ℕ) (h : Nodes) (l : DlinkList) (xs ys : List ℕ)
    → Holds h l (xs ++ m ∷ ys)
    → Untouched h (xs ++ m ∷ ys) (dlink_delete m h l).0
unfolding dlink_delete
dlink_delete-Untouched m h l xs ys w a o =
    let kept = unlink-kept h.prev h.next m xs ys w.distinct w.chain in
    let (out_xs, other, out_ys) = outside a m xs ys o in
    rw (kept.0, kept.1.0, kept.1.1)
      (
        set_at-other (set_through h.prev (first_or none ys) (last_or none xs)) m a none other
            ∙ set_first-other h.prev a ys (last_or none xs) out_ys,
        set_at-other (set_through h.next (last_or none xs) (first_or none ys)) m a none other
            ∙ set_last-outside h.next a xs (first_or none ys) out_xs,
      )

-- The same where an operation may meet NULL.
abbrev pub UntouchedIn : Nodes → List ℕ → Option (Nodes × DlinkList) → Type 0
UntouchedIn h xs none = ⊥
UntouchedIn h xs (some r) = Untouched h xs r.0

pub dlink_add_before-Untouched :
    (b object m : ℕ) (h : Nodes) (l : DlinkList) (xs ys : List ℕ)
    → Holds h l (xs ++ b ∷ ys)
    → UntouchedIn h (m ∷ (xs ++ b ∷ ys)) (dlink_add_before b object m h l)
unfolding dlink_add_before
dlink_add_before-Untouched b object m h l [] ys w =
    if-case {A = Option (Nodes × DlinkList)} (UntouchedIn h (m ∷ b ∷ ys)) (points_to l.head b)
      (λ e. dlink_add-Untouched object m h l (b ∷ ys) w)
      (λ e. absurd (true≢false (sym (ap (λ p. points_to p b) w.head ∙ ==_refl b) ∙ e)))
dlink_add_before-Untouched b object m h l (c ∷ xs) ys w =
    let parts = Chain-split h.prev h.next none (c ∷ xs) (b ∷ ys) none w.chain in
    let (p, e) = last-some c xs in
    let first : (c == b) ≡ false =
      ground (arith, (Distinct-split (c ∷ xs) (b ∷ ys) w.distinct).1.1 c, ==_refl c) in
    rw (w.head, first, parts.1.0, e)
      (λ a o.
        let (out_m, rest) = behind a m ((c ∷ xs) ++ b ∷ ys) o in
        let (out_xs, out_b, out_ys) = outside a b (c ∷ xs) ys rest in
        (
          set_at-other (set_at h.prev m (some p)) b a (some m) out_b
              ∙ set_at-other h.prev m a (some p) out_m,
          set_at-other (set_at h.next p (some m)) m a (some b) out_m
              ∙ subst (λ x. set_through h.next x (some m) a ≡ h.next a) e
                  (set_last-outside h.next a (c ∷ xs) (some m) out_xs),
        ))
