-- ===== src/Dlink/Change.antt =====
-- What the operations of src/tools.c do to a list.
use mathlib.Core.Path.{subst}
use mathlib.Core.Bool.{true≢false}
use unirc_ircd.Prelude.{
  ℕ, suc, ◌<◌, ◌≡◌, refl, sym, ◌∙◌, ap, false, Option, none, some, List, [], ◌∷◌, ◌++◌, append-nil,
  arith, ◌==◌, ==_refl, if-case, if◌then◌else◌, length, length-append,
}
use unirc_ircd.Dlink.{
  word, Nodes, DlinkList, set_at, set_through, if_null, dlink_add, dlink_add_tail, dlink_add_before,
  dlink_delete, points_to,
}
use unirc_ircd.Dlink.Chain.{
  has, Distinct, Apart, first_or, last_or, Chain, set_at-same, set_at-other, set_through-other,
  set_first-other, set_last-outside, last-some, apart, Chain-frame, Chain-split, Chain-append,
  Chain-end, Chain-start, has-append, Apart-sym, Distinct-split, Distinct-append, last_or-append,
  has_ptr-last, has_ptr-first, if_null-last,
}

-- The list `l` consists of the nodes `xs`, from the head to the tail.
pub record Holds (h : Nodes) (l : DlinkList) (xs : List ℕ) : Type 0 where
  pub chain : Chain h.prev h.next none xs none
  pub distinct : Distinct xs
  pub head : l.head ≡ first_or none xs
  pub tail : l.tail ≡ last_or none xs
  pub size : l.length ≡ length xs

-- To take a node out of the middle.
pub unlink :
    (prev next : ℕ → Option ℕ) (m : ℕ) (xs ys : List ℕ)
    → Distinct (xs ++ m ∷ ys)
    → Chain prev next none (xs ++ m ∷ ys) none
    → Chain
        (set_through prev (first_or none ys) (last_or none xs))
        (set_through next (last_or none xs) (first_or none ys))
        none
        (xs ++ ys)
        none
unlink prev next m xs ys d c =
    let parts = Chain-split prev next none xs (m ∷ ys) none c in
    let ds = Distinct-split xs (m ∷ ys) d in
    let far : Apart xs ys = λ a i. ground (arith, ds.1.1 a i) in
    Chain-append _ _ none xs ys none
      (Chain-frame prev (set_through next (last_or none xs) (first_or none ys)) _ _ none xs
        (first_or none ys)
        (λ a i. (
          set_through-other prev (first_or none ys) a (last_or none xs) xs i
              (has_ptr-first ys xs (Apart-sym xs ys far)),
          refl,
        ))
        (Chain-end prev next none xs (some m) (first_or none ys) ds.0 parts.0))
      (Chain-frame (set_through prev (first_or none ys) (last_or none xs)) next _ _
        (last_or none xs) ys none
        (λ a i. (
          refl,
          set_through-other next (last_or none xs) a (first_or none ys) ys i
              (has_ptr-last xs ys far),
        ))
        (Chain-start prev next (some m) (last_or none xs) ys none ds.1.0.1 parts.1.2))

-- The node that goes keeps its own pointers until the end.
pub unlink-kept :
    (prev next : ℕ → Option ℕ) (m : ℕ) (xs ys : List ℕ)
    → Distinct (xs ++ m ∷ ys)
    → Chain prev next none (xs ++ m ∷ ys) none
    → (next m ≡ first_or none ys)
      × ((prev m ≡ last_or none xs)
          × (set_through prev (first_or none ys) (last_or none xs) m ≡ last_or none xs))
unlink-kept prev next m xs ys d c =
    let parts = Chain-split prev next none xs (m ∷ ys) none c in
    let ds = Distinct-split xs (m ∷ ys) d in
    (parts.1.1, (parts.1.0, set_first-other prev m ys (last_or none xs) ds.1.0.0 ∙ parts.1.0))

-- Of the node that goes, no pointer is left.
pub unlink-cleared :
    (prev next : ℕ → Option ℕ) (m : ℕ) (xs ys : List ℕ)
    → Distinct (xs ++ m ∷ ys)
    → Chain prev next none (xs ++ ys) none
    → Chain (set_at prev m none) (set_at next m none) none (xs ++ ys) none
unlink-cleared prev next m xs ys d c =
    Chain-frame prev next _ _ none (xs ++ ys) none
      (λ a i.
        let other = apart m a (xs ++ ys) i without in
        (set_at-other prev m a none other, set_at-other next m a none other))
      c
  where
    without : has m (xs ++ ys) ≡ false
    without =
        let ds = Distinct-split xs (m ∷ ys) d in
        ground (arith, has-append m xs ys, ds.1.0.0, ds.1.1 m, ==_refl m)

last-without :
    (m : ℕ) (xs ys : List ℕ)
    → if_null (first_or none ys) (last_or none xs) (last_or none (xs ++ m ∷ ys))
      ≡ last_or none (xs ++ ys)
last-without m xs [] = ap (last_or none) (sym (append-nil xs))
last-without m xs (b ∷ ys) =
    last_or-append none xs (m ∷ b ∷ ys) ∙ sym (last_or-append none xs (b ∷ ys))

pub first-without :
    (m : ℕ) (xs ys : List ℕ)
    → if_null (last_or none xs) (first_or none ys) (first_or none (xs ++ m ∷ ys))
      ≡ first_or none (xs ++ ys)
first-without m [] ys = refl
first-without m (a ∷ xs) ys = if_null-last a xs _ _

pub Distinct-without : (m : ℕ) (xs ys : List ℕ) → Distinct (xs ++ m ∷ ys) → Distinct (xs ++ ys)
Distinct-without m xs ys d =
    let ds = Distinct-split xs (m ∷ ys) d in
    Distinct-append xs ys ds.0 ds.1.0.1 (λ a i. ground (arith, ds.1.1 a i))

pub dlink_delete-Holds :
    (m : ℕ) (h : Nodes) (l : DlinkList) (xs ys : List ℕ)
    → length (xs ++ m ∷ ys) < word
    → Holds h l (xs ++ m ∷ ys)
    → Holds (dlink_delete m h l).0 (dlink_delete m h l).1 (xs ++ ys)
unfolding dlink_delete
dlink_delete-Holds m h l xs ys fits w =
    let kept = unlink-kept h.prev h.next m xs ys w.distinct w.chain in
    rw (kept.0, kept.1.0, kept.1.1)
      (record {
        chain =
            unlink-cleared _ _ m xs ys w.distinct (unlink h.prev h.next m xs ys w.distinct w.chain);
        distinct = Distinct-without m xs ys w.distinct;
        head = ap (if_null (last_or none xs) (first_or none ys)) w.head ∙ first-without m xs ys;
        tail = ap (if_null (first_or none ys) (last_or none xs)) w.tail ∙ last-without m xs ys;
        size = omega (arith, w.size, length-append xs (m ∷ ys), length-append xs ys);
      })

-- A node may get new pointers where it is not yet in the list.
pub Chain-outside :
    (prev next : ℕ → Option ℕ) (m : ℕ) (p q r s : Option ℕ) (xs : List ℕ)
    → has m xs ≡ false
    → Chain prev next p xs q
    → Chain (set_at prev m r) (set_at next m s) p xs q
Chain-outside prev next m p q r s xs o c =
    Chain-frame prev next _ _ p xs q
      (λ a i.
        let other = apart m a xs i o in
        (set_at-other prev m a r other, set_at-other next m a s other))
      c

-- To put a node in front.
pub push :
    (prev next : ℕ → Option ℕ) (m : ℕ) (xs : List ℕ)
    → has m xs ≡ false
    → Distinct xs
    → Chain prev next none xs none
    → Chain
        (set_through (set_at prev m none) (first_or none xs) (some m))
        (set_at next m (first_or none xs))
        none
        (m ∷ xs)
        none
push prev next m xs o d c = (
  set_first-other (set_at prev m none) m xs (some m) o ∙ set_at-same prev m none,
  set_at-same next m (first_or none xs),
  Chain-start (set_at prev m none) (set_at next m (first_or none xs)) none (some m) xs none d
      (Chain-outside prev next m none none none (first_or none xs) xs o c),
)

pub dlink_add-Holds :
    (object m : ℕ) (h : Nodes) (l : DlinkList) (xs : List ℕ)
    → suc (length xs) < word
    → has m xs ≡ false
    → Holds h l xs
    → Holds (dlink_add object m h l).0 (dlink_add object m h l).1 (m ∷ xs)
unfolding dlink_add
dlink_add-Holds object m h l xs fits o w = rw w.head (record {
  chain = push h.prev h.next m xs o w.distinct w.chain;
  distinct = (o, w.distinct);
  head = refl;
  tail = ap (if_null (first_or none xs) (some m)) w.tail ∙ last-cons m xs;
  size = omega (arith, w.size);
})
  where
    last-cons :
        (m : ℕ) (xs : List ℕ)
        → if_null (first_or none xs) (some m) (last_or none xs) ≡ last_or (some m) xs
    last-cons m [] = refl
    last-cons m (a ∷ xs) = refl

pub dlink_add_tail-Holds :
    (object m : ℕ) (h : Nodes) (l : DlinkList) (xs : List ℕ)
    → suc (length xs) < word
    → has m xs ≡ false
    → Holds h l xs
    → Holds (dlink_add_tail object m h l).0 (dlink_add_tail object m h l).1 (xs ++ m ∷ [])
unfolding dlink_add_tail
dlink_add_tail-Holds object m h l xs fits o w = rw w.tail (record {
  chain =
      Chain-append _ _ none xs (m ∷ []) none
        (Chain-end (set_at h.prev m (last_or none xs)) (set_at h.next m none) none xs none (some m)
          w.distinct (Chain-outside h.prev h.next m none none (last_or none xs) none xs o w.chain))
        (
          set_at-same h.prev m (last_or none xs),
          set_last-outside (set_at h.next m none) m xs (some m) o ∙ set_at-same h.next m none,
          tt,
        );
  distinct =
      Distinct-append xs (m ∷ []) w.distinct (refl, tt) (λ a i. ground (arith, apart m a xs i o));
  head = ap (if_null (last_or none xs) (some m)) w.head ∙ first-behind xs;
  tail = sym (last_or-append none xs (m ∷ []));
  size = omega (arith, w.size, length-append xs (m ∷ []));
})
  where
    first-behind :
        (xs : List ℕ)
        → if_null (last_or none xs) (some m) (first_or none xs) ≡ first_or none (xs ++ m ∷ [])
    first-behind [] = refl
    first-behind (a ∷ xs) = if_null-last a xs (some m) (some a)

link :
    (prev next : ℕ → Option ℕ) (b m : ℕ) (xs ys : List ℕ)
    → Distinct (xs ++ b ∷ ys)
    → has m (xs ++ b ∷ ys) ≡ false
    → Chain prev next none (xs ++ b ∷ ys) none
    → Chain
        (set_at (set_at prev m (last_or none xs)) b (some m))
        (set_at (set_through next (last_or none xs) (some m)) m (some b))
        none
        (xs ++ m ∷ b ∷ ys)
        none
link prev next b m xs ys d o c =
    let parts = Chain-split prev next none xs (b ∷ ys) none c in
    let ds = Distinct-split xs (b ∷ ys) d in
    let out_xs : has m xs ≡ false = ground (arith, has-append m xs (b ∷ ys), o) in
    let out_ys : has m (b ∷ ys) ≡ false = ground (arith, has-append m xs (b ∷ ys), o) in
    let out_b : has b xs ≡ false = Apart-sym xs (b ∷ ys) ds.1.1 b (ground (arith, ==_refl b)) in
    Chain-append _ _ none xs (m ∷ b ∷ ys) none
      (Chain-frame prev (set_through next (last_or none xs) (some m)) _ _ none xs (some m)
        (λ a i. (
          set_at-other (set_at prev m (last_or none xs)) b a (some m) (apart b a xs i out_b)
              ∙ set_at-other prev m a (last_or none xs) (apart m a xs i out_xs),
          set_at-other (set_through next (last_or none xs) (some m)) m a (some b)
              (apart m a xs i out_xs),
        ))
        (Chain-end prev next none xs (some b) (some m) ds.0 parts.0))
      (
        set_at-other (set_at prev m (last_or none xs)) b m (some m) (ground arith)
            ∙ set_at-same prev m (last_or none xs),
        set_at-same (set_through next (last_or none xs) (some m)) m (some b),
        Chain-frame (set_at prev b (some m)) next _ _ (some m) (b ∷ ys) none
            (λ a i. (
              ap (λ x. if a == b then some m else x)
                  (set_at-other prev m a (last_or none xs) (apart m a (b ∷ ys) i out_ys)),
              set_at-other (set_through next (last_or none xs) (some m)) m a (some b)
                    (apart m a (b ∷ ys) i out_ys)
                  ∙ set_through-other next (last_or none xs) a (some m) (b ∷ ys) i
                      (has_ptr-last xs (b ∷ ys) ds.1.1),
            ))
            (Chain-start prev next (last_or none xs) (some m) (b ∷ ys) none ds.1.0 parts.1),
      )

-- No fault, the nodes have these objects, and the list is `xs`.
abbrev pub HoldsIn : Option (Nodes × DlinkList) → (ℕ → ℕ) → List ℕ → Type 0
HoldsIn none value xs = ⊥
HoldsIn (some r) value xs = (r.0.value ≡ value) × Holds r.0 r.1 xs

Distinct-with :
    (m : ℕ) (xs ys : List ℕ)
    → Distinct (xs ++ ys)
    → has m (xs ++ ys) ≡ false
    → Distinct (xs ++ m ∷ ys)
Distinct-with m xs ys d o =
    let ds = Distinct-split xs ys d in
    let out_xs : has m xs ≡ false = ground (arith, has-append m xs ys, o) in
    Distinct-append xs (m ∷ ys) ds.0 (ground (arith, has-append m xs ys, o), ds.1.0)
      (λ a i. ground (arith, ds.1.1 a i, apart m a xs i out_xs))

pub dlink_add_before-Holds :
    (b object m : ℕ) (h : Nodes) (l : DlinkList) (xs ys : List ℕ)
    → suc (length (xs ++ b ∷ ys)) < word
    → has m (xs ++ b ∷ ys) ≡ false
    → Holds h l (xs ++ b ∷ ys)
    → HoldsIn (dlink_add_before b object m h l) (set_at h.value m object) (xs ++ m ∷ b ∷ ys)
unfolding dlink_add_before dlink_add
dlink_add_before-Holds b object m h l [] ys fits o w =
    if-case {A = Option (Nodes × DlinkList)} (λ r. HoldsIn r (set_at h.value m object) (m ∷ b ∷ ys))
      (points_to l.head b) (λ e. (refl, dlink_add-Holds object m h l (b ∷ ys) fits o w))
      (λ e. absurd (true≢false (sym (ap (λ p. points_to p b) w.head ∙ ==_refl b) ∙ e)))
dlink_add_before-Holds b object m h l (a ∷ xs) ys fits o w =
    let parts = Chain-split h.prev h.next none (a ∷ xs) (b ∷ ys) none w.chain in
    let (p, e) = last-some a xs in
    let other : (a == b) ≡ false =
      ground (arith, (Distinct-split (a ∷ xs) (b ∷ ys) w.distinct).1.1 a, ==_refl a) in
    rw (w.head, other, parts.1.0, e)
      (
        refl,
        record {
          chain =
              subst
                (λ x.
                  Chain (set_at (set_at h.prev m x) b (some m))
                    (set_at (set_through h.next x (some m)) m (some b)) none (a ∷ xs ++ m ∷ b ∷ ys)
                    none)
                e (link h.prev h.next b m (a ∷ xs) ys w.distinct o w.chain);
          distinct = Distinct-with m (a ∷ xs) (b ∷ ys) w.distinct o;
          head = w.head;
          tail =
              w.tail
              ∙ last_or-append (some a) xs (b ∷ ys)
              ∙ sym (last_or-append (some a) xs (m ∷ b ∷ ys));
          size = omega (arith, w.size, length-append xs (b ∷ ys), length-append xs (m ∷ b ∷ ys));
        },
      )
