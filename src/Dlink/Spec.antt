-- ===== src/Dlink/Spec.antt =====
-- The lists of src/tools.c as sequences of nodes.
use mathlib.Core.Path.{subst}
use unirc_ircd.Prelude.{
  ℕ, zero, suc, ◌≤◌, ◌<◌, ◌≡◌, refl, sym, ◌∙◌, ap, Bool, true, false, Option, none, some, List, [],
  ◌∷◌, ◌++◌, arith, ◌==◌, ==_iff, ==_refl, Bool-cases, Option-cases, inl, inr, if◌then◌else◌,
  length, remove_first,
}
use unirc_ircd.Dlink.{
  word, Nodes, DlinkList, set_at, set_through, dlink_add, dlink_add_tail, dlink_add_before,
  dlink_delete, find_loop, dlink_find, dlink_find_delete,
}
use unirc_ircd.Dlink.Chain.{has, first_or, Chain, set_at-same}
use unirc_ircd.Dlink.Frame.{
  Untouched, UntouchedIn, dlink_add-Untouched, dlink_add_tail-Untouched, dlink_add_before-Untouched,
  dlink_delete-Untouched,
}
use unirc_ircd.Dlink.Change.{
  Holds, HoldsIn, dlink_add-Holds, dlink_add_tail-Holds, dlink_add_before-Holds, dlink_delete-Holds,
}
use unirc_ircd.Dlink.Sequence.{
  returns, apply_to, node_with, insert_before, after, answer, objects, taken_out, nodes_of, Cleared,
  Allowed, Yields, Operation, add, add_tail, add_before, delete, find, find_delete,
}

-- A node of a list parts it.
pub record Parts (m c : ℕ) (xs : List ℕ) : Type 0 where
  pub front : List ℕ
  pub back : List ℕ
  pub whole : xs ≡ front ++ m ∷ back
  pub removed : remove_first m xs ≡ front ++ back
  pub inserted : insert_before m c xs ≡ front ++ c ∷ m ∷ back

pub parts : (m c : ℕ) (xs : List ℕ) → has m xs ≡ true → Parts m c xs
parts m c [] i = ground arith
parts m c (a ∷ xs) i = elim (Bool-cases (a == m)) [
  | inl e ↦
      let eq : a ≡ m = (==_iff a m).0 e in
      record {
        front = [];
        back = xs;
        whole = ap (λ x. x ∷ xs) eq;
        removed = rw e refl;
        inserted = rw e (ap (λ x. c ∷ x ∷ xs) eq);
      }
  | inr e ↦
      let rest = parts m c xs (ground arith) in
      record {
        front = a ∷ rest.front;
        back = rest.back;
        whole = ap (λ x. a ∷ x) rest.whole;
        removed = rw e (ap (λ x. a ∷ x) rest.removed);
        inserted = rw e (ap (λ x. a ∷ x) rest.inserted);
      }
]

-- The search ends, if it has as many rounds as the list has nodes.
find_loop-node_with :
    (rounds object : ℕ) (h : Nodes) (p : Option ℕ) (xs : List ℕ)
    → length xs ≤ rounds
    → Chain h.prev h.next p xs none
    → find_loop rounds object h (first_or none xs) ≡ some (node_with h.value object xs)
unfolding find_loop
find_loop-node_with zero object h p [] l c = refl
find_loop-node_with (suc n) object h p [] l c = refl
find_loop-node_with zero object h p (a ∷ xs) l c = absurd (omega arith)
find_loop-node_with (suc n) object h p (a ∷ xs) l c =
    rw (c.1, find_loop-node_with n object h (some a) xs (omega arith) c.2)
      (if_some (h.value a == object) a (node_with h.value object xs))
  where
    if_some :
        (b : Bool) (a : ℕ) (o : Option ℕ)
        → (if b then some (some a) else some o) ≡ some (if b then some a else o)
    if_some true a o = refl
    if_some false a o = refl

has-node_with :
    (value : ℕ → ℕ) (object m : ℕ) (xs : List ℕ)
    → node_with value object xs ≡ some m
    → has m xs ≡ true
has-node_with value object m [] e = ground arith
has-node_with value object m (a ∷ xs) e = ground (arith, has-node_with value object m xs, ==_refl a)

dlink_find-node_with :
    (rounds object : ℕ) (h : Nodes) (l : DlinkList) (xs : List ℕ)
    → length xs ≤ rounds
    → Holds h l xs
    → dlink_find rounds object h l ≡ some (node_with h.value object xs)
unfolding dlink_find
dlink_find-node_with rounds object h l xs r w =
    ap (find_loop rounds object h) w.head ∙ find_loop-node_with rounds object h none xs r w.chain

delete-Yields :
    (m : ℕ) (h : Nodes) (l : DlinkList) (xs : List ℕ)
    → suc (length xs) < word
    → has m xs ≡ true
    → Holds h l xs
    → Holds (dlink_delete m h l).0 (dlink_delete m h l).1 (remove_first m xs)
delete-Yields m h l xs fits i w =
    let cut = parts m m xs i in
    subst (Holds (dlink_delete m h l).0 (dlink_delete m h l).1) (sym cut.removed) (
      dlink_delete-Holds m h l cut.front cut.back
        (subst (λ x. length x < word) cut.whole (omega arith)) (subst (Holds h l) cut.whole w))

delete-Untouched :
    (m : ℕ) (h : Nodes) (l : DlinkList) (xs : List ℕ)
    → has m xs ≡ true
    → Holds h l xs
    → Untouched h xs (dlink_delete m h l).0
delete-Untouched m h l xs i w =
    let cut = parts m m xs i in
    subst (λ x. Untouched h x (dlink_delete m h l).0) (sym cut.whole)
      (dlink_delete-Untouched m h l cut.front cut.back (subst (Holds h l) cut.whole w))

dlink_delete-Cleared : (m : ℕ) (h : Nodes) (l : DlinkList) → Cleared (dlink_delete m h l).0 (some m)
unfolding dlink_delete
dlink_delete-Cleared m h l =
    let prev1 = set_through h.prev (h.next m) (h.prev m) in
    (set_at-same prev1 m none, set_at-same (set_through h.next (prev1 m) (h.next m)) m none)

-- Every operation on one list of distinct nodes, which are all but `dlinkMoveList`, in which an added node is new,
-- another is added before one of its nodes, and one of its nodes is deleted, ends without a fault, if a
-- search has as many rounds as there are nodes and the length does not wrap around; the list is then
-- what the sequence is after the operation, forwards, backwards and in length, the answer is that of
-- the sequence, of a node that is taken out both pointers are NULL, and nodes that are neither in the list nor added keep
-- their pointers.
pub dlink-Yields :
    (rounds : ℕ) (op : Operation) (h : Nodes) (l : DlinkList) (xs : List ℕ)
    → length xs ≤ rounds
    → suc (length xs) < word
    → Allowed op xs
    → Holds h l xs
    → Yields
        (apply_to rounds op h l)
        (answer op h.value xs)
        (objects op h.value)
        (after op h.value xs)
        (taken_out op h.value xs)
        h
        (nodes_of op xs)
unfolding dlink_add dlink_add_tail dlink_delete dlink_find_delete
dlink-Yields rounds (add object m) h l xs r fits a w = (
  refl,
  refl,
  dlink_add-Holds object m h l xs fits a w,
  tt,
  dlink_add-Untouched object m h l xs w,
)
dlink-Yields rounds (add_tail object m) h l xs r fits a w = (
  refl,
  refl,
  dlink_add_tail-Holds object m h l xs fits a w,
  tt,
  dlink_add_tail-Untouched object m h l xs w,
)
dlink-Yields rounds (add_before b object m) h l xs r fits a w =
    let cut = parts b m xs a.0 in
    let here = subst (Holds h l) cut.whole w in
    before (dlink_add_before b object m h l) (set_at h.value m object) (insert_before b m xs)
      (subst (HoldsIn (dlink_add_before b object m h l) (set_at h.value m object))
        (sym cut.inserted)
        (dlink_add_before-Holds b object m h l cut.front cut.back
          (subst (λ x. suc (length x) < word) cut.whole fits)
          (subst (λ x. has m x ≡ false) cut.whole a.1) here))
      (subst (λ x. UntouchedIn h (m ∷ x) (dlink_add_before b object m h l)) (sym cut.whole)
        (dlink_add_before-Untouched b object m h l cut.front cut.back here))
  where
    before :
        (o : Option (Nodes × DlinkList)) (value : ℕ → ℕ) (ys : List ℕ)
        → HoldsIn o value ys
        → UntouchedIn h (m ∷ xs) o
        → Yields (elim o [ none ↦ none | some r ↦ returns none r ]) none value ys none h (m ∷ xs)
    before none value ys p u = p
    before (some r) value ys p u = (refl, p.0, p.1, tt, u)
dlink-Yields rounds (delete m) h l xs r fits a w = (
  refl,
  refl,
  delete-Yields m h l xs fits a w,
  dlink_delete-Cleared m h l,
  delete-Untouched m h l xs a w,
)
dlink-Yields rounds (find object) h l xs r fits a w =
    rw (dlink_find-node_with rounds object h l xs r w, Yields)
      (refl, refl, w, tt, λ b o. (refl, refl))
dlink-Yields rounds (find_delete object) h l xs r fits a w =
    rw (dlink_find-node_with rounds object h l xs r w, Yields)
      (elim (Option-cases (node_with h.value object xs)) [
        | inl e ↦ rw e (refl, refl, w, tt, λ b o. (refl, refl))
        | inr (m, e) ↦
            let inside = has-node_with h.value object m xs e in
            rw e (
              refl,
              refl,
              delete-Yields m h l xs fits inside w,
              dlink_delete-Cleared m h l,
              delete-Untouched m h l xs inside w,
            )
      ])
