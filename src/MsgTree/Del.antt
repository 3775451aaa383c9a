-- ===== src/MsgTree/Del.antt =====
-- `del_msg_element` of src/parse.c.
use unirc_ircd.Prelude.{
  ℕ, ◌+◌, ◌-◌, ◌<◌, ◌≡◌, refl, sym, ◌∙◌, ap, Bool, true, false, ◌&&◌, List, [], ◌∷◌, arith, ◌==◌,
  if◌then◌else◌, Option, none, some, Bool-cases, inl, inr,
}
use unirc_ircd.Chars.{Bytes}
use unirc_ircd.MsgTree.{
  MessageTree, node, Pointers, get_ptr, set_ptr, links_of, ptr_index, del_msg_element, del_child,
}
use unirc_ircd.MsgTree.Keys.{key_of, same_key, size, size-set_ptr}
use unirc_ircd.MsgTree.Lookup.{
  lookup, lookup_opt, lookup-nil, lookup-cons, lookup-no_links, one, IsValid, OptIsValid,
  get_ptr-IsValid, set_ptr-AreValid, used-set_ptr, one-le-used,
}
use unirc_ircd.MsgTree.Add.{lookup_opt-set, index_in_range}

-- The deletion met no fault, and left a valid trie without the path and with every other path as it was.
pub record Removed (before after : MessageTree) (path : List ℕ) : Type 0 where
  pub valid : IsValid after
  pub lookups : (k : List ℕ) → lookup after k ≡ (if same_key path k then none else lookup before k)

abbrev pub Removes : Option MessageTree → MessageTree → List ℕ → Type 0
Removes none before path = ⊥
Removes (some after) before path = Removed before after path

module _ (l : ℕ) (m : Option ℕ) (ps : Pointers) (c : ℕ) (v : IsValid (node l m ps)) where
  -- The parent, with what is left of the child in its place.
  set_below :
      (t : MessageTree) (path : List ℕ) (n : ℕ) (o : Option MessageTree)
      → get_ptr ps (ptr_index c) ≡ some t
      → n + 1 ≡ l + one o
      → OptIsValid o
      → ((k : List ℕ) → lookup_opt o k ≡ (if same_key path k then none else lookup t k))
      → Removed (node l m ps) (node n m (set_ptr ps (ptr_index c) o)) (ptr_index c ∷ path)
  set_below t path n o e hn vo below = record {
    valid = (
      omega (arith, v.0, used-set_ptr ps i o r, ap one e, one-le-used ps i),
      size-set_ptr ps i o ∙ v.1,
      set_ptr-AreValid ps i o vo v.2,
    );
    lookups = λ k. looked k;
  }
    where
      i : ℕ
      i = ptr_index c

      r : i < size ps
      r = index_in_range c ps v.1

      joined :
          (j : ℕ) (k : List ℕ) (b : Bool)
          → (i == j) ≡ b
          → (if i == j
              then (if same_key path k then none else lookup t k)
              else lookup_opt (get_ptr ps j) k)
            ≡ (if i == j && same_key path k then none else lookup_opt (get_ptr ps j) k)
      joined j k true h =
          let ij : i ≡ j = ground (arith, h) in
          rw h (
            ap (λ x. if same_key path k then none else x)
              (ap (λ x. lookup_opt x k) (sym e ∙ ap (get_ptr ps) ij)))
      joined j k false h = rw h

      looked :
          (k : List ℕ)
          → lookup (node n m (set_ptr ps i o)) k
            ≡ (if same_key (i ∷ path) k then none else lookup (node l m ps) k)
      looked [] = lookup-nil n m _ ∙ sym (lookup-nil l m ps)
      looked (j ∷ k) =
          lookup-cons n m _ j k
          ∙ lookup_opt-set ps i j o k r
          ∙ ap (λ x. if i == j then x else lookup_opt (get_ptr ps j) k) (below k)
          ∙ joined j k (i == j) refl
          ∙ ap (λ x. if i == j && same_key path k then none else x) (sym (lookup-cons l m ps j k))

  del_child-Removes :
      (t : MessageTree) (path : List ℕ) (o : Option MessageTree)
      → get_ptr ps (ptr_index c) ≡ some t
      → Removes o t path
      → Removes (del_child l m ps (ptr_index c) o) (node l m ps) (ptr_index c ∷ path)
  unfolding del_child
  del_child-Removes t path none e h = h
  del_child-Removes t path (some t') e h = elim (Bool-cases (links_of t' == 0)) [
    | inl freed ↦
        let z : links_of t' ≡ 0 = ground (arith, freed) in
        rw freed (
          set_below t path (l - 1) none e
            (ground (arith, v.0, one-le-used ps (ptr_index c), ap one e)) tt
            (λ k. sym (lookup-no_links t' k h.valid z) ∙ h.lookups k))
    | inr kept ↦
        rw kept
          (set_below t path l (some t') e refl (h.valid, ground (arith, kept)) (λ k. h.lookups k))
  ]

  -- One step of the recursion, for a pointer with its equation.
  del_step :
      (msg : ℕ) (cmd : Bytes) (o : Option MessageTree)
      → get_ptr ps (ptr_index c) ≡ o
      → lookup_opt o (key_of cmd) ≡ some msg
      → OptIsValid o
      → ((t : MessageTree)
          → IsValid t
          → lookup t (key_of cmd) ≡ some msg
          → Removes (del_msg_element t cmd) t (key_of cmd))
      → Removes
          (elim o [
            | none ↦ some (node l m ps)
            | some t ↦ del_child l m ps (ptr_index c) (del_msg_element t cmd)
          ])
          (node l m ps)
          (key_of (c ∷ cmd))
  del_step msg cmd none e h w ih = absurd (cc h)
  del_step msg cmd (some t) e h w ih =
      del_child-Removes t (key_of cmd) (del_msg_element t cmd) e (ih t w.0 h)

-- Deleting a command whose path has a message meets no fault, keeps the trie valid, and takes away
-- that path's message only.
pub del-Removes :
    (t : MessageTree) (msg : ℕ) (cmd : Bytes)
    → IsValid t
    → lookup t (key_of cmd) ≡ some msg
    → Removes (del_msg_element t cmd) t (key_of cmd)
unfolding del_msg_element
del-Removes (node l none ps) msg [] v h = let e = lookup-nil l none ps in absurd (cc (h, e))
del-Removes (node l (some m) ps) msg [] v h = record {
  valid = (omega (arith, v.0), v.1, v.2);
  lookups = λ k. looked k;
}
  where
    looked :
        (k : List ℕ)
        → lookup (node (l - 1) none ps) k
          ≡ (if same_key [] k then none else lookup (node l (some m) ps) k)
    looked [] = lookup-nil (l - 1) none ps
    looked (j ∷ k) = lookup-cons (l - 1) none ps j k ∙ sym (lookup-cons l (some m) ps j k)
del-Removes (node l none ps) msg (c ∷ cmd) v h =
    del_step l none ps c v msg cmd (get_ptr ps (ptr_index c)) refl
      (sym (lookup-cons l none ps (ptr_index c) (key_of cmd)) ∙ h)
      (get_ptr-IsValid ps (ptr_index c) v.2) (λ t w e. del-Removes t msg cmd w e)
del-Removes (node l (some m) ps) msg (c ∷ cmd) v h =
    del_step l (some m) ps c v msg cmd (get_ptr ps (ptr_index c)) refl
      (sym (lookup-cons l (some m) ps (ptr_index c) (key_of cmd)) ∙ h)
      (get_ptr-IsValid ps (ptr_index c) v.2) (λ t w e. del-Removes t msg cmd w e)
