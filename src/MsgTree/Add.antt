-- ===== src/MsgTree/Add.antt =====
-- `add_msg_element` of src/parse.c.
use unirc_ircd.Prelude.{
  ℕ, ◌+◌, ◌<◌, ◌≡◌, refl, sym, ◌∙◌, ap, Bool, true, false, ◌&&◌, List, [], ◌∷◌, arith, ◌==◌,
  if◌then◌else◌, Option, none, some, Bool-cases, inl, inr, ==_refl,
}
use unirc_ircd.Chars.{Bytes}
use unirc_ircd.MsgTree.{
  MessageTree, node, Pointers, get_ptr, set_ptr, new_tree, links_of, ptr_index, add_msg_element,
}
use unirc_ircd.MsgTree.Keys.{key_of, same_key, size, get_ptr-set_ptr, size-set_ptr}
use unirc_ircd.MsgTree.Lookup.{
  lookup, lookup_opt, lookup-nil, lookup-cons, one, IsValid, OptIsValid, get_ptr-IsValid,
  set_ptr-AreValid, used-set_ptr, one-le-used, new_tree-IsValid, lookup-new_tree,
}

-- What is below a pointer that has been set.
pub lookup_opt-set :
    (ps : Pointers) (i j : ℕ) (o : Option MessageTree) (k : List ℕ)
    → i < size ps
    → lookup_opt (get_ptr (set_ptr ps i o) j) k
      ≡ (if i == j then lookup_opt o k else lookup_opt (get_ptr ps j) k)
lookup_opt-set ps i j o k h = elim (Bool-cases (i == j)) [
  | inl e ↦ rw (get_ptr-set_ptr ps i j o h, e)
  | inr e ↦ rw (get_ptr-set_ptr ps i j o h, e)
]

add_below : Option MessageTree → ℕ → Bytes → MessageTree
add_below none msg cmd = add_msg_element new_tree msg cmd
add_below (some t) msg cmd = add_msg_element t msg cmd

abbrev new_links : Option MessageTree → ℕ
new_links none = 1
new_links (some t) = 0

-- One step of the recursion, whether the pointer was there or not.
add-cons :
    (l : ℕ) (m : Option ℕ) (ps : Pointers) (msg c : ℕ) (cmd : Bytes)
    → add_msg_element (node l m ps) msg (c ∷ cmd)
      ≡ node
          (l + new_links (get_ptr ps (ptr_index c)))
          m
          (set_ptr ps (ptr_index c) (some (add_below (get_ptr ps (ptr_index c)) msg cmd)))
unfolding add_msg_element add_below
add-cons l m ps msg c cmd = step (get_ptr ps (ptr_index c))
  where
    step :
        (o : Option MessageTree)
        → elim o [
          | none ↦
              node (l + 1) m (set_ptr ps (ptr_index c) (some (add_msg_element new_tree msg cmd)))
          | some t ↦ node l m (set_ptr ps (ptr_index c) (some (add_msg_element t msg cmd)))
        ]
          ≡ node (l + new_links o) m (set_ptr ps (ptr_index c) (some (add_below o msg cmd)))
    step none = refl
    step (some t) =
        ap (λ (n : ℕ). node n m (set_ptr ps (ptr_index c) (some (add_msg_element t msg cmd))))
          {x = l} {y = l + 0} (omega arith)

pub index_in_range : (c : ℕ) (ps : Pointers) → size ps ≡ 32 → ptr_index c < size ps
index_in_range c ps h = omega arith

lookup-add_below :
    (o : Option MessageTree) (msg : ℕ) (cmd : Bytes) (k : List ℕ)
    → OptIsValid o
    → ((t : MessageTree)
        → IsValid t
        → lookup (add_msg_element t msg cmd) k
          ≡ (if same_key (key_of cmd) k then some msg else lookup t k))
    → lookup (add_below o msg cmd) k
      ≡ (if same_key (key_of cmd) k then some msg else lookup_opt o k)
unfolding add_below
lookup-add_below none msg cmd k v ih =
    ih new_tree new_tree-IsValid
    ∙ ap (λ x. if same_key (key_of cmd) k then some msg else x) (lookup-new_tree k)
lookup-add_below (some t) msg cmd k v ih = ih t v.0

-- Adding a command to a valid trie gives its path the message and changes no other path.
pub lookup-add :
    (t : MessageTree) (msg : ℕ) (cmd : Bytes) (k : List ℕ)
    → IsValid t
    → lookup (add_msg_element t msg cmd) k
      ≡ (if same_key (key_of cmd) k then some msg else lookup t k)
lookup-add (node l m ps) msg [] [] v = unfold add_msg_element in lookup-nil (l + 1) (some msg) ps
lookup-add (node l m ps) msg [] (j ∷ k) v =
    unfold add_msg_element in lookup-cons (l + 1) (some msg) ps j k ∙ sym (lookup-cons l m ps j k)
lookup-add (node l m ps) msg (c ∷ cmd) [] v =
    ap (λ t. lookup t []) (add-cons l m ps msg c cmd) ∙ lookup-nil _ m _ ∙ sym (lookup-nil l m ps)
lookup-add (node l m ps) msg (c ∷ cmd) (j ∷ k) v =
    let i : ℕ = ptr_index c in
    let o = get_ptr ps i in
    let below =
      lookup-add_below o msg cmd k (get_ptr-IsValid ps i v.2) (λ t w. lookup-add t msg cmd k w) in
    ap (λ t. lookup t (j ∷ k)) (add-cons l m ps msg c cmd)
    ∙ lookup-cons _ m _ j k
    ∙ lookup_opt-set ps i j (some (add_below o msg cmd)) k (index_in_range c ps v.1)
    ∙ ap (λ x. if i == j then x else lookup_opt (get_ptr ps j) k) below
    ∙ joined i j (i == j) refl
    ∙ ap (λ x. if i == j && same_key (key_of cmd) k then some msg else x)
        (sym (lookup-cons l m ps j k))
  where
    joined :
        (i j : ℕ) (b : Bool)
        → (i == j) ≡ b
        → (if i == j
            then (if same_key (key_of cmd) k then some msg else lookup_opt (get_ptr ps i) k)
            else lookup_opt (get_ptr ps j) k)
          ≡ (if i == j && same_key (key_of cmd) k then some msg else lookup_opt (get_ptr ps j) k)
    joined i j true e = let ij : i ≡ j = ground (arith, e) in rw (ij, ==_refl j)
    joined i j false e = rw e

added-IsValid :
    (o : Option MessageTree) (msg : ℕ) (cmd : Bytes)
    → OptIsValid o
    → lookup_opt o (key_of cmd) ≡ none
    → ((t : MessageTree)
        → IsValid t
        → lookup t (key_of cmd) ≡ none
        → IsValid (add_msg_element t msg cmd) × (0 < links_of (add_msg_element t msg cmd)))
    → OptIsValid (some (add_below o msg cmd))
unfolding add_below
added-IsValid none msg cmd v h ih = ih new_tree new_tree-IsValid (lookup-new_tree (key_of cmd))
added-IsValid (some t) msg cmd v h ih = ih t v.0 h

-- Adding a command whose path has no message keeps the trie valid.
pub add-IsValid :
    (t : MessageTree) (msg : ℕ) (cmd : Bytes)
    → IsValid t
    → lookup t (key_of cmd) ≡ none
    → IsValid (add_msg_element t msg cmd) × (0 < links_of (add_msg_element t msg cmd))
add-IsValid (node l m ps) msg [] v h =
    let e : m ≡ none = sym (lookup-nil l m ps) ∙ h in
    unfold add_msg_element links_of in ((omega (arith, v.0, ap one e), v.1, v.2), omega arith)
add-IsValid (node l m ps) msg (c ∷ cmd) v h =
    let i : ℕ = ptr_index c in
    let o = get_ptr ps i in
    let below =
      added-IsValid o msg cmd (get_ptr-IsValid ps i v.2)
        (sym (lookup-cons l m ps i (key_of cmd)) ∙ h) (λ t w e. add-IsValid t msg cmd w e) in
    let count = used-set_ptr ps i (some (add_below o msg cmd)) (index_in_range c ps v.1) in
    rw (add-cons l m ps msg c cmd) (
      (
        omega (arith, v.0, count, links_or_one o),
        size-set_ptr ps i _ ∙ v.1,
        set_ptr-AreValid ps i _ below v.2,
      ),
      (unfold links_of in omega (arith, v.0, links_or_one o, one-le-used ps i)),
    )
  where
    links_or_one : (o : Option MessageTree) → new_links o + one o ≡ 1
    links_or_one none = refl
    links_or_one (some t) = refl
