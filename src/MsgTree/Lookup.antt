-- ===== src/MsgTree/Lookup.antt =====
-- The trie of src/parse.c as a partial map from paths to messages, and when its link counts are right.
use unirc_ircd.Prelude.{
  ℕ, zero, suc, ◌+◌, ◌<◌, ◌≤◌, ◌≡◌, refl, sym, ◌∙◌, ap, List, [], ◌∷◌, arith, Option, none, some,
}
use unirc_ircd.Chars.{Bytes}
use unirc_ircd.MsgTree.{
  MessageTree, node, Pointers, nil, null, child, get_ptr, set_ptr, new_ptr, null_ptrs, new_tree,
  links_of, msg_of, maxptrlen, ptr_index, parse_from,
}
use unirc_ircd.MsgTree.Keys.{key_of, IsCommand, size}

pub lookup : MessageTree → List ℕ → Option ℕ
lookup (node l m ps) [] = m
lookup (node l m ps) (i ∷ k) = elim (get_ptr ps i) [ none ↦ none | some t ↦ lookup t k ]

abbrev pub lookup_opt : Option MessageTree → List ℕ → Option ℕ
lookup_opt none k = none
lookup_opt (some t) k = lookup t k

pub lookup-nil : (l : ℕ) (m : Option ℕ) (ps : Pointers) → lookup (node l m ps) [] ≡ m
unfolding lookup
lookup-nil l m ps = refl

pub lookup-cons :
    (l : ℕ) (m : Option ℕ) (ps : Pointers) (i : ℕ) (k : List ℕ)
    → lookup (node l m ps) (i ∷ k) ≡ lookup_opt (get_ptr ps i) k
unfolding lookup
lookup-cons l m ps i k = ground arith

abbrev pub one : {A : Type 0} → Option A → ℕ
one none = 0
one (some a) = 1

abbrev pub used : Pointers → ℕ
used nil = 0
used (null ps) = used ps
used (child t ps) = suc (used ps)

-- At each node the links are the pointers in use and the message, there are 32 pointers, and no node
-- below has no link.
abbrev mutual
  pub IsValid : MessageTree → Type 0
  IsValid (node l m ps) = (l ≡ one m + used ps) × (size ps ≡ maxptrlen) × AreValid ps

  pub AreValid : Pointers → Type 0
  AreValid nil = Unit {0}
  AreValid (null ps) = AreValid ps
  AreValid (child t ps) = IsValid t × (0 < links_of t) × AreValid ps

abbrev pub OptIsValid : Option MessageTree → Type 0
OptIsValid none = Unit {0}
OptIsValid (some t) = IsValid t × (0 < links_of t)

pub get_ptr-IsValid : (ps : Pointers) (i : ℕ) → AreValid ps → OptIsValid (get_ptr ps i)
unfolding get_ptr
get_ptr-IsValid nil i v = tt
get_ptr-IsValid (null ps) zero v = tt
get_ptr-IsValid (null ps) (suc i) v = get_ptr-IsValid ps i v
get_ptr-IsValid (child t ps) zero v = (v.0, v.1)
get_ptr-IsValid (child t ps) (suc i) v = get_ptr-IsValid ps i v.2

new_ptr-AreValid :
    (o : Option MessageTree) (ps : Pointers) → OptIsValid o → AreValid ps → AreValid (new_ptr o ps)
new_ptr-AreValid none ps h v = v
new_ptr-AreValid (some t) ps h v = (h.0, h.1, v)

pub set_ptr-AreValid :
    (ps : Pointers) (i : ℕ) (o : Option MessageTree)
    → OptIsValid o
    → AreValid ps
    → AreValid (set_ptr ps i o)
unfolding set_ptr
set_ptr-AreValid nil i o h v = tt
set_ptr-AreValid (null ps) zero o h v = new_ptr-AreValid o ps h v
set_ptr-AreValid (null ps) (suc i) o h v = set_ptr-AreValid ps i o h v
set_ptr-AreValid (child t ps) zero o h v = new_ptr-AreValid o ps h v.2
set_ptr-AreValid (child t ps) (suc i) o h v = (v.0, v.1, set_ptr-AreValid ps i o h v.2)

used-new_ptr : (o : Option MessageTree) (ps : Pointers) → used (new_ptr o ps) ≡ used ps + one o
used-new_ptr none ps = omega arith
used-new_ptr (some t) ps = omega arith

pub used-set_ptr :
    (ps : Pointers) (i : ℕ) (o : Option MessageTree)
    → i < size ps
    → used (set_ptr ps i o) + one (get_ptr ps i) ≡ used ps + one o
unfolding set_ptr get_ptr
used-set_ptr nil i o h = elim h [ ]
used-set_ptr (null ps) zero o h = omega (arith, used-new_ptr o ps)
used-set_ptr (null ps) (suc i) o h = used-set_ptr ps i o (omega arith)
used-set_ptr (child t ps) zero o h = omega (arith, used-new_ptr o ps)
used-set_ptr (child t ps) (suc i) o h = omega (arith, used-set_ptr ps i o (omega arith))

pub one-le-used : (ps : Pointers) (i : ℕ) → one (get_ptr ps i) ≤ used ps
unfolding get_ptr
one-le-used nil i = omega arith
one-le-used (null ps) zero = omega arith
one-le-used (null ps) (suc i) = one-le-used ps i
one-le-used (child t ps) zero = omega arith
one-le-used (child t ps) (suc i) = omega (arith, one-le-used ps i)

pub get_ptr-used : (ps : Pointers) (i : ℕ) → used ps ≡ 0 → get_ptr ps i ≡ none
unfolding get_ptr
get_ptr-used nil i h = refl
get_ptr-used (null ps) zero h = refl
get_ptr-used (null ps) (suc i) h = get_ptr-used ps i h
get_ptr-used (child t ps) i h = absurd (omega arith)

-- A node with no link holds nothing.
pub lookup-no_links :
    (t : MessageTree) (k : List ℕ) → IsValid t → links_of t ≡ 0 → lookup t k ≡ none
unfolding links_of
lookup-no_links (node l none ps) [] v h = lookup-nil l none ps
lookup-no_links (node l (some m) ps) [] v h = absurd (omega (arith, v.0))
lookup-no_links (node l m ps) (i ∷ k) v h =
    lookup-cons l m ps i k ∙ rw (get_ptr-used ps i (omega (arith, v.0)))

null_ptrs-empty :
    (n : ℕ) → (used (null_ptrs n) ≡ 0) × (size (null_ptrs n) ≡ n) × AreValid (null_ptrs n)
unfolding null_ptrs
null_ptrs-empty zero = (refl, refl, tt)
null_ptrs-empty (suc n) = let (u, s, v) = null_ptrs-empty n in (u, ap suc s, v)

pub new_tree-IsValid : IsValid new_tree
unfolding new_tree
new_tree-IsValid = let (u, s, v) = null_ptrs-empty maxptrlen in (omega (arith, u), s, v)

pub lookup-new_tree : (k : List ℕ) → lookup new_tree k ≡ none
lookup-new_tree k = lookup-no_links new_tree k new_tree-IsValid (unfold new_tree links_of in refl)

msg_of-lookup :
    (o : Option MessageTree) → elim o [ none ↦ none | some t ↦ msg_of t ] ≡ lookup_opt o []
unfolding msg_of
msg_of-lookup none = refl
msg_of-lookup (some (node l m ps)) = sym (lookup-nil l m ps)

parse_from-opt :
    (cmd : Bytes) (k : List ℕ)
    → ((t : MessageTree) → parse_from t cmd ≡ lookup t k)
    → (o : Option MessageTree) → elim o [ none ↦ none | some t ↦ parse_from t cmd ] ≡ lookup_opt o k
parse_from-opt cmd k h none = refl
parse_from-opt cmd k h (some t) = h t

-- The parse of a command of letters is the lookup of its path.
pub parse_from-lookup :
    (t : MessageTree) (c : ℕ) (cmd : Bytes)
    → IsCommand (c ∷ cmd)
    → parse_from t (c ∷ cmd) ≡ lookup t (key_of (c ∷ cmd))
unfolding parse_from
parse_from-lookup (node l m ps) c [] h =
    rw (h.1, parse_from)
      (msg_of-lookup (get_ptr ps (ptr_index c)) ∙ sym (lookup-cons l m ps (ptr_index c) []))
parse_from-lookup (node l m ps) c (d ∷ cmd) h =
    rw (h.1, parse_from)
      (parse_from-opt (d ∷ cmd) (key_of (d ∷ cmd)) (λ t. parse_from-lookup t d cmd h.2)
          (get_ptr ps (ptr_index c))
        ∙ sym (lookup-cons l m ps (ptr_index c) (key_of (d ∷ cmd))))
