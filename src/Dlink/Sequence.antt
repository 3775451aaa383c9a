-- ===== src/Dlink/Sequence.antt =====
-- What the operations of src/tools.c are for sequences of nodes.
use unirc_ircd.Prelude.{
  ℕ, ◌≡◌, true, false, Option, none, some, List, [], ◌∷◌, ◌++◌, ◌==◌, if◌then◌else◌, remove_first,
}
use unirc_ircd.Dlink.{
  Nodes, DlinkList, set_at, dlink_add, dlink_add_tail, dlink_add_before, dlink_delete, dlink_find,
  dlink_find_delete,
}
use unirc_ircd.Dlink.Chain.{has}
use unirc_ircd.Dlink.Frame.{Untouched}
use unirc_ircd.Dlink.Change.{Holds}

pub data Operation : Type 0 where
  add : ℕ → ℕ → Operation
  add_tail : ℕ → ℕ → Operation
  add_before : ℕ → ℕ → ℕ → Operation
  delete : ℕ → Operation
  find : ℕ → Operation
  find_delete : ℕ → Operation

-- What an operation returns, and the nodes and the list behind it.
abbrev pub Outcome : Type 0
Outcome = Option (Option ℕ × (Nodes × DlinkList))

abbrev pub returns : Option ℕ → Nodes × DlinkList → Outcome
returns r after = some (r, after)

abbrev pub apply_to : ℕ → Operation → Nodes → DlinkList → Outcome
apply_to rounds (add object m) h l = returns none (dlink_add object m h l)
apply_to rounds (add_tail object m) h l = returns none (dlink_add_tail object m h l)
apply_to rounds (add_before b object m) h l = elim (dlink_add_before b object m h l) [
  | none ↦ none
  | some r ↦ returns none r
]
apply_to rounds (delete m) h l = returns none (dlink_delete m h l)
apply_to rounds (find object) h l = elim (dlink_find rounds object h l) [
  | none ↦ none
  | some found ↦ returns found (h, l)
]
apply_to rounds (find_delete object) h l = dlink_find_delete rounds object h l

-- The first node with an object.
abbrev pub node_with : (ℕ → ℕ) → ℕ → List ℕ → Option ℕ
node_with value object [] = none
node_with value object (a ∷ xs) =
    let rest = node_with value object xs in if value a == object then some a else rest

abbrev pub insert_before : ℕ → ℕ → List ℕ → List ℕ
insert_before b m [] = []
insert_before b m (a ∷ xs) =
    let rest = insert_before b m xs in if a == b then m ∷ a ∷ xs else a ∷ rest

abbrev pub without : Option ℕ → List ℕ → List ℕ
without none xs = xs
without (some m) xs = remove_first m xs

-- What the sequence is afterwards, what is returned, and what the nodes' objects are.
abbrev pub after : Operation → (ℕ → ℕ) → List ℕ → List ℕ
after (add object m) value xs = m ∷ xs
after (add_tail object m) value xs = xs ++ m ∷ []
after (add_before b object m) value xs = insert_before b m xs
after (delete m) value xs = remove_first m xs
after (find object) value xs = xs
after (find_delete object) value xs = without (node_with value object xs) xs

abbrev pub answer : Operation → (ℕ → ℕ) → List ℕ → Option ℕ
answer (find object) value xs = node_with value object xs
answer (find_delete object) value xs = node_with value object xs
answer _ value xs = none

abbrev pub objects : Operation → (ℕ → ℕ) → ℕ → ℕ
objects (add object m) value = set_at value m object
objects (add_tail object m) value = set_at value m object
objects (add_before b object m) value = set_at value m object
objects _ value = value

-- The node that is taken out.
abbrev pub taken_out : Operation → (ℕ → ℕ) → List ℕ → Option ℕ
taken_out (delete m) value xs = some m
taken_out (find_delete object) value xs = node_with value object xs
taken_out _ value xs = none

-- The nodes of the list, and the one that is added.
abbrev pub nodes_of : Operation → List ℕ → List ℕ
nodes_of (add object m) xs = m ∷ xs
nodes_of (add_tail object m) xs = m ∷ xs
nodes_of (add_before b object m) xs = m ∷ xs
nodes_of _ xs = xs

-- Of a node that is taken out no pointer is left.
abbrev pub Cleared : Nodes → Option ℕ → Type 0
Cleared h none = Unit {0}
Cleared h (some m) = (h.prev m ≡ none) × (h.next m ≡ none)

-- A node is added that is not in the list, before one that is, and one is deleted that is in it.
abbrev pub Allowed : Operation → List ℕ → Type 0
Allowed (add object m) xs = has m xs ≡ false
Allowed (add_tail object m) xs = has m xs ≡ false
Allowed (add_before b object m) xs = (has b xs ≡ true) × (has m xs ≡ false)
Allowed (delete m) xs = has m xs ≡ true
Allowed _ xs = Unit {0}

-- The operation ends without a fault, with the answer `r`, the objects `value` and the sequence `xs`, the node
-- `out` without pointers, and those of the nodes that are not in `zs` as they were in `h0`.
abbrev pub Yields : Outcome → Option ℕ → (ℕ → ℕ) → List ℕ → Option ℕ → Nodes → List ℕ → Type 0
Yields none r value xs out h0 zs = ⊥
Yields (some (r', (h, l))) r value xs out h0 zs =
    (r' ≡ r) × (h.value ≡ value) × Holds h l xs × Cleared h out × Untouched h0 zs h
