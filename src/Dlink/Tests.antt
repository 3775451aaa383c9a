-- ===== src/Dlink/Tests.antt =====
-- The lists of src/tools.c with concrete nodes.
use unirc_ircd.Prelude.{ℕ, refl, none, some, [], ◌∷◌, arith}
use unirc_ircd.Dlink.{Nodes, DlinkList, dlink_add, no_list}
use unirc_ircd.Dlink.Change.{Holds, dlink_add-Holds}
use unirc_ircd.Dlink.Sequence.{
  find_delete, apply_to, after, answer, objects, taken_out, nodes_of, Yields,
}
use unirc_ircd.Dlink.Spec.{dlink-Yields}

abbrev fresh : Nodes
fresh = record { value = λ a. 0; prev = λ a. none; next = λ a. none }

no_list-Holds : (h : Nodes) → Holds h no_list []
no_list-Holds h = record { chain = tt; distinct = tt; head = refl; tail = refl; size = refl }

-- The nodes 4 and 7, with the objects 40 and 70.
abbrev first : Nodes × DlinkList
first = dlink_add 70 7 fresh no_list

abbrev second : Nodes × DlinkList
second = dlink_add 40 4 first.0 first.1

first-Holds : Holds first.0 first.1 (7 ∷ [])
first-Holds = dlink_add-Holds 70 7 fresh no_list [] (omega arith) refl (no_list-Holds fresh)

second-Holds : Holds second.0 second.1 (4 ∷ 7 ∷ [])
second-Holds = dlink_add-Holds 40 4 first.0 first.1 (7 ∷ []) (omega arith) refl first-Holds

dlink-Yields_example :
    Yields
      (apply_to 2 (find_delete 70) second.0 second.1)
      (answer (find_delete 70) second.0.value (4 ∷ 7 ∷ []))
      (objects (find_delete 70) second.0.value)
      (after (find_delete 70) second.0.value (4 ∷ 7 ∷ []))
      (taken_out (find_delete 70) second.0.value (4 ∷ 7 ∷ []))
      second.0
      (nodes_of (find_delete 70) (4 ∷ 7 ∷ []))
dlink-Yields_example =
    dlink-Yields 2 (find_delete 70) second.0 second.1 (4 ∷ 7 ∷ []) (omega arith) (omega arith) tt
      second-Holds

-- Node 4 alone is moved in front of node 9 alone.
abbrev alone : ℕ → DlinkList
alone a = record { head = some a; tail = some a; length = 1 }

alone-Holds : (a : ℕ) → Holds fresh (alone a) (a ∷ [])
alone-Holds a = record {
  chain = (refl, refl, tt);
  distinct = (refl, tt);
  head = refl;
  tail = refl;
  size = refl;
}
