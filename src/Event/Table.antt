-- ===== src/Event/Table.antt =====
-- Adding, finding and deleting in the table of src/event.c.
use unirc_ircd.Prelude.{
  ℕ, suc, ◌+◌, ◌≡◌, refl, ◌∙◌, ap, inl, inr, true, false, Option, none, some, List, [], ◌∷◌,
  Bool-cases, if◌then◌else◌, ==_refl,
}
use unirc_ircd.Event.{
  Event, EventState, add_loop, new_event, after_add, after_find, event_add, is_event, event_find,
  clear_entry, event_delete,
}
use unirc_ircd.Event.Next.{HasRoom, event_add-added}

-- The active entries, in the order of the table.
abbrev pub active_events : List Event → List Event
active_events [] = []
active_events (x ∷ xs) = let rest = active_events xs in if x.active then x ∷ rest else rest

-- The event added is found, and clearing its entry leaves the active entries of before.
record Undoes (func arg : ℕ) (before after : List Event) : Type 0 where
  index : ℕ
  found : event_find func arg after ≡ some index
  cleared : active_events (clear_entry after index) ≡ active_events before

find-step :
    (func arg : ℕ) (x : Event) (xs : List Event)
    → event_find func arg (x ∷ xs) ≡ none
    → (is_event func arg x ≡ false) × (event_find func arg xs ≡ none)
unfolding event_find
find-step func arg x xs h = elim (Bool-cases (is_event func arg x)) [
  | inl e ↦ absurd (cc (simp e at h))
  | inr e ↦ (e, rest (event_find func arg xs) (simp e at h))
]
  where
    rest : (o : Option ℕ) → elim o [ none ↦ none | some i ↦ some (suc i) ] ≡ none → o ≡ none
    rest none k = refl
    rest (some i) k = absurd (cc k)

add_loop-Undoes :
    (func arg : ℕ) (e : Event) (xs : List Event)
    → is_event func arg e ≡ true
    → HasRoom xs
    → event_find func arg xs ≡ none
    → (ys : List Event) × (add_loop e xs ≡ some ys) × Undoes func arg xs ys
unfolding add_loop event_find clear_entry
add_loop-Undoes func arg e [] he r h = absurd r
add_loop-Undoes func arg e (x ∷ xs) he r h = elim (Bool-cases x.active) [
  | inr a ↦ (e ∷ xs, simp a refl, record { index = 0; found = simp he refl; cleared = simp a refl })
  | inl a ↦
      let (out, h') = find-step func arg x xs h in
      let (ys, added, u) =
        add_loop-Undoes func arg e xs he (elim r [ inl b ↦ cc (a, b) | inr b ↦ b ]) h' in
      (
        x ∷ ys,
        simp (a, added) refl,
        record {
          index = suc (u.index);
          found = simp (out, u.found) refl;
          cleared = simp (a, u.cleared) refl;
        },
      )
]

-- Where no active event has the function and the argument and the table has room, adding such an
-- event and deleting it leaves the active events as they were.
pub event_add-delete :
    (now name func arg delta : ℕ) (s : EventState)
    → HasRoom s.event_table
    → event_find func arg s.event_table ≡ none
    → active_events (event_delete func arg (event_add now name func arg delta s)).event_table
      ≡ active_events s.event_table
event_add-delete now name func arg delta s r h =
    let e = new_event now name func arg delta in
    let (ys, added, u) = add_loop-Undoes func arg e s.event_table new_is_event r h in
    ap (λ x. active_events (event_delete func arg x).event_table)
      (event_add-added now name func arg delta s ys added)
    ∙ deleted ys u
  where
    new_is_event : is_event func arg (new_event now name func arg delta) ≡ true
    new_is_event = unfold is_event in rw (==_refl func, ==_refl arg) refl

    deleted :
        (ys : List Event)
        → Undoes func arg s.event_table ys
        → active_events (event_delete func arg (after_add s (now + delta) (some ys))).event_table
          ≡ active_events s.event_table
    deleted ys u =
        unfold event_delete after_add after_find in
        (ap (λ o. active_events (after_find (after_add s (now + delta) (some ys)) o).event_table)
            u.found
          ∙ u.cleared)
