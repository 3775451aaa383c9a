-- ===== src/Event/Run.antt =====
-- `eventRun` of src/event.c, where the functions of the due events leave the table alone.
use unirc_ircd.Prelude.{
  true, ℕ, suc, ◌≡◌, refl, sym, ◌∙◌, ap, inl, inr, some, List, [], ◌∷◌, ◌++◌, append_assoc, arith,
  Bool-cases, if◌then◌else◌, map, length, length-append, get_elem?, set,
}
use unirc_ircd.Event.{
  Event, EventState, max_events, reschedule, put_off, run_due, is_due, run_at, run_entry, run_loop,
  event_run,
}

abbrev pub rescheduled : ℕ → Event → Event
rescheduled now x = if is_due now x then reschedule now x else x

-- The function of each event that is due leaves the event system as it is, whatever it does elsewhere.
abbrev pub DueAreQuiet : (ℕ → ℕ → EventState → EventState) → ℕ → List Event → Type 0
DueAreQuiet call now [] = Unit {0}
DueAreQuiet call now (x ∷ xs) =
    (is_due now x ≡ true → (s : EventState) → call x.func x.arg s ≡ s) × DueAreQuiet call now xs

get_elem?-middle :
    (front : List Event) (x : Event) (xs : List Event)
    → get_elem? (front ++ x ∷ xs) (length front) ≡ some x
get_elem?-middle [] x xs = refl
get_elem?-middle (y ∷ ys) x xs = get_elem?-middle ys x xs

set-middle :
    (front : List Event) (x y : Event) (xs : List Event)
    → set (front ++ x ∷ xs) (length front) y ≡ front ++ y ∷ xs
set-middle [] x y xs = refl
set-middle (z ∷ zs) x y xs = ap (λ t. z ∷ t) (set-middle zs x y xs)

module _ (call : ℕ → ℕ → EventState → EventState) (now : ℕ) where
  run_due-table :
      (i : ℕ) (x : Event) (s : EventState)
      → ((s : EventState) → call x.func x.arg s ≡ s)
      → get_elem? s.event_table i ≡ some x
      → (run_due call now i x s).event_table ≡ set s.event_table i (reschedule now x)
  unfolding run_due put_off
  run_due-table i x s quiet h =
      ap (λ t. (put_off now i t (get_elem? t.event_table i)).event_table)
        (quiet (record s { last_event_ran = x.name }))
      ∙ ap (λ o. (put_off now i (record s { last_event_ran = x.name }) o).event_table) h

  run_entry-table :
      (front : List Event) (x : Event) (xs : List Event) (s : EventState)
      → (is_due now x ≡ true → (s : EventState) → call x.func x.arg s ≡ s)
      → s.event_table ≡ front ++ x ∷ xs
      → (run_entry call now (length front) s).event_table ≡ front ++ rescheduled now x ∷ xs
  unfolding run_entry run_at
  run_entry-table front x xs s quiet h =
      let here : get_elem? s.event_table (length front) ≡ some x =
        ap (λ t. get_elem? t (length front)) h ∙ get_elem?-middle front x xs in
      ap (λ o. (run_at call now (length front) s o).event_table) here
      ∙ (elim (Bool-cases (is_due now x)) [
        | inl e ↦ simp e (
            run_due-table (length front) x s (quiet e) here
            ∙ ap (λ t. set t (length front) (reschedule now x)) h
            ∙ set-middle front x (reschedule now x) xs)
        | inr e ↦ simp e h
      ])

  run_loop-table :
      (front xs : List Event) (s : EventState)
      → DueAreQuiet call now xs
      → s.event_table ≡ front ++ xs
      → (run_loop call now (length xs) (length front) s).event_table
        ≡ front ++ map (rescheduled now) xs
  unfolding run_loop
  run_loop-table front [] s quiet h = h
  run_loop-table front (x ∷ xs) s (quiet, others) h =
      let after = run_entry call now (length front) s in
      let e : after.event_table ≡ (front ++ rescheduled now x ∷ []) ++ xs =
        run_entry-table front x xs s quiet h
        ∙ sym (append_assoc front (rescheduled now x ∷ []) xs) in
      ap (λ i. (run_loop call now (length xs) i after).event_table) (next_index (rescheduled now x))
      ∙ run_loop-table (front ++ rescheduled now x ∷ []) xs after others e
      ∙ append_assoc front (rescheduled now x ∷ []) (map (rescheduled now) xs)
    where
      next_index : (y : Event) → suc (length front) ≡ length (front ++ y ∷ [])
      next_index y = omega (arith, length-append front (y ∷ []))

-- On a whole table, where the function of each event that is due adds, deletes and moves no events,
-- `eventRun` puts each event that is active and due off by its frequency from now, and changes no
-- other entry.
pub event_run-table :
    (call : ℕ → ℕ → EventState → EventState) (now : ℕ) (s : EventState)
    → DueAreQuiet call now s.event_table
    → length s.event_table ≡ max_events
    → (event_run call now s).event_table ≡ map (rescheduled now) s.event_table
unfolding event_run
event_run-table call now s quiet l =
    ap (λ n. (run_loop call now n 0 s).event_table) (sym l)
    ∙ run_loop-table call now [] s.event_table s quiet refl
