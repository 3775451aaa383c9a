-- ===== src/Event/Tests.antt =====
-- The table of src/event.c on concrete events.
use unirc_ircd.Prelude.{
  ℕ, zero, suc, ◌==◌, if◌then◌else◌, ◌≡◌, refl, inl, inr, none, some, [], ◌∷◌, map, replicate,
}
use unirc_ircd.Event.{
  EventState, null_event, new_event, run_loop, run_entry, run_at, run_due, put_off, next_loop,
  earlier, is_event, event_add, event_find, event_delete, event_run, event_next_time,
}
use unirc_ircd.Event.Next.{IsNext, event_next_time-IsNext}
use unirc_ircd.Event.Run.{rescheduled, DueAreQuiet, event_run-table}
use unirc_ircd.Event.Table.{active_events, event_add-delete}

-- One event that is due at 20, and a free entry.
abbrev state : EventState
state = record {
  last_event_ran = 0;
  event_table = new_event 10 1 2 3 10 ∷ null_event ∷ [];
  event_time_min = none;
}

abbrev kept : EventState
kept = record state { event_time_min = some 20 }

absent : event_find 5 6 state.event_table ≡ none
unfolding event_find is_event
absent = refl

-- A run at 25 sets the event back to 35.
run_reschedules : (event_next_time (event_run (λ f a s. s) 25 state)).0 ≡ some 35
unfolding event_next_time event_run run_loop run_entry run_at run_due put_off next_loop earlier
run_reschedules = refl

event_next_time-IsNext_example :
    IsNext (event_next_time state).0 state.event_table
    × ((event_next_time state).1 ≡ record state { event_time_min = (event_next_time state).0 })
event_next_time-IsNext_example = event_next_time-IsNext state refl

event_add-delete_example :
    active_events (event_delete 5 6 (event_add 12 4 5 6 100 state)).event_table
    ≡ active_events state.event_table
event_add-delete_example = event_add-delete 12 4 5 6 100 state (inr (inl refl)) absent

-- A whole table with the same event.
abbrev whole : EventState
whole = record state { event_table = new_event 10 1 2 3 10 ∷ replicate 49 null_event }

-- Function 9 deletes its event, and is not due.
abbrev call : ℕ → ℕ → EventState → EventState
call func arg s = if func == 9 then event_delete 9 0 s else s

free-DueAreQuiet : (n : ℕ) → DueAreQuiet call 25 (replicate n null_event)
free-DueAreQuiet zero = tt
free-DueAreQuiet (suc n) = (λ d s. refl, free-DueAreQuiet n)

event_run-table_example :
    (event_run call 25 whole).event_table ≡ map (rescheduled 25) whole.event_table
event_run-table_example = event_run-table call 25 whole (λ d s. refl, free-DueAreQuiet 49) refl
