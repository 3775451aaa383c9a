-- ===== src/Event.antt =====
-- src/event.c: the table of timed events. A function and an argument are numbers, 0 for NULL, as is a
-- name; the -1 of `event_time_min` is `none`, and `CurrentTime` is given as `now`.
pub mod Next
pub mod Table
pub mod Ish
pub mod Run
mod Tests
use unirc_ircd.Prelude.{
  ℕ, zero, suc, ◌+◌, ◌-◌, ◌*◌, ◌/◌, ◌%◌, Bool, true, false, not, ◌&&◌, ◌||◌, Option, none, some,
  List, [], ◌∷◌, ◌==◌, ltb, leb, if◌then◌else◌, map, replicate, get_elem?, set,
}

abbrev pub max_events : ℕ
max_events = 50

-- `struct ev_entry`
pub record Event : Type 0 where
  pub func : ℕ
  pub arg : ℕ
  pub name : ℕ
  pub frequency : ℕ
  pub when : ℕ
  pub active : Bool

pub record EventState : Type 0 where
  pub last_event_ran : ℕ
  pub event_table : List Event
  pub event_time_min : Option ℕ

abbrev pub null_event : Event
null_event = record { func = 0; arg = 0; name = 0; frequency = 0; when = 0; active = false }

pub event_init : EventState → EventState
event_init s = record s { last_event_ran = 0; event_table = replicate max_events null_event }

-- `when < event_time_min || event_time_min == -1`
pub earlier : ℕ → Option ℕ → Bool
earlier t none = true
earlier t (some m) = ltb t m

-- The loop of `eventAdd`: `none` is a full table.
pub add_loop : Event → List Event → Option (List Event)
add_loop e [] = none
add_loop e (x ∷ xs) =
    let rest = add_loop e xs in
    if not x.active then some (e ∷ xs) else elim rest [ none ↦ none | some ys ↦ some (x ∷ ys) ]

-- The table and the earliest time after the loop, for an event due at `t`.
pub after_add : EventState → ℕ → Option (List Event) → EventState
after_add s t none = s
after_add s t (some table) = record s {
  event_table = table;
  event_time_min = if earlier t s.event_time_min then some t else s.event_time_min;
}

abbrev pub new_event : ℕ → ℕ → ℕ → ℕ → ℕ → Event
new_event now name func arg delta = record {
  func = func;
  arg = arg;
  name = name;
  frequency = delta;
  when = now + delta;
  active = true;
}

pub event_add : ℕ → ℕ → ℕ → ℕ → ℕ → EventState → EventState
event_add now name func arg delta s =
    after_add s (now + delta) (add_loop (new_event now name func arg delta) s.event_table)

-- `eventAddIsh`, with the number that `rand` gives.
abbrev pub ish : ℕ → ℕ → ℕ
ish rand delta = if leb 3 delta then 2 * delta / 3 + rand % 1000 * (2 * delta / 3) / 1000 else delta

pub event_add_ish : ℕ → ℕ → ℕ → ℕ → ℕ → ℕ → EventState → EventState
event_add_ish now rand name func arg delta s = event_add now name func arg (ish rand delta) s

pub is_event : ℕ → ℕ → Event → Bool
is_event func arg x = x.func == func && x.arg == arg && x.active

-- `eventFind`: `none` is its -1.
pub event_find : ℕ → ℕ → List Event → Option ℕ
event_find func arg [] = none
event_find func arg (x ∷ xs) =
    let rest = event_find func arg xs in
    if is_event func arg x then some 0 else elim rest [ none ↦ none | some i ↦ some (suc i) ]

-- The entry at `i` with its name, function and argument reset, and no longer active.
pub clear_entry : List Event → ℕ → List Event
clear_entry [] i = []
clear_entry (x ∷ xs) zero = record x { name = 0; func = 0; arg = 0; active = false } ∷ xs
clear_entry (x ∷ xs) (suc i) = x ∷ clear_entry xs i

pub after_find : EventState → Option ℕ → EventState
after_find s none = s
after_find s (some i) = record s { event_table = clear_entry s.event_table i }

pub event_delete : ℕ → ℕ → EventState → EventState
event_delete func arg s = after_find s (event_find func arg s.event_table)

-- What `eventRun` does with an entry once its function has returned.
abbrev pub reschedule : ℕ → Event → Event
reschedule now x = record x { when = now + x.frequency }

pub put_off : ℕ → ℕ → EventState → Option Event → EventState
put_off now i s none = s
put_off now i s (some x) = record s {
  event_table = set s.event_table i (reschedule now x);
  event_time_min = none;
}

-- An entry that is due: `call` is its function, which may change the table.
pub run_due : (ℕ → ℕ → EventState → EventState) → ℕ → ℕ → Event → EventState → EventState
run_due call now i x s =
    let s' = call x.func x.arg (record s { last_event_ran = x.name }) in
    put_off now i s' (get_elem? s'.event_table i)

abbrev pub is_due : ℕ → Event → Bool
is_due now x = x.active && leb x.when now

-- One index of the loop of `eventRun`.
pub run_at : (ℕ → ℕ → EventState → EventState) → ℕ → ℕ → EventState → Option Event → EventState
run_at call now i s none = s
run_at call now i s (some x) = if is_due now x then run_due call now i x s else s

pub run_entry : (ℕ → ℕ → EventState → EventState) → ℕ → ℕ → EventState → EventState
run_entry call now i s = run_at call now i s (get_elem? s.event_table i)

pub run_loop : (ℕ → ℕ → EventState → EventState) → ℕ → ℕ → ℕ → EventState → EventState
run_loop call now zero i s = s
run_loop call now (suc n) i s = run_loop call now n (suc i) (run_entry call now i s)

pub event_run : (ℕ → ℕ → EventState → EventState) → ℕ → EventState → EventState
event_run call now s = run_loop call now max_events 0 s

-- The loop of `eventNextTime`.
pub next_loop : List Event → Option ℕ → Option ℕ
next_loop [] m = m
next_loop (x ∷ xs) m = next_loop xs (if x.active && earlier x.when m then some x.when else m)

pub event_next_time : EventState → Option ℕ × EventState
event_next_time s = elim s.event_time_min [
  | none ↦ let m = next_loop s.event_table none in (m, record s { event_time_min = m })
  | some m ↦ (some m, s)
]

pub set_back : ℕ → Event → Event
set_back by x = record x { when = if ltb by x.when then x.when - by else 0 }

pub set_back_events : ℕ → EventState → EventState
set_back_events by s = record s { event_table = map (set_back by) s.event_table }
