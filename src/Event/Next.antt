-- ===== src/Event/Next.antt =====
-- The time that `eventNextTime` of src/event.c gives, and the time of the earliest event.
use unirc_ircd.Prelude.{
  ℕ, ◌+◌, ◌-◌, ◌≤◌, ◌<◌, ◌≡◌, refl, sym, ◌∙◌, ap, ◌⊎◌, inl, inr, true, false, ◌&&◌, ltb, Option,
  none, some, List, [], ◌∷◌, map, arith, Bool-cases,
}
use mathlib.Core.Path.{subst}
use unirc_ircd.Event.{
  Event, EventState, earlier, add_loop, new_event, after_add, event_add, next_loop, event_next_time,
  set_back, set_back_events,
}

abbrev pub AreFrom : ℕ → List Event → Type 0
AreFrom t [] = Unit {0}
AreFrom t (x ∷ xs) = (x.active ≡ true → t ≤ x.when) × AreFrom t xs

abbrev pub Occurs : ℕ → List Event → Type 0
Occurs t [] = ⊥
Occurs t (x ∷ xs) = ((x.active ≡ true) × (x.when ≡ t)) ⊎ Occurs t xs

abbrev pub NoneActive : List Event → Type 0
NoneActive [] = Unit {0}
NoneActive (x ∷ xs) = (x.active ≡ false) × NoneActive xs

-- The time of the earliest active event, or none if no event is active.
abbrev pub IsNext : Option ℕ → List Event → Type 0
IsNext none xs = NoneActive xs
IsNext (some t) xs = AreFrom t xs × Occurs t xs

AreFrom-le : (t u : ℕ) (xs : List Event) → t ≤ u → AreFrom u xs → AreFrom t xs
AreFrom-le t u [] h a = tt
AreFrom-le t u (x ∷ xs) h a = (λ e. omega (arith, a.0 e), AreFrom-le t u xs h a.1)

-- The loop from a time found: an earlier one in the rest, or that one.
abbrev FoundFrom : ℕ → List Event → Option ℕ → Type 0
FoundFrom m xs none = ⊥
FoundFrom m xs (some t) = (t ≤ m) × AreFrom t xs × ((t ≡ m) ⊎ Occurs t xs)

FoundFrom-cons :
    (m u : ℕ) (x : Event) (xs : List Event) (o : Option ℕ)
    → u ≤ m
    → (x.active ≡ true → u ≤ x.when)
    → (u ≡ m) ⊎ ((x.active ≡ true) × (x.when ≡ u))
    → FoundFrom u xs o
    → FoundFrom m (x ∷ xs) o
FoundFrom-cons m u x xs none h a c f = f
FoundFrom-cons m u x xs (some t) h a c f = (
  omega (arith, f.0),
  (λ e. omega (arith, f.0, a e), f.1),
  elim f.2 [
    | inr o ↦ inr (inr o)
    | inl tu ↦ elim c [ inl um ↦ inl (tu ∙ um) | inr here ↦ inr (inl (here.0, here.1 ∙ sym tu)) ]
  ],
)

next_loop-from : (xs : List Event) (m : ℕ) → FoundFrom m xs (next_loop xs (some m))
unfolding next_loop earlier
next_loop-from [] m = (omega arith, tt, inl refl)
next_loop-from (x ∷ xs) m = elim (Bool-cases (x.active && ltb x.when m)) [
  | inl e ↦ simp e (
      FoundFrom-cons m x.when x xs _ (ground (arith, e)) (λ a. omega arith)
        (inr (ground (arith, e), refl)) (next_loop-from xs x.when))
  | inr e ↦ simp e (
      FoundFrom-cons m m x xs _ (omega arith) (λ a. ground (arith, e, a)) (inl refl)
        (next_loop-from xs m))
]

FoundFrom→IsNext :
    (x : Event) (xs : List Event) (o : Option ℕ)
    → x.active ≡ true
    → FoundFrom x.when xs o
    → IsNext o (x ∷ xs)
FoundFrom→IsNext x xs none a f = absurd f
FoundFrom→IsNext x xs (some t) a f =
    ((λ e. f.0, f.1), elim f.2 [ inl e ↦ inl (a, sym e) | inr o ↦ inr o ])

IsNext-inactive :
    (x : Event) (xs : List Event) (o : Option ℕ)
    → x.active ≡ false
    → IsNext o xs
    → IsNext o (x ∷ xs)
IsNext-inactive x xs none a f = (a, f)
IsNext-inactive x xs (some t) a f = ((λ e. cc (a, e), f.0), inr f.1)

next_loop-IsNext : (xs : List Event) → IsNext (next_loop xs none) xs
unfolding next_loop earlier
next_loop-IsNext [] = tt
next_loop-IsNext (x ∷ xs) = elim (Bool-cases x.active) [
  | inl a ↦ simp a (FoundFrom→IsNext x xs _ a (next_loop-from xs x.when))
  | inr a ↦ simp a (IsNext-inactive x xs _ a (next_loop-IsNext xs))
]

-- When no time is kept, as after `eventInit` and `eventRun`, `eventNextTime` gives the time of the
-- earliest active event, none if there is none, and changes nothing but to keep that time.
pub event_next_time-IsNext :
    (s : EventState)
    → s.event_time_min ≡ none
    → IsNext (event_next_time s).0 s.event_table
      × ((event_next_time s).1 ≡ record s { event_time_min = (event_next_time s).0 })
unfolding event_next_time
event_next_time-IsNext s h = simp (h, event_next_time) (next_loop-IsNext s.event_table, refl)

-- An inactive entry is free for a new event.
abbrev pub HasRoom : List Event → Type 0
HasRoom [] = ⊥
HasRoom (x ∷ xs) = (x.active ≡ false) ⊎ HasRoom xs

add_loop-room :
    (e : Event) (xs : List Event)
    → HasRoom xs
    → (ys : List Event) × (add_loop e xs ≡ some ys) × ((t : ℕ) → Occurs t xs → Occurs t ys)
unfolding add_loop
add_loop-room e [] r = absurd r
add_loop-room e (x ∷ xs) r = elim (Bool-cases x.active) [
  | inr a ↦ (e ∷ xs, simp a refl, λ t o. elim o [ inl h ↦ cc (a, h.0) | inr later ↦ inr later ])
  | inl a ↦
      let (ys, h, k) = add_loop-room e xs (elim r [ inl b ↦ cc (a, b) | inr b ↦ b ]) in
      (
        x ∷ ys,
        simp (a, h) refl,
        λ t o. elim o [ inl here ↦ inl here | inr later ↦ inr (k t later) ],
      )
]

pub event_add-added :
    (now name func arg delta : ℕ) (s : EventState) (ys : List Event)
    → add_loop (new_event now name func arg delta) s.event_table ≡ some ys
    → event_add now name func arg delta s ≡ after_add s (now + delta) (some ys)
unfolding event_add
event_add-added now name func arg delta s ys h = ap (after_add s (now + delta)) h

-- With no time kept, as between `eventRun` and `eventNextTime`, an event added to a table with room is
-- what `eventNextTime` answers with, even if an active event in the table is due before it.
event_add-late :
    (now name func arg delta t : ℕ) (s : EventState)
    → s.event_time_min ≡ none
    → HasRoom s.event_table
    → Occurs t s.event_table
    → t < now + delta
    → let after = event_add now name func arg delta s in
      ((event_next_time after).0 ≡ some (now + delta)) × Occurs t after.event_table
unfolding after_add
event_add-late now name func arg delta t s h r o late =
    let (ys, added, kept) = add_loop-room (new_event now name func arg delta) s.event_table r in
    let e = event_add-added now name func arg delta s ys added in
    (
      ap (λ x. (event_next_time x).0) e ∙ next_added ys,
      subst (λ x. Occurs t x.event_table) (sym e) (kept t o),
    )
  where
    next_added :
        (ys : List Event)
        → (event_next_time (after_add s (now + delta) (some ys))).0 ≡ some (now + delta)
    next_added ys = unfold after_add earlier event_next_time in simp h refl

AreFrom-set_back :
    (by t : ℕ) (xs : List Event) → AreFrom t xs → AreFrom (t - by) (map (set_back by) xs)
unfolding set_back
AreFrom-set_back by t [] a = tt
AreFrom-set_back by t (x ∷ xs) a = (λ e. ground (arith, a.0 e), AreFrom-set_back by t xs a.1)

Occurs-set_back :
    (by t : ℕ) (xs : List Event) → Occurs t xs → Occurs (t - by) (map (set_back by) xs)
unfolding set_back
Occurs-set_back by t [] o = absurd o
Occurs-set_back by t (x ∷ xs) (inl h) = inl (h.0, ground (arith, h.1))
Occurs-set_back by t (x ∷ xs) (inr o) = inr (Occurs-set_back by t xs o)

-- `set_back_events` moves the earliest event back by `by` seconds, to 0 at the least, but
-- `eventNextTime` still answers with the time it had before.
set_back_events-late :
    (by t : ℕ) (s : EventState)
    → s.event_time_min ≡ some t
    → IsNext (some t) s.event_table
    → IsNext (some (t - by)) (set_back_events by s).event_table
      × ((event_next_time (set_back_events by s)).0 ≡ some t)
unfolding set_back_events event_next_time
set_back_events-late by t s h n =
    ((AreFrom-set_back by t s.event_table n.0, Occurs-set_back by t s.event_table n.1), simp h refl)
