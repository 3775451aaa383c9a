-- ===== src/Dlink.antt =====
-- The doubly linked lists of src/tools.c. A node is a number, its fields are three functions, a pointer is
-- a node or NULL. Where the code follows NULL the result is `none`.
pub mod Chain
pub mod Change
pub mod Move
pub mod Frame
pub mod Sequence
pub mod Spec
mod Tests
use unirc_ircd.Prelude.{
  ℕ, zero, suc, ◌+◌, ◌-◌, ◌%◌, ◌^◌, Bool, true, false, Option, none, some, ◌==◌, if◌then◌else◌,
}

abbrev pub word : ℕ
word = 2 ^ 64

-- `struct _dlink_node`, for every node
pub record Nodes : Type 0 where
  pub value : ℕ → ℕ
  pub prev : ℕ → Option ℕ
  pub next : ℕ → Option ℕ

-- `struct _dlink_list`; `length` is an unsigned long of 64 bits.
pub record DlinkList : Type 0 where
  pub head : Option ℕ
  pub tail : Option ℕ
  pub length : ℕ

-- An assignment to a field of a node, and one through a pointer that is tested for NULL.
abbrev pub set_at {ℓ} : {A : Type ℓ} → (ℕ → A) → ℕ → A → ℕ → A
set_at f a x = λ b. if b == a then x else f b

abbrev pub set_through {ℓ} : {A : Type ℓ} → (ℕ → A) → Option ℕ → A → ℕ → A
set_through f none x = f
set_through f (some a) x = set_at f a x

abbrev pub if_null {ℓ} : {A : Type ℓ} → Option ℕ → A → A → A
if_null none x y = x
if_null (some a) x y = y

-- `dlinkAdd`
pub dlink_add : ℕ → ℕ → Nodes → DlinkList → Nodes × DlinkList
dlink_add object m h list = (
  record {
    value = set_at h.value m object;
    prev = set_through (set_at h.prev m none) list.head (some m);
    next = set_at h.next m list.head;
  },
  record {
    head = some m;
    tail = if_null list.head (some m) list.tail;
    length = (list.length + 1) % word;
  },
)

-- `dlinkAddTail`
pub dlink_add_tail : ℕ → ℕ → Nodes → DlinkList → Nodes × DlinkList
dlink_add_tail object m h list = (
  record {
    value = set_at h.value m object;
    prev = set_at h.prev m list.tail;
    next = set_through (set_at h.next m none) list.tail (some m);
  },
  record {
    head = if_null list.tail (some m) list.head;
    tail = some m;
    length = (list.length + 1) % word;
  },
)

abbrev pub points_to : Option ℕ → ℕ → Bool
points_to none a = false
points_to (some b) a = b == a

-- `dlinkAddBefore`: the code reads `b->prev` again for `m->prev`.
pub dlink_add_before : ℕ → ℕ → ℕ → Nodes → DlinkList → Option (Nodes × DlinkList)
dlink_add_before b object m h list =
    if points_to list.head b then some (dlink_add object m h list) else elim (h.prev b) [
      | none ↦ none
      | some p ↦ some (
        record {
          value = set_at h.value m object;
          prev = set_at (set_at h.prev m (some p)) b (some m);
          next = set_at (set_at h.next p (some m)) m (some b);
        },
        record list { length = (list.length + 1) % word },
      )
    ]

-- `dlinkDelete`, without its assertions.
pub dlink_delete : ℕ → Nodes → DlinkList → Nodes × DlinkList
dlink_delete m h list =
    let prev1 = set_through h.prev (h.next m) (h.prev m) in
    let next1 = set_through h.next (prev1 m) (h.next m) in
    (
      record { value = h.value; prev = set_at prev1 m none; next = set_at next1 m none },
      record {
        head = if_null (prev1 m) (h.next m) list.head;
        tail = if_null (h.next m) (h.prev m) list.tail;
        length = (list.length + (word - 1)) % word;
      },
    )

-- The loop of `dlinkFind` from a node on, and of `dlinkFindDelete`: at most `rounds` of them; the outer
-- `none` is a loop that has not ended by then.
pub find_loop : ℕ → ℕ → Nodes → Option ℕ → Option (Option ℕ)
find_loop rounds object h none = some none
find_loop zero object h (some a) = none
find_loop (suc rounds) object h (some a) =
    let rest = find_loop rounds object h (h.next a) in
    if h.value a == object then some (some a) else rest

pub dlink_find : ℕ → ℕ → Nodes → DlinkList → Option (Option ℕ)
dlink_find rounds object h list = find_loop rounds object h list.head

-- What the loop does with the node that it finds.
abbrev pub delete_found : Nodes → DlinkList → Option ℕ → Option ℕ × (Nodes × DlinkList)
delete_found h list none = (none, (h, list))
delete_found h list (some m) = (some m, dlink_delete m h list)

pub dlink_find_delete : ℕ → ℕ → Nodes → DlinkList → Option (Option ℕ × (Nodes × DlinkList))
dlink_find_delete rounds object h list = elim (dlink_find rounds object h list) [
  | none ↦ none
  | some found ↦ some (delete_found h list found)
]

abbrev pub no_list : DlinkList
no_list = record { head = none; tail = none; length = 0 }

-- The third case of `dlinkMoveList`, for the tail and head of `from` and the head of `to`.
abbrev pub move_links : ℕ → ℕ → ℕ → Nodes → Nodes
move_links last first top h = record {
  value = h.value;
  prev = set_at (set_at h.prev first (h.prev top)) top (some last);
  next = set_at h.next last (some top);
}

-- `dlinkMoveList`: the nodes, `from` and `to`.
pub dlink_move_list : Nodes → DlinkList → DlinkList → Option (Nodes × (DlinkList × DlinkList))
dlink_move_list h from to = elim (from.head) [
  | none ↦ some (h, (from, to))
  | some first ↦ elim (to.head) [
    | none ↦
        some (h, (no_list, record { head = from.head; tail = from.tail; length = from.length }))
    | some top ↦ elim (from.tail) [
      | none ↦ none
      | some last ↦ some (
        move_links last first top h,
        (
          no_list,
          record { head = from.head; tail = to.tail; length = (to.length + from.length) % word },
        ),
      )
    ]
  ]
]
