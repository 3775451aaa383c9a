-- ===== src/MsgTree.antt =====
-- src/parse.c, the command table: a trie with 32 pointers at each node, indexed by the low five bits of
-- a byte. A node holds its link count, its message (a pointer to `struct Message`, by a number) and its
-- pointers; src/parse.c allocates and frees the nodes, here they are values.
pub mod Keys
pub mod Lookup
pub mod Add
pub mod Del
pub mod Commands
mod Tests
use unirc_ircd.Prelude.{
  ℕ, zero, suc, ◌+◌, ◌-◌, ◌%◌, Bool, true, false, Option, none, some, [], ◌∷◌, ◌==◌, if◌then◌else◌,
}
use unirc_ircd.Chars.{Bytes, is_alpha}

mutual
  -- `struct MessageTree`: links, msg, pointers
  pub data MessageTree : Type 0 where
    node : ℕ → Option ℕ → Pointers → MessageTree

  pub data Pointers : Type 0 where
    nil : Pointers
    null : Pointers → Pointers
    child : MessageTree → Pointers → Pointers

abbrev pub maxptrlen : ℕ
maxptrlen = 32

pub get_ptr : Pointers → ℕ → Option MessageTree
get_ptr nil i = none
get_ptr (null ps) zero = none
get_ptr (null ps) (suc i) = get_ptr ps i
get_ptr (child t ps) zero = some t
get_ptr (child t ps) (suc i) = get_ptr ps i

abbrev pub new_ptr : Option MessageTree → Pointers → Pointers
new_ptr none ps = null ps
new_ptr (some t) ps = child t ps

pub set_ptr : Pointers → ℕ → Option MessageTree → Pointers
set_ptr nil i o = nil
set_ptr (null ps) zero o = new_ptr o ps
set_ptr (null ps) (suc i) o = null (set_ptr ps i o)
set_ptr (child t ps) zero o = new_ptr o ps
set_ptr (child t ps) (suc i) o = child t (set_ptr ps i o)

pub null_ptrs : ℕ → Pointers
null_ptrs zero = nil
null_ptrs (suc n) = null (null_ptrs n)

-- `MyMalloc(sizeof(struct MessageTree))`, zeroed; also `clear_tree_parse`.
unfoldable pub new_tree : MessageTree
new_tree = node 0 none (null_ptrs maxptrlen)

pub links_of : MessageTree → ℕ
links_of (node l m ps) = l

pub msg_of : MessageTree → Option ℕ
msg_of (node l m ps) = m

-- `*cmd & (MAXPTRLEN - 1)`
abbrev pub ptr_index : ℕ → ℕ
ptr_index c = c % maxptrlen

pub add_msg_element : MessageTree → ℕ → Bytes → MessageTree
add_msg_element (node l m ps) msg [] = node (l + 1) (some msg) ps
add_msg_element (node l m ps) msg (c ∷ cmd) = elim (get_ptr ps (ptr_index c)) [
  | none ↦ node (l + 1) m (set_ptr ps (ptr_index c) (some (add_msg_element new_tree msg cmd)))
  | some t ↦ node l m (set_ptr ps (ptr_index c) (some (add_msg_element t msg cmd)))
]

-- The child after its deletion: it is freed if it has no link left. `none` is the fault below.
pub del_child : ℕ → Option ℕ → Pointers → ℕ → Option MessageTree → Option MessageTree
del_child l m ps i none = none
del_child l m ps i (some t) =
    if links_of t == 0
    then some (node (l - 1) m (set_ptr ps i none))
    else some (node l m (set_ptr ps i (some t)))

-- `none`: at the end of the command, with no message there, the code follows the pointer for the NUL,
-- and with one it reads on behind the NUL.
pub del_msg_element : MessageTree → Bytes → Option MessageTree
del_msg_element (node l (some m) ps) [] = some (node (l - 1) none ps)
del_msg_element (node l none ps) [] = elim (get_ptr ps 0) [
  | none ↦ some (node l none ps)
  | some t ↦ none
]
del_msg_element (node l m ps) (c ∷ cmd) = elim (get_ptr ps (ptr_index c)) [
  | none ↦ some (node l m ps)
  | some t ↦ del_child l m ps (ptr_index c) (del_msg_element t cmd)
]

-- The loop of `msg_tree_parse`, at a node reached and the command left.
pub parse_from : MessageTree → Bytes → Option ℕ
parse_from (node l m ps) [] = none
parse_from (node l m ps) (c ∷ []) =
    if is_alpha c then elim (get_ptr ps (ptr_index c)) [ none ↦ none | some t ↦ msg_of t ] else none
parse_from (node l m ps) (c ∷ d ∷ cmd) = elim (is_alpha c) [
  | true ↦ elim (get_ptr ps (ptr_index c)) [ none ↦ none | some t ↦ parse_from t (d ∷ cmd) ]
  | false ↦ none
]

unfoldable pub msg_tree_parse : Bytes → MessageTree → Option ℕ
unfolding parse_from get_ptr msg_of
msg_tree_parse cmd root = parse_from root cmd

-- `struct Message`, the fields that src/parse.c reads and changes, with its address; of `flags` the bit
-- `MFLG_UNREG`.
pub record Message : Type 0 where
  pub address : ℕ
  pub cmd : Bytes
  pub count : ℕ
  pub rcount : ℕ
  pub bytes : ℕ
  pub parameters : ℕ
  pub for_unregistered : Bool

-- `mod_add_cmd`: the tree and the message as the call leaves them.
unfoldable pub mod_add_cmd : MessageTree → Message → MessageTree × Message
unfolding msg_tree_parse add_msg_element set_ptr new_tree null_ptrs
mod_add_cmd tree msg = elim (msg_tree_parse msg.cmd tree) [
  | some found ↦ (tree, msg)
  | none ↦
      (add_msg_element tree msg.address msg.cmd, record msg { count = 0; rcount = 0; bytes = 0 })
]

unfoldable pub mod_del_cmd : MessageTree → Message → Option MessageTree
unfolding del_msg_element del_child links_of set_ptr get_ptr
mod_del_cmd tree msg = del_msg_element tree msg.cmd

unfoldable pub find_command : MessageTree → Bytes → Option ℕ
find_command tree cmd = msg_tree_parse cmd tree
