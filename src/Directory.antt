-- ===== src/Directory.antt =====
-- Who is known: the clients, servers and channels that src/parse.c looks up, by `find_person` of
-- src/client.c and the tables of src/hash.c.
use unirc_ircd.Prelude.{
  ℕ, ◌≡◌, refl, inl, inr, Bool, true, false, not, ◌&&◌, ◌||◌, Option, none, some, if◌then◌else◌,
  Bool-cases, Option-cases,
}
use unirc_ircd.Chars.{Bytes, is_digit}
use unirc_ircd.Hash.{Table, hash_find, find_server, first_is}
use unirc_ircd.Receive.{Status, stat_server, stat_me, stat_client}

-- The fields of `struct Client` that are read; `my` is a local connection, `from` the connection that
-- leads to it, `handler` the kind of handlers for it.
pub record Peer : Type 0 where
  pub name : Bytes
  pub id : Bytes
  pub status : Status
  pub from : ℕ
  pub my : Bool
  pub is_defunct : Bool
  pub is_oper : Bool
  pub is_invisible : Bool
  pub cap_ts6 : Bool
  pub handler : ℕ

pub record Directory : Type 0 where
  pub random_key : ℕ
  pub peer : ℕ → Peer
  pub chname : ℕ → Bytes
  pub clients : Table
  pub ids : Table
  pub channels : Table

abbrev pub is_server : Status → Bool
is_server stat_server = true
is_server _ = false

abbrev pub is_me : Status → Bool
is_me stat_me = true
is_me _ = false

abbrev pub is_client : Status → Bool
is_client stat_client = true
is_client _ = false

-- `IsRegistered`
abbrev pub is_registered : Status → Bool
is_registered stat_server = true
is_registered stat_client = true
is_registered _ = false

-- The test at the end of `find_person`.
abbrev pub only_client : Directory → Option ℕ → Option ℕ
only_client dir none = none
only_client dir (some a) = if is_client (dir.peer a).status then some a else none

-- Users that are invisible are not found by their identifier, but for servers.
abbrev pub if_visible : Directory → Bool → Option ℕ → Option ℕ
if_visible dir for_server none = none
if_visible dir for_server (some a) =
    if (dir.peer a).is_invisible && not for_server then none else some a

-- `find_person`, for a server or not.
pub find_person : Bool → Bytes → Directory → Option ℕ × Directory
find_person for_server name dir =
    let (by_id, ids') = hash_find dir.random_key (λ a. (dir.peer a).id) name dir.ids in
    let (by_name, clients') = hash_find dir.random_key (λ a. (dir.peer a).name) name dir.clients in
    if first_is is_digit name
    then (only_client dir (if_visible dir for_server by_id), record dir { ids = ids' })
    else (only_client dir by_name, record dir { clients = clients' })

-- `find_server` and `hash_find_channel`
pub server_named : Bytes → Directory → Option ℕ × Directory
server_named name dir =
    let (found, clients', ids') =
      find_server dir.random_key (λ a. (dir.peer a).name) (λ a. (dir.peer a).id)
        (λ a. is_server (dir.peer a).status || is_me (dir.peer a).status) name dir.clients
        dir.ids in
    (found, record dir { clients = clients'; ids = ids' })

pub channel_named : Bytes → Directory → Option ℕ × Directory
channel_named name dir =
    let (found, channels') = hash_find dir.random_key dir.chname name dir.channels in
    (found, record dir { channels = channels' })

-- `find_person`, and where it finds none `find_server`.
pub find_any : Bool → Bytes → Directory → Option ℕ × Directory
find_any for_server name dir =
    let (person, dir') = find_person for_server name dir in
    elim person [ some a ↦ (some a, dir') | none ↦ server_named name dir' ]

-- A search reorders the tables only.
find_person-peer :
    (for_server : Bool) (name : Bytes) (dir : Directory)
    → (find_person for_server name dir).1.peer ≡ dir.peer
unfolding find_person
find_person-peer for_server name dir = elim (Bool-cases (first_is is_digit name)) [
  | inl e ↦ rw e refl
  | inr e ↦ rw e refl
]

pub find_any-peer :
    (for_server : Bool) (name : Bytes) (dir : Directory)
    → (find_any for_server name dir).1.peer ≡ dir.peer
unfolding find_any server_named
find_any-peer for_server name dir = elim (Option-cases (find_person for_server name dir).0) [
  | inl e ↦ rw (e, find_any) (find_person-peer for_server name dir)
  | inr (a, e) ↦ rw (e, find_any) (find_person-peer for_server name dir)
]
