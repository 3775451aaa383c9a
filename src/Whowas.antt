-- ===== src/Whowas.antt =====
-- src/whowas.c: the history of nicknames, a ring of slots. Each slot is in the list of the hash of its
-- name, and, as long as its client is there, in the client's own list. A slot and a client are numbers,
-- the fields of `struct Whowas` functions of the slot, and a pointer is a number or NULL.
pub mod Keeps
pub mod Valid
pub mod Off
pub mod Find
mod Tests
use unirc_ircd.Prelude.{
  ℕ, zero, suc, ◌+◌, ◌-◌, Bool, true, false, not, ◌&&◌, Option, none, some, List, [], ◌∷◌, ◌==◌,
  ltb, if◌then◌else◌, take,
}
use unirc_ircd.Chars.{Bytes}
use unirc_ircd.Hash.{strhash, names_equal}
use unirc_ircd.Dlink.{set_at, set_through, if_null}

-- One kind of lists: `next`, `prev` and `WHOWASHASH`, or `cnext`, `cprev` and the clients' `whowas`.
pub record Lists : Type 0 where
  pub next : ℕ → Option ℕ
  pub prev : ℕ → Option ℕ
  pub bucket : ℕ → Option ℕ

-- `add_whowas_to_list` and `add_whowas_to_clist`
pub add_whowas_to : ℕ → ℕ → Lists → Lists
add_whowas_to b w l = record {
  next = set_at l.next w (l.bucket b);
  prev = set_through (set_at l.prev w none) (l.bucket b) (some w);
  bucket = set_at l.bucket b (some w);
}

-- `del_whowas_from_list` and `del_whowas_from_clist`
pub del_whowas_from : ℕ → ℕ → Lists → Lists
del_whowas_from b w l =
    let next1 = set_through l.next (l.prev w) (l.next w) in
    record {
      next = next1;
      prev = set_through l.prev (next1 w) (l.prev w);
      bucket = if_null (l.prev w) (set_at l.bucket b (l.next w)) l.bucket;
    }

-- The fields of `struct Client` that are kept.
pub record Client : Type 0 where
  pub name : Bytes
  pub username : Bytes
  pub host : Bytes
  pub realhost : Bytes
  pub info : Bytes
  pub servername : Bytes
  pub is_oper : Bool

-- What a slot says of a client; the texts are as long as the fields, of which `nicklen` is set when the
-- server is built.
pub record Entry : Type 0 where
  pub logoff : ℕ
  pub name : Bytes
  pub username : Bytes
  pub hostname : Bytes
  pub realhost : Bytes
  pub realname : Bytes
  pub servername : Bytes

-- `hashv`, where -1 is `none`, and `online`.
pub record History : Type 0 where
  pub whowas_next : ℕ
  pub entry : ℕ → Entry
  pub hashv : ℕ → Option ℕ
  pub online : ℕ → Option ℕ
  pub hashes : Lists
  pub clients : Lists

abbrev pub hostlen : ℕ
hostlen = 63

abbrev pub entry_of : ℕ → ℕ → Client → Entry
entry_of nicklen now client = record {
  logoff = now;
  name = take (nicklen - 1) client.name;
  username = client.username;
  hostname = client.host;
  realhost = if client.is_oper then client.host else client.realhost;
  realname = client.info;
  servername = take hostlen client.servername;
}

-- The slot leaves the lists that it is in.
abbrev pub leave_client : ℕ → Option ℕ → Lists → Lists
leave_client w none l = l
leave_client w (some c) l = del_whowas_from c w l

pub leave_lists : ℕ → Option ℕ → History → History
leave_lists w none s = s
leave_lists w (some h) s = record s {
  clients = leave_client w (s.online w) s.clients;
  hashes = del_whowas_from h w s.hashes;
}

-- `whowas_next++`, round the ring.
abbrev pub next_slot : ℕ → ℕ → ℕ
next_slot size w = if suc w == size then 0 else suc w

-- `add_history`, for the sizes of a nick and of the ring, the key of `strhash`, and `CurrentTime`.
pub add_history : ℕ → ℕ → ℕ → ℕ → ℕ → Client → Bool → History → History
add_history nicklen size key now c client online s =
    let w = s.whowas_next in
    let left = leave_lists w (s.hashv w) s in
    let h = strhash key client.name in
    record {
      whowas_next = next_slot size w;
      entry = set_at left.entry w (entry_of nicklen now client);
      hashv = set_at left.hashv w (some h);
      online = set_at left.online w (if online then some c else none);
      hashes = add_whowas_to h w left.hashes;
      clients = if online then add_whowas_to c w left.clients else left.clients;
    }

-- The loop of `off_history` from a slot on, in at most `rounds` rounds; `none` is a loop that has not
-- ended by then.
pub off_loop : ℕ → ℕ → Option ℕ → (ℕ → Option ℕ) → Lists → Option ((ℕ → Option ℕ) × Lists)
off_loop rounds c none online l = some (online, l)
off_loop zero c (some w) online l = none
off_loop (suc rounds) c (some w) online l =
    off_loop rounds c (l.next w) (set_at online w none) (del_whowas_from c w l)

pub off_history : ℕ → ℕ → History → Option History
off_history rounds c s = elim (off_loop rounds c (s.clients.bucket c) s.online s.clients) [
  | none ↦ none
  | some (online, clients) ↦ some (record s { online = online; clients = clients })
]

-- The loop of `get_history` from a slot on.
pub get_loop : ℕ → Bytes → ℕ → History → Option ℕ → Option (Option ℕ)
get_loop rounds nick limit s none = some none
get_loop zero nick limit s (some w) = none
get_loop (suc rounds) nick limit s (some w) =
    let rest = get_loop rounds nick limit s (s.hashes.next w) in
    if not (names_equal nick (s.entry w).name)
    then rest
    else if ltb (s.entry w).logoff limit
    then rest
    else some (s.online w)

-- `get_history`: the client that had a nick at most `timelimit` seconds ago. The time is later than that.
pub get_history : ℕ → ℕ → ℕ → Bytes → ℕ → History → Option (Option ℕ)
get_history rounds key now nick timelimit s =
    get_loop rounds nick (now - timelimit) s (s.hashes.bucket (strhash key nick))

abbrev pub no_lists : Lists
no_lists = record { next = λ w. none; prev = λ w. none; bucket = λ b. none }

-- `init_whowas`
abbrev pub init_whowas : History
init_whowas = record {
  whowas_next = 0;
  entry = λ w. record {
    logoff = 0;
    name = [];
    username = [];
    hostname = [];
    realhost = [];
    realname = [];
    servername = [];
  };
  hashv = λ w. none;
  online = λ w. none;
  hashes = no_lists;
  clients = no_lists;
}

-- `count_whowas_memory`, of the first `n` slots: those in use. Their memory is that many times a size.
abbrev pub used : Option ℕ → ℕ
used none = 0
used (some h) = 1

pub count_used : ℕ → History → ℕ
count_used zero s = 0
count_used (suc n) s = count_used n s + used (s.hashv n)
