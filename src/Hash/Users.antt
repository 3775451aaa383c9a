-- ===== src/Hash/Users.antt =====
-- The counts of clients by user and host of src/hash.c: `count_user_host`, `add_user_host`,
-- `delete_user_host` and `find_or_add_userhost`, with the structs of include/userhost.h. A count does
-- not reach 2 ^ 31.
pub mod Counted
pub mod Names
pub mod Edits
pub mod Hosts
pub mod Blocks
pub mod Fresh
pub mod Places
pub mod Tally
use unirc_ircd.Prelude.{
  ℕ, ◌+◌, ◌-◌, Bool, true, false, not, ◌&&◌, Option, none, some, List, [], ◌∷◌, ◌==◌, if◌then◌else◌,
  take,
}
use unirc_ircd.Chars.{Bytes}
use unirc_ircd.Dlink.{set_at}
use unirc_ircd.Hash.{Table, names_equal, hash_add, hash_del, hash_find}

-- `gcount`, `lcount` and `icount`.
pub record Counts : Type 0 where
  pub gcount : ℕ
  pub lcount : ℕ
  pub icount : ℕ

pub record NameHost : Type 0 where
  pub name : Bytes
  pub counts : Counts

-- The table of the blocks of `struct UserHost`, and the fields of each block.
pub record UserHosts : Type 0 where
  pub table : Table
  pub host : ℕ → Bytes
  pub names : ℕ → List NameHost

abbrev pub no_counts : Counts
no_counts = record { gcount = 0; lcount = 0; icount = 0 }

-- One more, or one less, which is no less than 0; `global` is for a client of another server.
unfoldable pub count_up : Bool → Bool → Counts → Counts
count_up global hasident c = record {
  gcount = c.gcount + 1;
  lcount = if global then c.lcount else c.lcount + 1;
  icount = if not global && hasident then c.icount + 1 else c.icount;
}

unfoldable pub count_down : Bool → Bool → Counts → Counts
count_down global hasident c = record {
  gcount = c.gcount - 1;
  lcount = if global then c.lcount else c.lcount - 1;
  icount = if not global && hasident then c.icount - 1 else c.icount;
}

-- The list of one host.
unfoldable pub counts_of : Bytes → List NameHost → Option Counts
counts_of user [] = none
counts_of user (n ∷ ns) =
    let rest = counts_of user ns in if names_equal user n.name then some n.counts else rest

unfoldable pub count_again : Bool → Bool → Bytes → List NameHost → List NameHost
count_again global hasident user [] = []
count_again global hasident user (n ∷ ns) =
    let rest = count_again global hasident user ns in
    if names_equal user n.name
    then record n { counts = count_up global hasident n.counts } ∷ ns
    else n ∷ rest

abbrev pub userlen : ℕ
userlen = 10

abbrev pub name_added : Bool → Bool → Bytes → List NameHost → Option Counts → List NameHost
name_added global hasident user ns none =
    record { name = take userlen user; counts = count_up global hasident no_counts } ∷ ns
name_added global hasident user ns (some c) = count_again global hasident user ns

unfoldable pub add_name : Bool → Bool → Bytes → List NameHost → List NameHost
add_name global hasident user ns = name_added global hasident user ns (counts_of user ns)

abbrev pub is_gone : Counts → Bool
is_gone c = c.gcount == 0 && c.lcount == 0

unfoldable pub delete_name : Bool → Bool → Bytes → List NameHost → List NameHost
delete_name global hasident user [] = []
delete_name global hasident user (n ∷ ns) =
    let rest = delete_name global hasident user ns in
    let left = count_down global hasident n.counts in
    if names_equal user n.name
    then if is_gone left then ns else record n { counts = left } ∷ ns
    else n ∷ rest

-- `if(*user == '~')`
abbrev pub has_ident : Bytes → Bool
has_ident [] = true
has_ident (c ∷ s) = not (c == b'~')

abbrev pub behind_tilde : Bytes → Bytes
behind_tilde [] = []
behind_tilde (c ∷ s) = if c == b'~' then s else c ∷ s

abbrev pub hostlen : ℕ
hostlen = 63

abbrev pub on_names : (List NameHost → List NameHost) → ℕ → UserHosts → UserHosts
on_names f a s = record s { names = set_at s.names a (f (s.names a)) }

abbrev pub counts_at : Bytes → Option ℕ → (ℕ → List NameHost) → Option Counts
counts_at user none names = none
counts_at user (some a) names = counts_of user (names a)

module _ (key : ℕ) where
  abbrev pub find_userhost : Bytes → UserHosts → Option ℕ × UserHosts
  find_userhost host s =
      let found = hash_find key s.host host s.table in (found.0, record s { table = found.1 })

  -- `fresh` is the new block.
  abbrev pub new_userhost : ℕ → Bytes → UserHosts → UserHosts
  new_userhost fresh host s =
      let hosts = set_at s.host fresh (take hostlen host) in
      record {
        table = hash_add key hosts fresh s.table;
        host = hosts;
        names = set_at s.names fresh [];
      }

  abbrev pub found_or_new : ℕ → Bytes → Option ℕ × UserHosts → ℕ × UserHosts
  found_or_new fresh host (some a, s) = (a, s)
  found_or_new fresh host (none, s) = (fresh, new_userhost fresh host s)

  unfoldable pub find_or_add_userhost : ℕ → Bytes → UserHosts → ℕ × UserHosts
  find_or_add_userhost fresh host s = found_or_new fresh host (find_userhost host s)

  -- `none` where nothing is written by the pointers.
  unfoldable pub count_user_host : Bytes → Bytes → UserHosts → Option Counts × UserHosts
  count_user_host user host s =
      let found = find_userhost host s in (counts_at user found.0 found.1.names, found.1)

  unfoldable pub add_user_host : ℕ → Bytes → Bytes → Bool → UserHosts → UserHosts
  add_user_host fresh user host global s =
      let found = find_or_add_userhost fresh host s in
      on_names (add_name global (has_ident user) (behind_tilde user)) found.0 found.1

  abbrev pub drop_empty : ℕ → List NameHost → UserHosts → UserHosts
  drop_empty a [] s = record s { table = hash_del key s.host a s.table }
  drop_empty a (n ∷ ns) s = s

  -- An empty list is looked at where the name is found only.
  abbrev pub delete_counted : Bool → Bytes → ℕ → Option Counts → UserHosts → UserHosts
  delete_counted global user a none s = s
  delete_counted global user a (some c) s =
      let left = on_names (delete_name global (has_ident user) (behind_tilde user)) a s in
      drop_empty a (left.names a) left

  abbrev pub delete_at : Bool → Bytes → Option ℕ → UserHosts → UserHosts
  delete_at global user none s = s
  delete_at global user (some a) s =
      delete_counted global user a (counts_of (behind_tilde user) (s.names a)) s

  unfoldable pub delete_user_host : Bytes → Bytes → Bool → UserHosts → UserHosts
  delete_user_host user host global s =
      let found = find_userhost host s in delete_at global user found.0 found.1
