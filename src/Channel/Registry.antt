-- ===== src/Channel/Registry.antt =====
-- `make_channel`, `destroy_channel`, `add_user_to_channel` and `remove_user_from_channel` of src/channel.c:
-- which channels there are and who is on them, with the lists that hold it. A block is a number; `remove_first`
-- is taking out a node by its data. The control of floods of joins, a float number, is left out, and the topic.
pub mod Uninvite
pub mod Placed
pub mod Sound
pub mod Reach
mod Tests
use unirc_ircd.Prelude.{
  ℕ, Bool, Option, none, some, List, [], ◌∷◌, ◌==◌, if◌then◌else◌, length, take, remove_first,
}
use unirc_ircd.Chars.{Bytes}
use unirc_ircd.Dlink.{set_at}
use unirc_ircd.Hash.{Table, hash_add, hash_del}
use unirc_ircd.Channel.Types.{Ban}
use unirc_ircd.Channel.Invites.{Invites, del_invite, add_invite}

-- The fields of each membership, the lists of each channel, the lists `channel` and `invited` of each client, and what
-- there is one of.
pub record Registry : Type 0 where
  pub client_p : ℕ → ℕ
  pub chptr : ℕ → ℕ
  pub flags : ℕ → ℕ
  pub chname : ℕ → Bytes
  pub members : ℕ → List ℕ
  pub invites : ℕ → List ℕ
  pub banlist : ℕ → List Ban
  pub exceptlist : ℕ → List Ban
  pub invexlist : ℕ → List Ban
  pub channel : ℕ → List ℕ
  pub invited : ℕ → List ℕ
  pub global_channel_list : List ℕ
  pub lazylink_channels : List ℕ
  pub channel_table : Table

abbrev pub channellen : ℕ
channellen = 200

-- A new block `ch` is filled with zeros.
unfoldable pub make_channel : ℕ → ℕ → Bytes → Registry → Registry
make_channel key ch name s =
    let chname = set_at s.chname ch (take channellen name) in
    record s {
      chname = chname;
      members = set_at s.members ch [];
      invites = set_at s.invites ch [];
      banlist = set_at s.banlist ch [];
      exceptlist = set_at s.exceptlist ch [];
      invexlist = set_at s.invexlist ch [];
      global_channel_list = ch ∷ s.global_channel_list;
      channel_table = hash_add key chname ch s.channel_table;
    }

-- The invitations of one client, and what becomes of them.
abbrev pub invites_of : ℕ → Registry → Invites
invites_of who s = record { invited = s.invited who; invites = s.invites }

abbrev pub with_invites : ℕ → Registry → Invites → Registry
with_invites who s i = record s { invited = set_at s.invited who i.invited; invites = i.invites }

unfoldable pub invite : ℕ → ℕ → ℕ → Registry → Option Registry
invite max_chans ch who s = elim (add_invite max_chans ch who (invites_of who s)) [
  | none ↦ none
  | some i ↦ some (with_invites who s i)
]

-- The loop of `destroy_channel` over the clients that are invited.
unfoldable pub uninvite : ℕ → List ℕ → Registry → Registry
uninvite ch [] s = s
uninvite ch (who ∷ rest) s =
    uninvite ch rest (with_invites who s (del_invite ch who (invites_of who s)))

-- `hub` is `ServerInfo.hub`.
unfoldable pub destroy_channel : ℕ → Bool → ℕ → Registry → Registry
destroy_channel key hub ch s =
    let s1 = uninvite ch (s.invites ch) s in
    record s1 {
      banlist = set_at s1.banlist ch [];
      exceptlist = set_at s1.exceptlist ch [];
      invexlist = set_at s1.invexlist ch [];
      global_channel_list = remove_first ch s1.global_channel_list;
      channel_table = hash_del key s1.chname ch s1.channel_table;
      lazylink_channels =
          if hub then remove_first ch s1.lazylink_channels else s1.lazylink_channels;
    }

-- What the functions for the modes +b, +e and +I leave in the lists of a channel.
abbrev pub set_lists : ℕ → List Ban → List Ban → List Ban → Registry → Registry
set_lists ch bans excepts invexes s = record s {
  banlist = set_at s.banlist ch bans;
  exceptlist = set_at s.exceptlist ch excepts;
  invexlist = set_at s.invexlist ch invexes;
}

-- `add_lazylinkchannel` of src/s_serv.c, without the mask of the server.
unfoldable pub add_lazylinkchannel : ℕ → Registry → Registry
add_lazylinkchannel ch s = record s { lazylink_channels = ch ∷ s.lazylink_channels }

-- `m` is the new block.
unfoldable pub add_user_to_channel : ℕ → ℕ → ℕ → ℕ → Registry → Registry
add_user_to_channel m ch who flags s = record s {
  client_p = set_at s.client_p m who;
  chptr = set_at s.chptr m ch;
  flags = set_at s.flags m flags;
  members = set_at s.members ch (m ∷ s.members ch);
  channel = set_at s.channel who (m ∷ s.channel who);
}

unfoldable pub take_member : ℕ → Registry → Registry
take_member m s = record s {
  members = set_at s.members (s.chptr m) (remove_first m (s.members (s.chptr m)));
  channel = set_at s.channel (s.client_p m) (remove_first m (s.channel (s.client_p m)));
}

unfoldable pub remove_user_from_channel : ℕ → Bool → ℕ → Registry → Registry
remove_user_from_channel key hub m s =
    let left = take_member m s in
    let ch = s.chptr m in
    if length (left.members ch) == 0 then destroy_channel key hub ch left else left
