-- ===== src/Modes/Tests.antt =====
-- src/channel_mode.c on a channel of three members: 1 is an operator, 2 the owner, 3 has no status.
use unirc_ircd.Prelude.{
  ℕ, ◌≡◌, refl, ◌≤◌, Bool, true, false, ◌&&◌, Option, none, some, List, [], ◌∷◌, inl, arith, ◌==◌,
  length, if◌then◌else◌,
}
use unirc_ircd.Chars.{Bytes}
use unirc_ircd.Channel.Types.{Config, hm_host}
use unirc_ircd.Modes.Types.{Work, MemberFlag, owner, chanop, add, del, Channel, Env, member_bit}
use unirc_ircd.Modes.Table.{
  letters, handle, mode_table, chm_simple, once, simple_dir, get_channel_access, set_channel_mode,
  start,
}
use unirc_ircd.Modes.Members.{chm_op, change_status}
use unirc_ircd.Modes.Masks.{
  chfl_ban, is_space, mask_text, new_ban, list_of, any_same, add_id, del_id,
}
use unirc_ircd.Modes.Masks.Undo.{IsMask, add_id-del_id}
use unirc_ircd.Modes.Access.{set_channel_mode_no_status}
use unirc_ircd.Modes.Standing.{set_channel_mode-Stands}
use unirc_ircd.Modes.Standing.Status.{Stands}
use unirc_ircd.Modes.Counts.Whole.{set_channel_mode-bounded}
use unirc_ircd.Modes.Send.{Item, fresh, send_items}
use unirc_ircd.Modes.Send.Room.{EachBounded, most_for, send_items-EachBounded}
use unirc_ircd.Modes.Send.Reading.{read_lines, send_items-read}

abbrev conf : Config
conf = record {
  use_except = true;
  use_invex = true;
  quiet_on_ban = false;
  restrict_channels = false;
  disable_fake_channels = false;
  oper_pass_resv = false;
  current_time = 100;
}

-- Member `n` is called by the digit `n`.
abbrev find : Bytes → Option ℕ
find [] = none
find (c ∷ s) = if c == b'2' then some 2 else some 3

abbrev from : ℕ → Bool → Env
from n local = record {
  source = record {
    number = n;
    my_client = local;
    is_oper = false;
    is_services = false;
    client_is_server = false;
  };
  find_chasing = find;
  parse_netmask = λ s. (hm_host, 0, 0);
  person = λ c. record {
    name = b'n' ∷ [];
    id = b'i' ∷ [];
    is_client = true;
    is_services = false;
    is_ssl = true;
    my_connect = true;
  };
  nicklen = 30;
  max_bans = 25;
  conf = conf;
}

abbrev statuses : ℕ → MemberFlag → Bool
statuses c f =
    if c == 1 then member_bit f == member_bit chanop else c == 2 && member_bit f == member_bit owner

abbrev room : Channel
room = record {
  mode = record { mode = λ f. false; limit = 0; key = []; forward = []; msgs = 0; per = 0 };
  members = 1 ∷ 2 ∷ 3 ∷ [];
  flags = statuses;
  banlist = [];
  exceptlist = [];
  invexlist = [];
}

-- The operator gives and takes what it may.
op_example :
    (set_channel_mode
        (from 1 true)
        (some (statuses 1))
        (b'+' ∷ b'o' ∷ b'm' ∷ [])
        ((b'3' ∷ []) ∷ [])
        room).chan.flags
      3 chanop
    ≡ true
unfolding set_channel_mode letters handle mode_table chm_op change_status chm_simple once simple_dir
    get_channel_access
op_example = refl

set_channel_mode-Stands_example :
    Stands 2 room
      (set_channel_mode
        (from 1 true)
        (some (statuses 1))
        (b'+' ∷ b'o' ∷ b'-' ∷ b'q' ∷ [])
        ((b'2' ∷ []) ∷ (b'2' ∷ []) ∷ [])
        room).chan
set_channel_mode-Stands_example =
    set_channel_mode-Stands (from 1 true) (statuses 1) (b'+' ∷ b'o' ∷ b'-' ∷ b'q' ∷ [])
      ((b'2' ∷ []) ∷ (b'2' ∷ []) ∷ []) room 2 refl refl (λ e. absurd (omega (arith, e))) (inl refl)

set_channel_mode_no_status_example :
    ((set_channel_mode
        (from 3 true)
        (some (statuses 3))
        (b'm' ∷ b'l' ∷ [])
        ((b'5' ∷ []) ∷ [])
        room).chan
      ≡ room)
    × ((set_channel_mode
          (from 3 true)
          (some (statuses 3))
          (b'm' ∷ b'l' ∷ [])
          ((b'5' ∷ []) ∷ [])
          room).changes
        ≡ [])
set_channel_mode_no_status_example =
    set_channel_mode_no_status (from 3 true) (some (statuses 3)) (b'm' ∷ b'l' ∷ [])
      ((b'5' ∷ []) ∷ []) room refl (refl, refl, refl, refl)

set_channel_mode-bounded_example :
    length
      (set_channel_mode
        (from 1 true)
        (some (statuses 1))
        (b'+' ∷ b'm' ∷ b'l' ∷ [])
        ((b'5' ∷ []) ∷ [])
        room).changes
    ≤ 3
set_channel_mode-bounded_example =
    set_channel_mode-bounded (from 1 true) (some (statuses 1)) (b'+' ∷ b'm' ∷ b'l' ∷ [])
      ((b'5' ∷ []) ∷ []) room

abbrev items : List Item
items = (b'm', add, none) ∷ (b'l', add, some (b'5' ∷ [])) ∷ (b't', del, none) ∷ []

send_items-EachBounded_example :
    EachBounded
      (most_for (b':' ∷ b'a' ∷ b' ' ∷ []) items)
      (send_items (b':' ∷ b'a' ∷ b' ' ∷ []) items (fresh (b':' ∷ b'a' ∷ b' ' ∷ [])))
send_items-EachBounded_example =
    send_items-EachBounded (b':' ∷ b'a' ∷ b' ' ∷ []) items (omega arith)
      (tt, (omega arith, (tt, tt)))

send_items-read_example :
    read_lines
      (b':' ∷ b'a' ∷ b' ' ∷ [])
      (send_items (b':' ∷ b'a' ∷ b' ' ∷ []) items (fresh (b':' ∷ b'a' ∷ b' ' ∷ [])))
    ≡ (add, b'm') ∷ (add, b'l') ∷ (del, b't') ∷ []
send_items-read_example = send_items-read (b':' ∷ b'a' ∷ b' ' ∷ []) items (
  (λ e. absurd (omega (arith, e)), λ e. absurd (omega (arith, e)), λ e. absurd (ground (arith, e))),
  (
    (
      λ e. absurd (omega (arith, e)),
      λ e. absurd (omega (arith, e)),
      λ e. absurd (ground (arith, e)),
    ),
    (
      (
        λ e. absurd (omega (arith, e)),
        λ e. absurd (omega (arith, e)),
        λ e. absurd (ground (arith, e)),
      ),
      tt,
    ),
  ),
)

-- A server sets and takes a ban.
abbrev from_server : Work
from_server = start room []

plain-IsMask : IsMask 30 (b'n' ∷ []) (b'u' ∷ []) (b'h' ∷ [])
unfolding is_space
plain-IsMask = record {
  some_nick = omega arith;
  some_user = omega arith;
  some_host = omega arith;
  nick_fits = omega arith;
  user_fits = omega arith;
  host_fits = omega arith;
  no_bang = (refl, tt);
  no_at = (refl, tt);
  no_white = (refl, (refl, (refl, (refl, (refl, tt)))));
  no_nul = (
    (omega arith, omega arith, tt),
    (omega arith, omega arith, tt),
    (omega arith, omega arith, tt),
  );
}

add_id-del_id_example :
    let (done, banid, added) =
      add_id (from 9 false) chfl_ban (mask_text (b'n' ∷ [], b'u' ∷ [], b'h' ∷ [])) from_server in
    let (undone, again, deleted) = del_id (from 9 false) chfl_ban banid added in
    (done ≡ true)
    × (banid ≡ mask_text (b'n' ∷ [], b'u' ∷ [], b'h' ∷ []))
    × (list_of chfl_ban added.chan ≡ new_ban (from 9 false) (b'n' ∷ [], b'u' ∷ [], b'h' ∷ []) ∷ [])
    × (undone ≡ true)
    × (list_of chfl_ban deleted.chan ≡ [])
unfolding any_same
add_id-del_id_example =
    add_id-del_id (from 9 false) chfl_ban (b'n' ∷ []) (b'u' ∷ []) (b'h' ∷ []) from_server refl
      plain-IsMask refl
