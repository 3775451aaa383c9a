-- ===== src/Modes/Standing/Lists.antt =====
-- The handlers of the lists of src/channel_mode.c take no status from a member.
use mathlib.Core.Path.{subst}
use unirc_ircd.Prelude.{
  ℕ, ◌≡◌, refl, Bool, true, false, ◌&&◌, List, [], ◌∷◌, arith, leb, if-case, if◌then◌else◌,
}
use unirc_ircd.Chars.{Bytes}
use unirc_ircd.Match.Case.{collapse}
use unirc_ircd.Dlink.Chain.{has}
use unirc_ircd.Channel.Types.{Ban}
use unirc_ircd.Modes.Types.{
  MemberFlag, Dir, query, add, del, Caps, Mems, Change, Channel, Env, Work,
}
use unirc_ircd.Modes.Masks.{
  Kind, chfl_ban, chfl_exception, chfl_invex, Mask, clear_ban_cache, cleared_for, put_list, list_of,
  any_same, remove_same, new_ban, num_masks, split_nuh, check_string, add_id, del_id,
}
use unirc_ircd.Modes.Lists.{change_list, mask_param, set_list, record_if, list_change, has_space}
use unirc_ircd.Modes.Walk.{On, limited_walk}
use unirc_ircd.Modes.Standing.Status.{Stands}

-- The lists: only what is kept of bans goes.
pub cleared-Stands :
    (env : Env) (kind : Kind) (t : ℕ) (ch : Channel) → Stands t ch (cleared_for kind env ch)
unfolding clear_ban_cache
cleared-Stands env chfl_invex t ch f s h = h
cleared-Stands env chfl_ban t ch f s h =
    if-case {A = MemberFlag → Bool} (λ flags. flags f ≡ true)
      (has t ch.members && (env.person t).my_connect) (λ e. ground (arith, s)) (λ e. h)
cleared-Stands env chfl_exception t ch f s h =
    if-case {A = MemberFlag → Bool} (λ flags. flags f ≡ true)
      (has t ch.members && (env.person t).my_connect) (λ e. ground (arith, s)) (λ e. h)

pub put-Stands :
    (kind : Kind) (bs : List Ban) (t : ℕ) (ch ch' : Channel)
    → Stands t ch ch'
    → Stands t ch (put_list kind bs ch')
put-Stands chfl_ban bs t ch ch' q = q
put-Stands chfl_exception bs t ch ch' q = q
put-Stands chfl_invex bs t ch ch' q = q

pub add_id-Stands :
    (env : Env) (kind : Kind) (mask : Bytes) (t : ℕ) (w : Work)
    → Stands t w.chan ((add_id env kind mask w).2).chan
unfolding add_id
add_id-Stands env kind mask t w =
    if-case {A = Bool × Bytes × Work} (λ r. Stands t w.chan r.2.chan)
      (env.source.my_client && leb env.max_bans (num_masks w.chan)) (λ e f s h. h)
      (λ e.
        if-case {A = Bool × Bytes × Work} (λ r. Stands t w.chan r.2.chan)
          (any_same (split w mask) (list_of kind w.chan)) (λ e. cleared-Stands env kind t w.chan)
          (λ e.
            put-Stands kind (new_ban env (split w mask) ∷ list_of kind w.chan) t w.chan
              (cleared_for kind env w.chan) (cleared-Stands env kind t w.chan)))
  where
    split : Work → Bytes → Mask
    split w mask =
        split_nuh env.nicklen (check_string (if env.source.my_client then collapse mask else mask))

pub del_id-Stands :
    (env : Env) (kind : Kind) (mask : Bytes) (t : ℕ) (w : Work)
    → Stands t w.chan ((del_id env kind mask w).2).chan
unfolding del_id
del_id-Stands env kind mask t w =
    put-Stands kind (remove_same (split_nuh env.nicklen (check_string mask)) (list_of kind w.chan))
      t w.chan (cleared_for kind env w.chan) (cleared-Stands env kind t w.chan)

record_if-On :
    (always : Bool) (change : Bytes → Change) (r : Bool × Bytes × Work)
    → On r.2.chan (record_if always change r)
record_if-On always change (true, mask, w) = refl
record_if-On true change (false, mask, w) = refl
record_if-On false change (false, mask, w) = refl

pub change_list-Stands :
    (env : Env) (kind : Kind) (letter : ℕ) (caps : Caps) (mems : Mems) (cookie : Bool) (dir : Dir)
    (mask : Bytes) (t : ℕ) (w : Work)
    → Stands t w.chan (change_list env kind letter caps mems cookie dir mask w).chan
unfolding change_list
change_list-Stands env kind letter caps mems cookie query mask t w = λ f s h. h
change_list-Stands env kind letter caps mems cookie add mask t w =
    rw (record_if-On false (list_change letter add caps mems) (add_id env kind mask w))
      (add_id-Stands env kind mask t w)
change_list-Stands env kind letter caps mems cookie del mask t w =
    rw (record_if-On cookie (list_change letter del caps mems) (del_id env kind mask w))
      (del_id-Stands env kind mask t w)

pub set_list-Stands :
    (env : Env) (kind : Kind) (letter : ℕ) (caps : Caps) (mems : Mems) (cookie : Bool) (dir : Dir)
    (t : ℕ) (w : Work)
    → Stands t w.chan (set_list env kind letter caps mems cookie dir w).chan
set_list-Stands env kind letter caps mems cookie dir t w =
    limited_walk (Stands t w.chan) env w
      (λ w1. mask_param env (change_list env kind letter caps mems cookie dir) w1.params w1)
      (λ f s h. h) (λ w1 on. masks w1.params w1 on)
  where
    masks :
        (params : List Bytes) (w1 : Work)
        → On w.chan w1
        → Stands t w.chan
            (mask_param env (change_list env kind letter caps mems cookie dir) params w1).chan
    masks [] w1 on = λ f s h. rw on h
    masks (p ∷ ps) w1 on =
        if-case {A = Work} (λ r. Stands t w.chan r.chan)
          (env.source.client_is_server && has_space p) (λ e f s h. rw on h)
          (λ e.
            subst
              (λ c.
                Stands t c
                  (change_list env kind letter caps mems cookie dir p
                    (record w1 { params = ps })).chan)
              on
              (change_list-Stands env kind letter caps mems cookie dir p t
                (record w1 { params = ps })))
