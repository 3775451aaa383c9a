-- ===== src/Modes/Counts/Whole.antt =====
-- The bound of src/channel_mode.c on the changes that one command records.
use mathlib.Core.Path.{subst}
use unirc_ircd.Prelude.{
  ap, ℕ, ◌+◌, ◌≤◌, ◌≡◌, refl, sym, Bool, true, false, not, ◌&&◌, Option, none, some, List, [], ◌∷◌,
  arith, ◌==◌, ltb, if-case, if◌then◌else◌, length,
}
use unirc_ircd.Chars.{Bytes}
use unirc_ircd.Dlink.Chain.{has}
use unirc_ircd.Modes.Types.{
  MemberFlag, owner, protected, Dir, query, add, del, Change, Caps, Mems, Channel, Env, Work,
  chaccess_protected, chaccess_owner, no_ops, limited,
}
use unirc_ircd.Modes.Masks.{Kind, add_id, del_id}
use unirc_ircd.Modes.Lists.{
  list_change, chm_ban, chm_except, chm_invex, change_list, mask_param, set_list, tell_bans,
  tell_excepts, tell_invexes, record_if, has_space,
}
use unirc_ircd.Modes.Members.{
  chm_owner, chm_protect, chm_op, chm_hop, chm_voice, change_status, guarded, guarded_member,
  protect_member, no_guard, with_member, named_member, found_member, not_member,
}
use unirc_ircd.Modes.Table.{
  Handler, nosuch, simple, limit_mode, floodtime, key_mode, forward_mode, ban, except, invex,
  owner_mode, protect, op, hop, voice_mode, mode_table, handle, letters, is_sign, next_dir,
  get_channel_access, set_channel_mode, start, chm_nosuch,
}
use unirc_ircd.Modes.Counts.{
  Grows, deny-Grows, limit-Grows, floodtime-Grows, key-Grows, forward-Grows, simple-Grows,
  limited-Grows, change_status-Grows, free_status-Grows, length-one,
}

module _ (env : Env) (cs : List Change) (go : ℕ → Work → Work)
    (walk : (t : ℕ) (w1 : Work) → w1.changes ≡ cs → Grows cs (go t w1).changes) where
  found-Grows :
      (found : Option ℕ) (w : Work)
      → w.changes ≡ cs
      → Grows cs (found_member env go found w).changes
  unfolding not_member
  found-Grows none w q = rw q (omega arith)
  found-Grows (some t) w q =
      if-case {A = Work} (λ r. Grows cs r.changes) (not (env.person t).is_client)
        (λ e. rw q (omega arith))
        (λ e.
          if-case {A = Work} (λ r. Grows cs r.changes) (has t w.chan.members) (λ h. walk t w q)
            (λ h. grind (arith, q)))

  named-Grows :
      (params : List Bytes) (w : Work)
      → w.changes ≡ cs
      → Grows cs (named_member env go params w).changes
  named-Grows [] w q = rw q (omega arith)
  named-Grows (p ∷ ps) w q = found-Grows (env.find_chasing p) (record w { params = ps }) q

  with_member-Grows :
      (dir : Dir) (w : Work) → w.changes ≡ cs → Grows cs (with_member env dir go w).changes
  with_member-Grows query w q = rw q (omega arith)
  with_member-Grows add w q = named-Grows w.params w q
  with_member-Grows del w q = named-Grows w.params w q

add_id-changes :
    (env : Env) (kind : Kind) (mask : Bytes) (w : Work)
    → (add_id env kind mask w).2.changes ≡ w.changes
unfolding add_id
add_id-changes env kind mask w = ground arith

del_id-changes :
    (env : Env) (kind : Kind) (mask : Bytes) (w : Work)
    → (del_id env kind mask w).2.changes ≡ w.changes
unfolding del_id
del_id-changes env kind mask w = refl

record_if-Grows :
    (always : Bool) (change : Bytes → Change) (r : Bool × Bytes × Work) (cs : List Change)
    → r.2.changes ≡ cs
    → Grows cs (record_if always change r).changes
record_if-Grows always change (true, mask, w) cs q =
    omega (arith, length-one w.changes (change mask), ap length q)
record_if-Grows true change (false, mask, w) cs q =
    omega (arith, length-one w.changes (change mask), ap length q)
record_if-Grows false change (false, mask, w) cs q = omega (arith, ap length q)

change_list-Grows :
    (env : Env) (kind : Kind) (letter : ℕ) (caps : Caps) (mems : Mems) (cookie : Bool) (dir : Dir)
    (mask : Bytes) (w : Work)
    → Grows w.changes (change_list env kind letter caps mems cookie dir mask w).changes
unfolding change_list
change_list-Grows env kind letter caps mems cookie query mask w = omega arith
change_list-Grows env kind letter caps mems cookie add mask w =
    record_if-Grows false (list_change letter add caps mems) (add_id env kind mask w) w.changes
      (add_id-changes env kind mask w)
change_list-Grows env kind letter caps mems cookie del mask w =
    record_if-Grows cookie (list_change letter del caps mems) (del_id env kind mask w) w.changes
      (del_id-changes env kind mask w)

set_list-Grows :
    (env : Env) (kind : Kind) (letter : ℕ) (caps : Caps) (mems : Mems) (cookie : Bool) (dir : Dir)
    (w : Work)
    → Grows w.changes (set_list env kind letter caps mems cookie dir w).changes
set_list-Grows env kind letter caps mems cookie dir w =
    limited-Grows env w.changes w
      (λ w1. mask_param env (change_list env kind letter caps mems cookie dir) w1.params w1) refl
      (λ w1 q. masks w1.params w1 q)
  where
    masks :
        (params : List Bytes) (w1 : Work)
        → w1.changes ≡ w.changes
        → Grows w.changes
            (mask_param env (change_list env kind letter caps mems cookie dir) params w1).changes
    masks [] w1 q = rw q (omega arith)
    masks (p ∷ ps) w1 q =
        if-case {A = Work} (λ r. Grows w.changes r.changes)
          (env.source.client_is_server && has_space p) (λ e. rw q (omega arith))
          (λ e.
            subst
              (λ cs.
                Grows cs
                  (change_list env kind letter caps mems cookie dir p
                    (record w1 { params = ps })).changes)
              q
              (change_list-Grows env kind letter caps mems cookie dir p
                (record w1 { params = ps })))

module _ (env : Env) (alev : ℕ) where
  member-Grows :
      (letter : ℕ) (f : MemberFlag) (dir : Dir) (w : Work)
      → Grows w.changes (with_member env dir (guarded_member env alev letter f dir) w).changes
  member-Grows letter f dir w =
      with_member-Grows env w.changes (guarded_member env alev letter f dir)
        (λ t w1 q.
          limited-Grows env w.changes w1 (change_status env letter f (guarded env alev) dir t) q
            (λ w2 q2. rw (sym q2) (change_status-Grows env alev letter f dir t w2)))
        dir w refl

  free-Grows :
      (letter : ℕ) (f : MemberFlag) (dir : Dir) (t : ℕ) (cs : List Change) (w : Work)
      → w.changes ≡ cs
      → Grows cs (limited env w (change_status env letter f no_guard dir t)).changes
  free-Grows letter f dir t cs w q =
      limited-Grows env cs w (change_status env letter f no_guard dir t) q
        (λ w2 q2. rw (sym q2) (free_status-Grows env letter f dir t w2))

  owner-Grows : (dir : Dir) (w : Work) → Grows w.changes (chm_owner env alev dir w).changes
  unfolding chm_owner
  owner-Grows dir w =
      if-case {A = Work} (λ r. Grows w.changes r.changes) (ltb alev chaccess_owner)
        (λ e. deny-Grows _ alev w)
        (λ e.
          with_member-Grows env w.changes
            (λ t w1. limited env w1 (change_status env b'q' owner no_guard dir t))
            (λ t w1 q. free-Grows b'q' owner dir t w.changes w1 q) dir w refl)

  protect-Grows : (dir : Dir) (w : Work) → Grows w.changes (chm_protect env alev dir w).changes
  unfolding chm_protect no_ops
  protect-Grows dir w =
      if-case {A = Work} (λ r. Grows w.changes r.changes) (ltb alev chaccess_protected)
        (λ e. deny-Grows _ alev w)
        (λ e.
          with_member-Grows env w.changes (protect_member env alev dir)
            (λ t w1 q.
              if-case {A = Work} (λ r. Grows w.changes r.changes)
                (ltb alev chaccess_owner && not (env.source.number == t)) (λ h. grind (arith, q))
                (λ h. free-Grows b'a' protected dir t w.changes w1 q))
            dir w refl)

  handle-Grows :
      (dir : Dir) (c : ℕ) (h : Handler) (w : Work)
      → Grows w.changes (handle env alev dir c h w).changes
  unfolding handle chm_nosuch chm_op chm_hop chm_voice chm_ban chm_except chm_invex tell_bans
      tell_excepts tell_invexes
  handle-Grows dir c nosuch w = grind arith
  handle-Grows dir c (simple f) w = simple-Grows env f alev dir c w
  handle-Grows dir c limit_mode w = limit-Grows alev dir c w
  handle-Grows dir c floodtime w = floodtime-Grows alev dir c w
  handle-Grows dir c key_mode w = key-Grows env alev dir c w
  handle-Grows dir c forward_mode w = forward-Grows env alev dir c w
  handle-Grows dir c ban w = grind (arith, deny-Grows, set_list-Grows)
  handle-Grows dir c except w = grind (arith, deny-Grows, set_list-Grows)
  handle-Grows dir c invex w = grind (arith, deny-Grows, set_list-Grows)
  handle-Grows dir c owner_mode w = owner-Grows dir w
  handle-Grows dir c protect w = protect-Grows dir w
  handle-Grows dir c op w = grind (arith, deny-Grows, member-Grows)
  handle-Grows dir c hop w = grind (arith, deny-Grows, member-Grows)
  handle-Grows dir c voice_mode w = grind (arith, deny-Grows, member-Grows)

  letters-bounded :
      (dir : Dir) (modes : Bytes) (w : Work)
      → length (letters env alev dir modes w).changes ≤ length w.changes + length modes
  unfolding letters
  letters-bounded dir [] w = omega arith
  letters-bounded dir (c ∷ s) w =
      let here : Grows w.changes
          (if is_sign c then w else handle env alev dir c (mode_table c) w).changes =
        if-case {A = Work} (λ r. Grows w.changes r.changes) (is_sign c) (λ e. omega arith)
          (λ e. handle-Grows dir c (mode_table c) w) in
      let rest =
        letters-bounded (next_dir c dir) s
          (if is_sign c then w else handle env alev dir c (mode_table c) w) in
      omega arith

-- A MODE command records at most one change for each byte of its letters, whoever sends it and whatever the parameters
-- are: letters of at most 512 bytes, which is what a line has, do not overrun the array `mode_changes`.
pub set_channel_mode-bounded :
    (env : Env) (member : Option (MemberFlag → Bool)) (modes : Bytes) (params : List Bytes)
    (ch : Channel)
    → length (set_channel_mode env member modes params ch).changes ≤ length modes
unfolding set_channel_mode
set_channel_mode-bounded env member modes params ch = omega (
  arith,
  letters-bounded env (get_channel_access env.source.my_client member) add modes (start ch params),
)
