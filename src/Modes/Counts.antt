-- ===== src/Modes/Counts.antt =====
-- How many changes one command of src/channel_mode.c records.
use unirc_ircd.Prelude.{
  ℕ, suc, ◌+◌, ◌≤◌, ◌<◌, ◌≡◌, refl, sym, ◌∙◌, Bool, true, false, not, ◌&&◌, ◌||◌, Option, none,
  some, List, [], ◌∷◌, ◌++◌, map, arith, ◌==◌, ltb, leb, if-case, if◌then◌else◌, length,
  length-append, length-map,
}
use unirc_ircd.Chars.{Bytes}
use unirc_ircd.Dlink.Chain.{has}
use unirc_ircd.Modes.Types.{
  Flag, private, oper_only, chan_reg, ssl_only, bit, MemberFlag, voice, Dir, query, add, del, Arg,
  Change, Caps, Mems, Channel, Env, Work, maxmodeparams, chaccess_halfop, chaccess_chanop,
  chaccess_protected, chaccess_owner, chaccess_remote, plain, add_change, no_ops, deny, limited,
  err_chanoprivsneeded,
}
use unirc_ircd.Modes.Params.{
  chm_limit, chm_floodtime, chm_key, chm_forward, limit_dir, floodtime_dir, key_dir, forward_dir,
  add_limit, add_floodtime, replace_change, overridden,
}
use unirc_ircd.Modes.Masks.{Kind, add_id, del_id}
use unirc_ircd.Modes.Lists.{
  chm_ban, chm_except, chm_invex, change_list, mask_param, set_list, tell_bans, tell_excepts,
  tell_invexes, record_if, has_space, is_query, is_adding, no_params,
}
use unirc_ircd.Modes.Members.{
  chm_owner, chm_protect, chm_op, chm_hop, chm_voice, change_status, guarded, guarded_member,
  protect_member, no_guard, with_member, named_member, found_member, not_member,
}
use unirc_ircd.Modes.Table.{
  Handler, nosuch, simple, limit_mode, floodtime, key_mode, forward_mode, ban, except, invex,
  owner_mode, protect, op, hop, voice_mode, mode_table, handle, letters, is_sign, next_dir,
  get_channel_access, set_channel_mode, start, chm_simple, chm_nosuch, no_privs, once, simple_dir,
  is_add_dir, any_nonssl,
}
pub mod Whole

-- At most one change more.
abbrev pub Grows : List Change → List Change → Type 0
Grows cs cs' = length cs' ≤ suc (length cs)

pub length-one : (cs : List Change) (c : Change) → length (cs ++ c ∷ []) ≡ suc (length cs)
length-one cs c = omega (arith, length-append cs (c ∷ []))

length-replaced :
    (cs : List Change) (d : ℕ) (c : Change)
    → length (map (overridden d) cs ++ c ∷ []) ≡ suc (length cs)
length-replaced cs d c =
    omega (arith, length-one (map (overridden d) cs) c, length-map cs (overridden d))

deny-changes : (numeric alev : ℕ) (w : Work) → (deny numeric alev w).changes ≡ w.changes
unfolding deny no_ops
deny-changes numeric alev w = ground arith

pub deny-Grows : (numeric alev : ℕ) (w : Work) → Grows w.changes (deny numeric alev w).changes
deny-Grows numeric alev w = rw (deny-changes numeric alev w) (omega arith)

pub limit-Grows :
    (alev : ℕ) (dir : Dir) (c : ℕ) (w : Work) → Grows w.changes (chm_limit alev dir c w).changes
unfolding chm_limit limit_dir add_limit
limit-Grows alev dir c w =
    if-case {A = Work} (λ r. Grows w.changes r.changes) (ltb alev chaccess_halfop)
      (λ e. deny-Grows _ alev w) (λ e. grind (arith, length-one, length-replaced))

pub floodtime-Grows :
    (alev : ℕ) (dir : Dir) (c : ℕ) (w : Work) → Grows w.changes (chm_floodtime alev dir c w).changes
unfolding chm_floodtime floodtime_dir add_floodtime
floodtime-Grows alev dir c w =
    if-case {A = Work} (λ r. Grows w.changes r.changes) (ltb alev chaccess_halfop)
      (λ e. deny-Grows _ alev w) (λ e. grind (arith, length-one, length-replaced))

pub key-Grows :
    (env : Env) (alev : ℕ) (dir : Dir) (c : ℕ) (w : Work)
    → Grows w.changes (chm_key env alev dir c w).changes
unfolding chm_key key_dir
key-Grows env alev dir c w =
    if-case {A = Work} (λ r. Grows w.changes r.changes) (ltb alev chaccess_halfop)
      (λ e. deny-Grows _ alev w) (λ e. grind (arith, length-one, length-replaced))

pub forward-Grows :
    (env : Env) (alev : ℕ) (dir : Dir) (c : ℕ) (w : Work)
    → Grows w.changes (chm_forward env alev dir c w).changes
unfolding chm_forward forward_dir
forward-Grows env alev dir c w =
    if-case {A = Work} (λ r. Grows w.changes r.changes) (ltb alev chaccess_halfop)
      (λ e. deny-Grows _ alev w) (λ e. grind (arith, length-one, length-replaced))

simple_dir-Grows :
    (f : Flag) (dir : Dir) (c : ℕ) (w : Work) → Grows w.changes (simple_dir f dir c w).changes
unfolding simple_dir
simple_dir-Grows f dir c w = grind (arith, length-one)

pub simple-Grows :
    (env : Env) (f : Flag) (alev : ℕ) (dir : Dir) (c : ℕ) (w : Work)
    → Grows w.changes (chm_simple env f alev dir c w).changes
unfolding chm_simple once no_privs deny no_ops
simple-Grows env f alev dir c w = grind (arith, simple_dir-Grows)

pub limited-Grows :
    (env : Env) (cs : List Change) (w : Work) (go : Work → Work)
    → w.changes ≡ cs
    → ((w1 : Work) → w1.changes ≡ cs → Grows cs (go w1).changes)
    → Grows cs (limited env w go).changes
limited-Grows env cs w go q walk =
    if-case {A = Work} (λ r. Grows cs r.changes) env.source.my_client
      (λ e.
        if-case {A = Work} (λ r. Grows cs r.changes) (ltb maxmodeparams (w.mode_limit + 1))
          (λ h. rw q (omega arith)) (λ h. walk _ q))
      (λ e. walk w q)

pub change_status-Grows :
    (env : Env) (alev letter : ℕ) (f : MemberFlag) (dir : Dir) (t : ℕ) (w : Work)
    → Grows w.changes (change_status env letter f (guarded env alev) dir t w).changes
unfolding change_status guarded no_ops
change_status-Grows env alev letter f dir t w = grind (arith, length-one)

pub free_status-Grows :
    (env : Env) (letter : ℕ) (f : MemberFlag) (dir : Dir) (t : ℕ) (w : Work)
    → Grows w.changes (change_status env letter f no_guard dir t w).changes
unfolding change_status
free_status-Grows env letter f dir t w = grind (arith, length-one)
