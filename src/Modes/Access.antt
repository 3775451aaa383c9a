-- ===== src/Modes/Access.antt =====
-- Who may change a channel by src/channel_mode.c.
use mathlib.Core.Path.{subst}
use unirc_ircd.Prelude.{
  ℕ, ◌≡◌, refl, sym, ◌∙◌, Bool, true, false, not, ◌&&◌, ◌||◌, Option, none, some, List, [], ◌∷◌,
  arith, ltb, ◌≤◌, if-case, if◌then◌else◌,
}
use unirc_ircd.Chars.{Bytes}
use unirc_ircd.Modes.Types.{
  Flag, private, MemberFlag, owner, protected, chanop, halfop, Dir, add, Channel, Env, Work,
  chaccess_halfop, chaccess_chanop, chaccess_protected, chaccess_owner, err_chanoprivsneeded,
  no_ops, deny,
}
use unirc_ircd.Modes.Params.{chm_limit, chm_floodtime, chm_key, chm_forward}
use unirc_ircd.Modes.Members.{
  chm_owner, chm_protect, chm_op, chm_hop, chm_voice, with_member, guarded_member,
}
use unirc_ircd.Modes.Lists.{
  chm_ban, chm_except, chm_invex, tell_bans, is_query, is_adding, no_params,
}
use unirc_ircd.Modes.Table.{
  Handler, nosuch, simple, limit_mode, floodtime, key_mode, forward_mode, ban, except, invex,
  owner_mode, protect, op, hop, voice_mode, chm_nosuch, chm_simple, mode_table, handle, letters,
  is_sign, next_dir, get_channel_access, set_channel_mode, start,
}

-- Neither the channel nor the changes to be told of are another.
record Same (w w' : Work) : Type 0 where
  pub same_chan : w'.chan ≡ w.chan
  pub same_changes : w'.changes ≡ w.changes

no_ops-Same : (numeric : ℕ) (w : Work) → Same w (no_ops numeric w)
unfolding no_ops
no_ops-Same numeric w = ground arith

deny-Same : (numeric alev : ℕ) (w : Work) → Same w (deny numeric alev w)
unfolding deny
deny-Same numeric alev w = no_ops-Same _ w

module _ (env : Env) (alev : ℕ) (low : ltb alev chaccess_halfop ≡ true) (w : Work) where
  simple-Same : (f : Flag) (dir : Dir) (c : ℕ) → Same w (chm_simple env f alev dir c w)
  unfolding chm_simple
  simple-Same f dir c = rw low (deny-Same _ alev w)

  limit-Same : (dir : Dir) (c : ℕ) → Same w (chm_limit alev dir c w)
  unfolding chm_limit
  limit-Same dir c = rw low (deny-Same _ alev w)

  below : (n : ℕ) → chaccess_halfop ≤ n → ltb alev n ≡ true
  below n h = ground arith

  tell-Same : Same w (tell_bans w)
  unfolding tell_bans
  tell-Same = ground arith

  ban-Same : (dir : Dir) → Same w (chm_ban env alev dir w)
  unfolding chm_ban tell_bans
  ban-Same dir =
      if-case (Same w) (is_query dir || no_params w.params) (λ e. tell-Same)
        (λ e. rw low (deny-Same _ alev w))

  hop-Same : (dir : Dir) → Same w (chm_hop env alev dir w)
  unfolding chm_hop
  hop-Same dir =
      if-case
        (λ n. Same w (
          if ltb alev n
          then deny err_chanoprivsneeded alev w
          else with_member env dir (guarded_member env alev b'h' halfop dir) w))
        (w.chan.mode.mode private)
        (λ e. rw (below chaccess_chanop (omega arith)) (deny-Same _ alev w))
        (λ e. rw low (deny-Same _ alev w))

  handle-Same : (dir : Dir) (c : ℕ) (h : Handler) → Same w (handle env alev dir c h w)
  unfolding handle chm_floodtime chm_key chm_forward chm_except chm_invex chm_owner chm_protect
      chm_op chm_voice chm_nosuch
  handle-Same dir c (simple f) = simple-Same f dir c
  handle-Same dir c limit_mode = limit-Same dir c
  handle-Same dir c floodtime = rw low (deny-Same _ alev w)
  handle-Same dir c key_mode = rw low (deny-Same _ alev w)
  handle-Same dir c forward_mode = rw low (deny-Same _ alev w)
  handle-Same dir c voice_mode = rw low (deny-Same _ alev w)
  handle-Same dir c ban = ban-Same dir
  handle-Same dir c hop = hop-Same dir
  handle-Same dir c nosuch = ground arith
  handle-Same dir c except =
      if-case (Same w)
        (not env.conf.use_except
          && env.source.my_client
          && is_adding dir
          && not (no_params w.params))
        (λ e. record { same_chan = refl; same_changes = refl }) (λ e. rw low (deny-Same _ alev w))
  handle-Same dir c invex =
      if-case (Same w)
        (not env.conf.use_invex
          && env.source.my_client
          && is_adding dir
          && not (no_params w.params))
        (λ e. record { same_chan = refl; same_changes = refl }) (λ e. rw low (deny-Same _ alev w))
  handle-Same dir c owner_mode = rw (below chaccess_owner (omega arith)) (deny-Same _ alev w)
  handle-Same dir c protect = rw (below chaccess_protected (omega arith)) (deny-Same _ alev w)
  handle-Same dir c op = rw (below chaccess_chanop (omega arith)) (deny-Same _ alev w)

letters-Same :
    (env : Env) (alev : ℕ) (dir : Dir) (modes : Bytes) (w : Work)
    → ltb alev chaccess_halfop ≡ true
    → Same w (letters env alev dir modes w)
unfolding letters
letters-Same env alev dir [] w low = record { same_chan = refl; same_changes = refl }
letters-Same env alev dir (c ∷ s) w low =
    let here =
      if-case (Same w) (is_sign c) (λ e. record { same_chan = refl; same_changes = refl })
        (λ e. handle-Same env alev low w dir c (mode_table c)) in
    let rest =
      letters-Same env alev (next_dir c dir) s
        (if is_sign c then w else handle env alev dir c (mode_table c) w) low in
    record {
      same_chan = rest.same_chan ∙ here.same_chan;
      same_changes = rest.same_changes ∙ here.same_changes;
    }

-- Not on the channel, or there with no status that counts.
abbrev pub HasNoStatus : Option (MemberFlag → Bool) → Type 0
HasNoStatus none = Unit {0}
HasNoStatus (some flags) =
    (flags owner ≡ false)
    × (flags protected ≡ false)
    × (flags chanop ≡ false)
    × (flags halfop ≡ false)

no_status_lem :
    (member : Option (MemberFlag → Bool))
    → HasNoStatus member
    → ltb (get_channel_access true member) chaccess_halfop ≡ true
unfolding get_channel_access
no_status_lem none h = refl
no_status_lem (some flags) h = ground arith

-- A local client that is not on the channel, or has no status there from half-operator up, changes nothing of it by
-- MODE, whatever letters and parameters it sends: neither its modes, its lists nor the flags of a member, and
-- there is no change to be told of.
pub set_channel_mode_no_status :
    (env : Env) (member : Option (MemberFlag → Bool)) (modes : Bytes) (params : List Bytes)
    (ch : Channel)
    → env.source.my_client ≡ true
    → HasNoStatus member
    → ((set_channel_mode env member modes params ch).chan ≡ ch)
      × ((set_channel_mode env member modes params ch).changes ≡ [])
unfolding set_channel_mode
set_channel_mode_no_status env member modes params ch my h =
    let low =
      subst (λ b. ltb (get_channel_access b member) chaccess_halfop ≡ true) (sym my)
        (no_status_lem member h) in
    let same = letters-Same env _ add modes (start ch params) low in
    (same.same_chan, same.same_changes)
