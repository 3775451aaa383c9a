-- ===== src/Modes/Standing.antt =====
-- Owners and protected members of a channel, and those below them, in src/channel_mode.c.
mod Unchanged
pub mod Status
mod Lists
pub mod Below
use mathlib.Core.Path.{subst}
use unirc_ircd.Prelude.{
  ℕ, ◌≡◌, ◌≢◌, refl, sym, Bool, true, false, not, ◌&&◌, ◌||◌, some, List, [], ◌∷◌, arith, ◌==◌, ltb,
  if-case, inl, inr, if◌then◌else◌,
}
use unirc_ircd.Chars.{Bytes}
use unirc_ircd.Dlink.Chain.{has}
use unirc_ircd.Modes.Types.{
  private, MemberFlag, owner, protected, chanop, halfop, voice, Dir, add, no_caps, cap_ex, cap_ie,
  all_members, Channel, Env, Work, chaccess_halfop, chaccess_chanop, chaccess_protected,
  chaccess_owner, err_chanoprivsneeded, err_chanownprivneeded, deny,
}
use unirc_ircd.Modes.Params.{chm_limit, chm_floodtime, chm_key, chm_forward}
use unirc_ircd.Modes.Table.{
  Handler, nosuch, simple, limit_mode, floodtime, key_mode, forward_mode, ban, except, invex,
  owner_mode, protect, op, hop, voice_mode, mode_table, handle, letters, is_sign, next_dir,
  get_channel_access, set_channel_mode, start, chm_simple, chm_nosuch,
}
use unirc_ircd.Modes.Masks.{chfl_ban, chfl_exception, chfl_invex}
use unirc_ircd.Modes.Lists.{
  chm_ban, chm_except, chm_invex, tell_bans, tell_excepts, tell_invexes, is_query, is_adding,
  no_params,
}
use unirc_ircd.Modes.Members.{chm_owner, chm_protect, chm_op, chm_hop, chm_voice, protect_member}
use unirc_ircd.Modes.Walk.{On, deny_walk, with_member_walk}
use Unchanged.{
  limit-SameFlags, floodtime-SameFlags, key-SameFlags, forward-SameFlags, simple-SameFlags,
  nosuch-SameFlags,
}
use Status.{Stands, same-Stands}
use Lists.{set_list-Stands}
use Below.{HasStanding, member-Stands, protect-Stands}

module _ (env : Env) (alev t : ℕ) (below : ltb alev chaccess_owner ≡ true)
    (other : (env.source.number == t) ≡ false) where
  list-Stands :
      (w : Work) (b : Bool) (told set : Work)
      → On w.chan told
      → Stands t w.chan set.chan
      → Stands t w.chan (if b then told else set).chan
  list-Stands w true told set on q f s h = rw on h
  list-Stands w false told set on q f s h = q f s h

  denied : (w : Work) (numeric : ℕ) → Stands t w.chan (deny numeric alev w).chan
  denied w numeric = deny_walk (Stands t w.chan) numeric alev w (λ f s h. h)

  ban-Stands : (dir : Dir) (w : Work) → Stands t w.chan (chm_ban env alev dir w).chan
  unfolding chm_ban tell_bans
  ban-Stands dir w = list-Stands w (is_query dir || no_params w.params) _ _ (ground arith) (
      if-case {A = Work} (λ r. Stands t w.chan r.chan) (ltb alev chaccess_halfop) (λ e. denied w _)
        (λ e. set_list-Stands env chfl_ban b'b' no_caps all_members true dir t w))

  except-Stands : (dir : Dir) (w : Work) → Stands t w.chan (chm_except env alev dir w).chan
  unfolding chm_except tell_excepts
  except-Stands dir w =
      if-case {A = Work} (λ r. Stands t w.chan r.chan)
        (not env.conf.use_except
          && env.source.my_client
          && is_adding dir
          && not (no_params w.params))
        (λ e f s h. h)
        (λ e.
          if-case {A = Work} (λ r. Stands t w.chan r.chan) (ltb alev chaccess_halfop)
            (λ e. denied w _)
            (λ e.
              list-Stands w (is_query dir || no_params w.params) _ _ (ground arith)
                (set_list-Stands env chfl_exception b'e' cap_ex _ false dir t w)))

  invex-Stands : (dir : Dir) (w : Work) → Stands t w.chan (chm_invex env alev dir w).chan
  unfolding chm_invex tell_invexes
  invex-Stands dir w =
      if-case {A = Work} (λ r. Stands t w.chan r.chan)
        (not env.conf.use_invex
          && env.source.my_client
          && is_adding dir
          && not (no_params w.params))
        (λ e f s h. h)
        (λ e.
          if-case {A = Work} (λ r. Stands t w.chan r.chan) (ltb alev chaccess_halfop)
            (λ e. denied w _)
            (λ e.
              list-Stands w (is_query dir || no_params w.params) _ _ (ground arith)
                (set_list-Stands env chfl_invex b'I' cap_ie _ false dir t w)))

  handle-Stands :
      (dir : Dir) (c : ℕ) (h : Handler) (w : Work)
      → HasStanding (w.chan.flags t)
      → Stands t w.chan (handle env alev dir c h w).chan
  unfolding handle chm_owner chm_protect chm_op chm_hop chm_voice
  handle-Stands dir c nosuch w st = same-Stands t w.chan (chm_nosuch w) (nosuch-SameFlags w)
  handle-Stands dir c (simple f) w st =
      same-Stands t w.chan (chm_simple env f alev dir c w) (simple-SameFlags env f alev dir c w)
  handle-Stands dir c limit_mode w st =
      same-Stands t w.chan (chm_limit alev dir c w) (limit-SameFlags alev dir c w)
  handle-Stands dir c floodtime w st =
      same-Stands t w.chan (chm_floodtime alev dir c w) (floodtime-SameFlags alev dir c w)
  handle-Stands dir c key_mode w st =
      same-Stands t w.chan (chm_key env alev dir c w) (key-SameFlags env alev dir c w)
  handle-Stands dir c forward_mode w st =
      same-Stands t w.chan (chm_forward env alev dir c w) (forward-SameFlags env alev dir c w)
  handle-Stands dir c ban w st = ban-Stands dir w
  handle-Stands dir c except w st = except-Stands dir w
  handle-Stands dir c invex w st = invex-Stands dir w
  handle-Stands dir c owner_mode w st = rw below (denied w err_chanownprivneeded)
  handle-Stands dir c protect w st =
      if-case {A = Work} (λ r. Stands t w.chan r.chan) (ltb alev chaccess_protected)
        (λ e. denied w err_chanownprivneeded)
        (λ e.
          with_member_walk (Stands t w.chan) env dir w (protect_member env alev dir) (λ f s h. h)
            (λ u w1 on. protect-Stands env alev t below other w.chan dir u w1 on))
  handle-Stands dir c op w st =
      if-case {A = Work} (λ r. Stands t w.chan r.chan) (ltb alev chaccess_chanop)
        (λ e. denied w err_chanoprivsneeded)
        (λ e. member-Stands env alev t below other b'o' chanop dir w st)
  handle-Stands dir c hop w st =
      if-case {A = Work} (λ r. Stands t w.chan r.chan)
        (ltb alev (if w.chan.mode.mode private then chaccess_chanop else chaccess_halfop))
        (λ e. denied w err_chanoprivsneeded)
        (λ e. member-Stands env alev t below other b'h' halfop dir w st)
  handle-Stands dir c voice_mode w st =
      if-case {A = Work} (λ r. Stands t w.chan r.chan) (ltb alev chaccess_halfop)
        (λ e. denied w err_chanoprivsneeded)
        (λ e. member-Stands env alev t below other b'v' voice dir w st)

  letters-Stands :
      (dir : Dir) (modes : Bytes) (w : Work)
      → HasStanding (w.chan.flags t)
      → Stands t w.chan (letters env alev dir modes w).chan
  unfolding letters
  letters-Stands dir [] w st = λ f s h. h
  letters-Stands dir (c ∷ s) w st =
      let here =
        if-case {A = Work} (λ r. Stands t w.chan r.chan) (is_sign c) (λ e f s h. h)
          (λ e. handle-Stands dir c (mode_table c) w st) in
      let rest =
        letters-Stands (next_dir c dir) s
          (if is_sign c then w else handle env alev dir c (mode_table c) w)
          (still w.chan (if is_sign c then w else handle env alev dir c (mode_table c) w).chan here
            st) in
      λ f i h. rest f i (here f i h)
    where
      still :
          (ch ch' : Channel)
          → Stands t ch ch'
          → HasStanding (ch.flags t)
          → HasStanding (ch'.flags t)
      still ch ch' q (inl h) = inl (q owner refl h)
      still ch ch' q (inr h) = inr (q protected refl h)

-- A local client that is no owner of the channel takes no status from an owner or a protected member other than
-- itself by MODE, whatever letters and parameters it sends: such a member keeps each of the statuses owner,
-- protected, operator, half-operator and voice that it has.
pub set_channel_mode-Stands :
    (env : Env) (flags : MemberFlag → Bool) (modes : Bytes) (params : List Bytes) (ch : Channel)
    (t : ℕ)
    → env.source.my_client ≡ true
    → flags owner ≡ false
    → t ≢ env.source.number
    → HasStanding (ch.flags t)
    → Stands t ch (set_channel_mode env (some flags) modes params ch).chan
unfolding set_channel_mode
set_channel_mode-Stands env flags modes params ch t my low other standing =
    letters-Stands env (get_channel_access env.source.my_client (some flags)) t
      (subst (λ b. ltb (get_channel_access b (some flags)) chaccess_owner ≡ true) (sym my)
        (access flags low))
      (ground arith) add modes (start ch params) standing
  where
    access :
        (flags : MemberFlag → Bool)
        → flags owner ≡ false
        → ltb (get_channel_access true (some flags)) chaccess_owner ≡ true
    access flags h = unfold get_channel_access in ground arith
