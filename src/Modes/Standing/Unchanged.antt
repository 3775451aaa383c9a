-- ===== src/Modes/Standing/Unchanged.antt =====
-- The handlers of src/channel_mode.c that leave the memberships alone.
use unirc_ircd.Prelude.{ℕ, ◌≡◌, refl, ap, not, ◌&&◌, ◌||◌, arith, ◌==◌, ltb, if-case}
use unirc_ircd.Modes.Types.{
  Flag, private, oper_only, chan_reg, ssl_only, bit, Dir, Channel, Env, Work, chaccess_halfop,
  chaccess_chanop, chaccess_remote, deny,
}
use unirc_ircd.Modes.Params.{
  chm_limit, chm_floodtime, chm_key, chm_forward, limit_dir, floodtime_dir, key_dir, forward_dir,
  add_limit, add_floodtime,
}
use unirc_ircd.Modes.Table.{
  chm_simple, chm_nosuch, no_privs, once, simple_dir, is_add_dir, any_nonssl,
}
use unirc_ircd.Modes.Walk.{deny-On}

-- The memberships are as they were.
abbrev pub SameFlags : Channel → Work → Type 0
SameFlags ch w = w.chan.flags ≡ ch.flags

pub deny-SameFlags : (numeric alev : ℕ) (w : Work) → SameFlags w.chan (deny numeric alev w)
deny-SameFlags numeric alev w = ap (λ ch. ch.flags) (deny-On numeric alev w)

pub limit-SameFlags :
    (alev : ℕ) (dir : Dir) (c : ℕ) (w : Work) → SameFlags w.chan (chm_limit alev dir c w)
unfolding chm_limit limit_dir add_limit
limit-SameFlags alev dir c w =
    if-case (SameFlags w.chan) (ltb alev chaccess_halfop) (λ e. deny-SameFlags _ alev w)
      (λ e. ground arith)

pub floodtime-SameFlags :
    (alev : ℕ) (dir : Dir) (c : ℕ) (w : Work) → SameFlags w.chan (chm_floodtime alev dir c w)
unfolding chm_floodtime floodtime_dir add_floodtime
floodtime-SameFlags alev dir c w =
    if-case (SameFlags w.chan) (ltb alev chaccess_halfop) (λ e. deny-SameFlags _ alev w)
      (λ e. ground arith)

pub key-SameFlags :
    (env : Env) (alev : ℕ) (dir : Dir) (c : ℕ) (w : Work)
    → SameFlags w.chan (chm_key env alev dir c w)
unfolding chm_key key_dir
key-SameFlags env alev dir c w =
    if-case (SameFlags w.chan) (ltb alev chaccess_halfop) (λ e. deny-SameFlags _ alev w)
      (λ e. ground arith)

pub forward-SameFlags :
    (env : Env) (alev : ℕ) (dir : Dir) (c : ℕ) (w : Work)
    → SameFlags w.chan (chm_forward env alev dir c w)
unfolding chm_forward forward_dir
forward-SameFlags env alev dir c w =
    if-case (SameFlags w.chan) (ltb alev chaccess_halfop) (λ e. deny-SameFlags _ alev w)
      (λ e. ground arith)

pub simple-SameFlags :
    (env : Env) (f : Flag) (alev : ℕ) (dir : Dir) (c : ℕ) (w : Work)
    → SameFlags w.chan (chm_simple env f alev dir c w)
unfolding chm_simple no_privs once simple_dir
simple-SameFlags env f alev dir c w =
    if-case (SameFlags w.chan)
      (ltb alev chaccess_halfop || bit f == bit private && ltb alev chaccess_chanop)
      (λ e. deny-SameFlags _ alev w)
      (λ e.
        if-case (SameFlags w.chan)
          (bit f == bit oper_only && ltb alev chaccess_remote && not env.source.is_oper)
          (λ e. ground arith)
          (λ e.
            if-case (SameFlags w.chan)
              (bit f == bit chan_reg && ltb alev chaccess_remote && not env.source.is_services)
              (λ e. ground arith)
              (λ e.
                if-case (SameFlags w.chan)
                  (bit f == bit ssl_only
                    && is_add_dir dir
                    && ltb alev chaccess_remote
                    && any_nonssl env w.chan.members)
                  (λ e. refl) (λ e. ground arith))))

pub nosuch-SameFlags : (w : Work) → SameFlags w.chan (chm_nosuch w)
unfolding chm_nosuch
nosuch-SameFlags w = ground arith
