-- ===== src/Modes/Walk.antt =====
-- What the handlers of src/channel_mode.c leave of the channel, for any property of channels: each lemma
-- says at which states the property has to be shown.
use unirc_ircd.Prelude.{
  ℕ, ◌+◌, ◌≡◌, refl, not, Option, none, some, List, [], ◌∷◌, arith, ltb, if-case,
}
use unirc_ircd.Chars.{Bytes}
use unirc_ircd.Dlink.Chain.{has}
use unirc_ircd.Modes.Types.{
  Dir, query, add, del, Channel, Env, Work, maxmodeparams, limited, no_ops, deny,
}
use unirc_ircd.Modes.Members.{found_member, named_member, with_member, not_member}

-- A state with the same channel.
abbrev pub On : Channel → Work → Type 0
On ch w = w.chan ≡ ch

no_ops-On : (numeric : ℕ) (w : Work) → On w.chan (no_ops numeric w)
unfolding no_ops
no_ops-On numeric w = ground arith

pub deny-On : (numeric alev : ℕ) (w : Work) → On w.chan (deny numeric alev w)
unfolding deny
deny-On numeric alev w = no_ops-On _ w

not_member-On : (env : Env) (w : Work) → On w.chan (not_member env w)
unfolding not_member
not_member-On env w = ground arith

module _ (Q : Channel → Type 0) where
  pub no_ops_walk : (numeric : ℕ) (w : Work) → Q w.chan → Q (no_ops numeric w).chan
  no_ops_walk numeric w q = rw (no_ops-On numeric w) q

  pub deny_walk : (numeric alev : ℕ) (w : Work) → Q w.chan → Q (deny numeric alev w).chan
  deny_walk numeric alev w q = rw (deny-On numeric alev w) q

  pub limited_walk :
      (env : Env) (w : Work) (go : Work → Work)
      → Q w.chan
      → ((w1 : Work) → On w.chan w1 → Q (go w1).chan)
      → Q (limited env w go).chan
  limited_walk env w go q walk =
      if-case {A = Work} (λ r. Q r.chan) env.source.my_client
        (λ e.
          if-case {A = Work} (λ r. Q r.chan) (ltb maxmodeparams (w.mode_limit + 1)) (λ h. q)
            (λ h. walk _ refl))
        (λ e. walk w refl)

  found_walk :
      (env : Env) (w : Work) (go : ℕ → Work → Work) (found : Option ℕ)
      → Q w.chan
      → ((t : ℕ) (w1 : Work) → On w.chan w1 → Q (go t w1).chan)
      → Q (found_member env go found w).chan
  found_walk env w go none q walk = q
  found_walk env w go (some t) q walk =
      if-case {A = Work} (λ r. Q r.chan) (not (env.person t).is_client) (λ e. q)
        (λ e.
          if-case {A = Work} (λ r. Q r.chan) (has t w.chan.members) (λ h. walk t w refl)
            (λ h. rw (not_member-On env w) q))

  named_walk :
      (env : Env) (w : Work) (go : ℕ → Work → Work) (params : List Bytes)
      → Q w.chan
      → ((t : ℕ) (w1 : Work) → On w.chan w1 → Q (go t w1).chan)
      → Q (named_member env go params w).chan
  named_walk env w go [] q walk = q
  named_walk env w go (p ∷ ps) q walk =
      found_walk env (record w { params = ps }) go (env.find_chasing p) q walk

  pub with_member_walk :
      (env : Env) (dir : Dir) (w : Work) (go : ℕ → Work → Work)
      → Q w.chan
      → ((t : ℕ) (w1 : Work) → On w.chan w1 → Q (go t w1).chan)
      → Q (with_member env dir go w).chan
  with_member_walk env query w go q walk = q
  with_member_walk env add w go q walk = named_walk env w go w.params q walk
  with_member_walk env del w go q walk = named_walk env w go w.params q walk
