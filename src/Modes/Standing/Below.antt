-- ===== src/Modes/Standing/Below.antt =====
-- The handlers of members of src/channel_mode.c, called by a source below an owner.
use mathlib.Core.Path.{subst}
use unirc_ircd.Prelude.{
  ℕ, ◌≡◌, ◌⊎◌, sym, ◌∙◌, Bool, true, false, not, ◌&&◌, arith, ◌==◌, ltb, if-case, Bool-cases,
  ==_iff, inl, inr,
}
use unirc_ircd.Modes.Types.{
  MemberFlag, owner, protected, Dir, query, add, del, Channel, Env, Work, chaccess_owner,
  chaccess_remote, err_chanownprivneeded, err_cannotchangechanmode, no_ops,
}
use unirc_ircd.Modes.Members.{
  take_away, change_status, guarded, guarded_member, protect_member, with_member, no_guard,
}
use unirc_ircd.Modes.Walk.{On, no_ops_walk, limited_walk, with_member_walk}
use unirc_ircd.Modes.Standing.Status.{Stands, give-Stands}

-- The members that others below an owner cannot take a status from.
abbrev pub HasStanding : (MemberFlag → Bool) → Type 0
HasStanding flags = (flags owner ≡ true) ⊎ (flags protected ≡ true)

module _ (env : Env) (alev t : ℕ) (below : ltb alev chaccess_owner ≡ true)
    (other : (env.source.number == t) ≡ false) where
  guarded-Stands :
      (ch : Channel) (u letter : ℕ) (g : MemberFlag) (w : Work)
      → HasStanding (ch.flags t)
      → On ch w
      → Stands t ch (guarded env alev u w (take_away env letter g u)).chan
  unfolding guarded
  guarded-Stands ch u letter g w standing on =
      if-case {A = Work} (λ r. Stands t ch r.chan)
        ((env.person u).is_services && ltb alev chaccess_remote) (λ e. told)
        (λ e.
          if-case {A = Work} (λ r. Stands t ch r.chan)
            (w.chan.flags u owner && ltb alev chaccess_owner && not (env.source.number == u))
            (λ e. told)
            (λ not_owner.
              if-case {A = Work} (λ r. Stands t ch r.chan)
                (w.chan.flags u protected
                  && ltb alev chaccess_owner
                  && not (env.source.number == u))
                (λ e. told)
                (λ not_protected. elim (Bool-cases (t == u)) [
                  | inl e ↦ absurd (barred ((==_iff t u).0 e) not_owner not_protected)
                  | inr e ↦ λ f s h. rw e (rw on h)
                ])))
    where
      told : Stands t ch (no_ops err_cannotchangechanmode w).chan
      told = no_ops_walk (Stands t ch) err_cannotchangechanmode w (λ f s h. rw on h)

      refuted :
          (a b c d : Bool)
          → (a ≡ true) ⊎ (d ≡ true)
          → b ≡ true
          → c ≡ false
          → (a && b && not c) ≡ false
          → (d && b && not c) ≡ false
          → ⊥
      refuted a b c d p q r x y = ground arith

      barred :
          t ≡ u
          → (w.chan.flags u owner && ltb alev chaccess_owner && not (env.source.number == u))
            ≡ false
          → (w.chan.flags u protected && ltb alev chaccess_owner && not (env.source.number == u))
            ≡ false
          → ⊥
      barred e x y =
          refuted (w.chan.flags u owner) (ltb alev chaccess_owner) (env.source.number == u)
            (w.chan.flags u protected)
            (subst (λ c. HasStanding (w.chan.flags c)) e
              (subst (λ c. HasStanding (c.flags t)) (sym on) standing))
            below (subst (λ c. (env.source.number == c) ≡ false) e other) x y

  change-Stands :
      (ch : Channel) (letter : ℕ) (g : MemberFlag) (dir : Dir) (u : ℕ) (w : Work)
      → HasStanding (ch.flags t)
      → On ch w
      → Stands t ch (change_status env letter g (guarded env alev) dir u w).chan
  unfolding change_status
  change-Stands ch letter g query u w standing on f s h = rw on h
  change-Stands ch letter g add u w standing on f s h =
      if-case {A = Work} (λ r. r.chan.flags t f ≡ true) (w.chan.flags u g) (λ e. rw on h)
        (λ e. give-Stands env letter t u g w f s (rw on h))
  change-Stands ch letter g del u w standing on f s h =
      if-case {A = Work} (λ r. r.chan.flags t f ≡ true) (not (w.chan.flags u g)) (λ e. rw on h)
        (λ e. guarded-Stands ch u letter g w standing on f s h)

  -- The five handlers of members.
  pub member-Stands :
      (letter : ℕ) (g : MemberFlag) (dir : Dir) (w : Work)
      → HasStanding (w.chan.flags t)
      → Stands t w.chan (with_member env dir (guarded_member env alev letter g dir) w).chan
  member-Stands letter g dir w standing =
      with_member_walk (Stands t w.chan) env dir w (guarded_member env alev letter g dir)
        (λ f s h. h)
        (λ u w1 on.
          limited_walk (Stands t w.chan) env w1
            (change_status env letter g (guarded env alev) dir u) (λ f s h. rw on h)
            (λ w2 on2. change-Stands w.chan letter g dir u w2 standing (on2 ∙ on)))

  pub protect-Stands :
      (ch : Channel) (dir : Dir) (u : ℕ) (w : Work)
      → On ch w
      → Stands t ch (protect_member env alev dir u w).chan
  unfolding change_status
  protect-Stands ch dir u w on =
      if-case {A = Work} (λ r. Stands t ch r.chan)
        (ltb alev chaccess_owner && not (env.source.number == u))
        (λ e. no_ops_walk (Stands t ch) err_chanownprivneeded w (λ f s h. rw on h))
        (λ e.
          limited_walk (Stands t ch) env w (change_status env b'a' protected no_guard dir u)
            (λ f s h. rw on h) (λ w1 on1. self w1 (on1 ∙ on) dir (apart e)))
    where
      own : (a : ℕ) → (env.source.number == u) ≡ true → (t == u) ≡ false
      own a e = ground (arith, other)

      is_own : (b c : Bool) → (b && not c) ≡ false → b ≡ true → c ≡ true
      is_own b c x y = ground arith

      apart : (ltb alev chaccess_owner && not (env.source.number == u)) ≡ false → (t == u) ≡ false
      apart e = own 0 (is_own (ltb alev chaccess_owner) (env.source.number == u) e below)

      self :
          (w1 : Work)
          → On ch w1
          → (dir : Dir) → (t == u) ≡ false
          → Stands t ch (change_status env b'a' protected no_guard dir u w1).chan
      self w1 on1 query e f s h = rw on1 h
      self w1 on1 add e f s h =
          if-case {A = Work} (λ r. r.chan.flags t f ≡ true) (w1.chan.flags u protected)
            (λ k. rw on1 h) (λ k. give-Stands env b'a' t u protected w1 f s (rw on1 h))
      self w1 on1 del e f s h =
          if-case {A = Work} (λ r. r.chan.flags t f ≡ true) (not (w1.chan.flags u protected))
            (λ k. rw on1 h) (λ k. rw e (rw on1 h))
