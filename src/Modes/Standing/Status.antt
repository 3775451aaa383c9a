-- ===== src/Modes/Standing/Status.antt =====
-- The statuses of a member, and what leaves them to it, in src/channel_mode.c.
use unirc_ircd.Prelude.{
  ℕ, ◌≡◌, refl, ◌∙◌, ap, Bool, true, false, arith, ◌==◌, ltb, if-case, Bool-cases, inl, inr,
}
use unirc_ircd.Modes.Types.{MemberFlag, deopped, member_bit, add, Channel, Env, Work, add_change}
use unirc_ircd.Modes.Members.{put_status, give, clears_deopped, member_change}
use unirc_ircd.Modes.Standing.Unchanged.{SameFlags}

-- The statuses of a member, which are the flags from owner to voice.
abbrev pub IsStatus : MemberFlag → Type 0
IsStatus f = ltb (member_bit f) 0x20 ≡ true

-- The member `t` has lost no status since `ch`.
abbrev pub Stands : ℕ → Channel → Channel → Type 0
Stands t ch ch' = (f : MemberFlag) → IsStatus f → ch.flags t f ≡ true → ch'.flags t f ≡ true

pub same-Stands : (t : ℕ) (ch : Channel) (w : Work) → SameFlags ch w → Stands t ch w.chan
same-Stands t ch w e f s h = ap (λ flags. flags t f) e ∙ h

-- A flag that is set, one that is no status and is cleared, and a flag of another member.
pub set-Stands :
    (t u : ℕ) (g : MemberFlag) (w : Work) → Stands t w.chan (put_status u g true w).chan
set-Stands t u g w f s h = elim (Bool-cases (t == u)) [
  | inl e ↦ rw e (if-case (λ b. b ≡ true) (member_bit f == member_bit g) (λ k. refl) (λ k. h))
  | inr e ↦ rw e h
]

pub deopped-Stands : (t u : ℕ) (w : Work) → Stands t w.chan (put_status u deopped false w).chan
deopped-Stands t u w f s h = elim (Bool-cases (t == u)) [
  | inl e ↦ rw e (
      if-case (λ b. b ≡ true) (member_bit f == member_bit deopped)
        (λ k. absurd (ground (arith, s, k))) (λ k. h))
  | inr e ↦ rw e h
]

pub other-Stands :
    (t u : ℕ) (g : MemberFlag) (b : Bool) (w : Work)
    → (t == u) ≡ false
    → Stands t w.chan (put_status u g b w).chan
other-Stands t u g b w e f s h = rw e h

pub give-Stands :
    (env : Env) (letter t u : ℕ) (g : MemberFlag) (w : Work)
    → Stands t w.chan (give env letter g u w).chan
give-Stands env letter t u g w f s h =
    if-case {A = Work} (λ r. r.chan.flags t f ≡ true) (clears_deopped g)
      (λ e.
        deopped-Stands t u (put_status u g true (add_change (member_change env letter u add) w)) f s
          (set-Stands t u g w f s h))
      (λ e. set-Stands t u g w f s h)
