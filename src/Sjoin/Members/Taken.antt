-- ===== src/Sjoin/Members/Taken.antt =====
-- Who may have a status on a channel once a SJOIN of modules/core/m_sjoin.c was taken in.
use unirc_ircd.Prelude.{ℕ, ◌≡◌, Bool, true, false, not, ◌&&◌, Option, none, some}
use unirc_ircd.Dlink.Chain.{has}
use unirc_ircd.Modes.Types.{MemberFlag, ChannelMode, Channel}
use unirc_ircd.Sjoin.Members.{Room}

-- What there is to say of a client and a status, by whether the client was a member: a member stays one and has the
-- status as before, but not where `our` is false; a newcomer with the status has it by `theirs`.
abbrev pub StatusOf : Bool → Bool → Bool → Channel → Channel → ℕ → MemberFlag → Type 0
StatusOf true our theirs before after c f =
    (has c after.members ≡ true) × (after.flags c f ≡ (our && before.flags c f))
StatusOf false our theirs before after c f =
    (has c after.members && (after.flags c f && not theirs)) ≡ false

abbrev pub TakenIn : ℕ → ChannelMode → Bool → Bool → ℕ → MemberFlag → Room → Option Room → Type 0
TakenIn ts now our theirs c f old none = ⊥
TakenIn ts now our theirs c f old (some after) =
    (after.ts ≡ ts)
    × (after.chan.mode ≡ now)
    × StatusOf (has c old.chan.members) our theirs old.chan after.chan c f
