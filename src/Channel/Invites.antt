-- ===== src/Channel/Invites.antt =====
-- `add_invite` and `del_invite` of src/channel.c: the invitations of one client, which its own list and
-- the lists of the channels both hold.
use unirc_ircd.Prelude.{
  ℕ, ◌+◌, ◌≤◌, ◌<◌, ◌≡◌, refl, Option, none, some, List, [], ◌∷◌, arith, ◌==◌, leb, if◌then◌else◌,
  length, count, remove_first, count-remove_first, length-remove_first-le, Bool-cases, inl, inr,
}

-- The client's `invited`, a list of channels, and `invites` of each channel, a list of clients.
pub record Invites : Type 0 where
  pub invited : List ℕ
  pub invites : ℕ → List ℕ

-- The data of the tail: `none` is a NULL tail.
unfoldable pub tail_data : List ℕ → Option ℕ
tail_data [] = none
tail_data (a ∷ []) = some a
tail_data (a ∷ b ∷ bs) = tail_data (b ∷ bs)

unfoldable pub del_invite : ℕ → ℕ → Invites → Invites
del_invite ch who s = record {
  invited = remove_first ch s.invited;
  invites = λ c. if c == ch then remove_first who (s.invites c) else s.invites c;
}

unfoldable pub put_invite : ℕ → ℕ → Invites → Invites
put_invite ch who s = record {
  invited = ch ∷ s.invited;
  invites = λ c. if c == ch then who ∷ s.invites c else s.invites c;
}

-- `none` is reading through a NULL tail, which takes an empty list and a maximum of 0.
unfoldable pub add_invite : ℕ → ℕ → ℕ → Invites → Option Invites
add_invite max_chans ch who s =
    let once = del_invite ch who s in
    if leb max_chans (length once.invited)
    then elim (tail_data once.invited) [
      | none ↦ none
      | some last ↦ some (put_invite ch who (del_invite last who once))
    ]
    else some (put_invite ch who once)

-- A channel is in the client's list as often as the client is in the channel's.
abbrev pub Agree : ℕ → Invites → Type 0
Agree who s = (c : ℕ) → count c s.invited ≡ count who (s.invites c)

pub del_invite-Agree : (ch who : ℕ) (s : Invites) → Agree who s → Agree who (del_invite ch who s)
unfolding del_invite
del_invite-Agree ch who s h c =
    ground (arith, count-remove_first ch c s.invited, count-remove_first who who (s.invites c), h c)

put_invite-Agree : (ch who : ℕ) (s : Invites) → Agree who s → Agree who (put_invite ch who s)
unfolding put_invite
put_invite-Agree ch who s h c = ground (arith, h c)

tail_deleted :
    (a : ℕ) (bs : List ℕ) → tail_data bs ≡ some a → length (remove_first a bs) + 1 ≡ length bs
unfolding tail_data
tail_deleted a [] h = absurd (cc h)
tail_deleted a (b ∷ []) h = ground (arith, h)
tail_deleted a (b ∷ c ∷ bs) h = ground (arith, tail_deleted a (c ∷ bs) h)

no_tail : (xs : List ℕ) → tail_data xs ≡ none → 0 < length xs → ⊥
unfolding tail_data
no_tail [] k l = absurd (omega arith)
no_tail (a ∷ []) k l = cc k
no_tail (a ∷ b ∷ bs) k l = no_tail (b ∷ bs) k (omega arith)

-- What `add_invite` leaves: lists that agree, no longer than the maximum, with the channel first.
abbrev pub Invited : ℕ → ℕ → ℕ → Option Invites → Type 0
Invited max_chans ch who none = ⊥
Invited max_chans ch who (some s) =
    Agree who s × (length s.invited ≤ max_chans) × (0 < count ch s.invited)

put_invite-Invited :
    (max_chans ch who : ℕ) (s : Invites)
    → Agree who s
    → length s.invited < max_chans
    → Invited max_chans ch who (some (put_invite ch who s))
put_invite-Invited max_chans ch who s h r = (
  put_invite-Agree ch who s h,
  (unfold put_invite in omega arith),
  (unfold put_invite in ground arith),
)

-- Where at least one invitation is allowed, and the client's list is no longer than is allowed and
-- agrees with the channels' lists, `add_invite` succeeds, both lists agree afterwards, the client's
-- list is no longer than is allowed, and the client is invited to the channel.
pub add_invite-Invited :
    (max_chans ch who : ℕ) (s : Invites)
    → 0 < max_chans
    → Agree who s
    → length s.invited ≤ max_chans
    → Invited max_chans ch who (add_invite max_chans ch who s)
unfolding add_invite
add_invite-Invited max_chans ch who s p h r =
    let once = del_invite ch who s in
    let agree = del_invite-Agree ch who s h in
    let shorter = length-remove_first-le ch s.invited in
    elim (Bool-cases (leb max_chans (length once.invited))) [
      | inr e ↦ rw e (put_invite-Invited max_chans ch who once agree (ground (arith, e)))
      | inl e ↦ rw e (
          full once agree (unfold del_invite in omega arith) (ground (arith, e))
            (tail_data once.invited) refl)
    ]
  where
    full :
        (once : Invites)
        → Agree who once
        → length once.invited ≤ max_chans
        → max_chans ≤ length once.invited
        → (o : Option ℕ) → tail_data once.invited ≡ o
        → Invited max_chans ch who (elim o [
          | none ↦ none
          | some last ↦ some (put_invite ch who (del_invite last who once))
        ])
    full once agree le ge none t = absurd (no_tail once.invited t (omega arith))
    full once agree le ge (some last) t =
        put_invite-Invited max_chans ch who (del_invite last who once)
          (del_invite-Agree last who once agree)
          (unfold del_invite in omega (arith, tail_deleted last once.invited t))
