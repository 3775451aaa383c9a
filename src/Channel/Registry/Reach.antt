-- ===== src/Channel/Registry/Reach.antt =====
-- The states that the operations of src/channel.c on channels and members lead to.
use unirc_ircd.Prelude.{
  ℕ, ◌≡◌, refl, Bool, true, false, some, List, [], ◌∷◌, arith, ◌==◌, if◌then◌else◌, length, count,
  Bool-cases, inl, inr,
}
use unirc_ircd.Chars.{Bytes}
use unirc_ircd.Channel.Types.{Ban}
use unirc_ircd.Hash.Spec.{added, deleted}
use unirc_ircd.Channel.Registry.{
  Registry, set_lists, add_lazylinkchannel, invite, make_channel, add_user_to_channel, take_member,
  remove_user_from_channel,
}
use unirc_ircd.Channel.Registry.Sound.{
  Sound, add_user-Sound, take_member-Sound, make_channel-Sound, invite-Sound, destroy_channel-Sound,
  add_lazylinkchannel-Sound, set_lists-Sound,
}

no_length : (xs : List ℕ) → (length xs == 0) ≡ true → (m : ℕ) → count m xs ≡ 0
no_length [] h m = refl
no_length (x ∷ xs) h m = absurd (ground (arith, h))

-- The channels that are left open when a member leaves.
abbrev pub open_after : ℕ → Registry → (ℕ → Bool) → ℕ → Bool
open_after m s opened =
    if length ((take_member m s).members (s.chptr m)) == 0
    then deleted (s.chptr m) opened
    else opened

remove_user-Sound :
    (key : ℕ) (hub : Bool) (live opened : ℕ → Bool) (s : Registry) (m : ℕ)
    → Sound key hub live opened s
    → Sound key hub (deleted m live) (open_after m s opened) (remove_user_from_channel key hub m s)
unfolding remove_user_from_channel
remove_user-Sound key hub live opened s m sound =
    let left = take_member-Sound key hub live opened s sound m in
    elim (Bool-cases (length ((take_member m s).members (s.chptr m)) == 0)) [
      | inl e ↦ rw e (
          destroy_channel-Sound key hub (deleted m live) opened (take_member m s) left (s.chptr m)
            (no_length ((take_member m s).members (s.chptr m)) e))
      | inr e ↦ rw e left
    ]

-- No channel, and nobody on one.
abbrev pub nothing : Registry
nothing = record {
  client_p = λ m. 0;
  chptr = λ m. 0;
  flags = λ m. 0;
  chname = λ c. [];
  members = λ c. [];
  invites = λ c. [];
  banlist = λ c. [];
  exceptlist = λ c. [];
  invexlist = λ c. [];
  channel = λ w. [];
  invited = λ w. [];
  global_channel_list = [];
  lazylink_channels = [];
  channel_table = λ h. [];
}

-- The states that the operations lead to, with the memberships in use and the channels that are open: blocks are
-- taken when they are free, and clients join channels, and are invited to them, that are open; an open channel is
-- noted for lazy links where it is not yet.
pub data Reach (key max_chans : ℕ) (hub : Bool) : (ℕ → Bool) → (ℕ → Bool) → Registry → Type 0 where
  none_yet : Reach key max_chans hub (λ m. false) (λ c. false) nothing
  made :
      {live opened : ℕ → Bool} {s : Registry} (ch : ℕ) (name : Bytes)
      → Reach key max_chans hub live opened s
      → opened ch ≡ false
      → Reach key max_chans hub live (added ch opened) (make_channel key ch name s)
  joined :
      {live opened : ℕ → Bool} {s : Registry} (m ch who flags : ℕ)
      → Reach key max_chans hub live opened s
      → live m ≡ false
      → opened ch ≡ true
      → Reach key max_chans hub (added m live) opened (add_user_to_channel m ch who flags s)
  asked :
      {live opened : ℕ → Bool} {s s1 : Registry} (ch who : ℕ)
      → Reach key max_chans hub live opened s
      → opened ch ≡ true
      → invite max_chans ch who s ≡ some s1
      → Reach key max_chans hub live opened s1
  linked :
      {live opened : ℕ → Bool} {s : Registry} (ch : ℕ)
      → Reach key max_chans hub live opened s
      → opened ch ≡ true
      → count ch s.lazylink_channels ≡ 0
      → Reach key max_chans hub live opened (add_lazylinkchannel ch s)
  listed :
      {live opened : ℕ → Bool} {s : Registry} (ch : ℕ) (bans excepts invexes : List Ban)
      → Reach key max_chans hub live opened s
      → opened ch ≡ true
      → Reach key max_chans hub live opened (set_lists ch bans excepts invexes s)
  left :
      {live opened : ℕ → Bool} {s : Registry} (m : ℕ)
      → Reach key max_chans hub live opened s
      → live m ≡ true
      → Reach key max_chans hub
          (deleted m live)
          (open_after m s opened)
          (remove_user_from_channel key hub m s)

-- Whatever channels are made, whoever joins, is invited and leaves, whatever bans and exceptions are set and whichever
-- channels are noted for lazy links, each of them once at most, in any order: a membership stands once in the list of
-- its channel, which is open, once in that of its client, and nowhere else; a channel that is open stands once in the
-- list of all channels and once in its chain of the hash table, and one that is not, in neither; the lists of the
-- invitations of clients and of channels agree, hold none twice, and none to a channel that is not open; on a hub the
-- list for lazy links has no channel that is not open; and a channel that is not open has no members, bans and
-- exceptions. So a channel that is destroyed, as its last member leaves, is in none of these lists any more.
pub Reach-Sound :
    {key max_chans : ℕ} {hub : Bool} {live opened : ℕ → Bool} {s : Registry}
    → Reach key max_chans hub live opened s
    → Sound key hub live opened s
Reach-Sound none_yet = record {
  members = λ m c. refl;
  channel = λ m c. refl;
  homes = λ m h. absurd (cc h);
  guests = record { agree = λ w c. refl; once = λ w c. omega arith; closed = λ w c h. refl };
  global = λ c. refl;
  table = λ a h. ground arith;
  lazy = λ h c. omega arith;
  lists = λ c h. (refl, refl, refl);
}
Reach-Sound (made ch name r o) = make_channel-Sound _ _ _ _ _ (Reach-Sound r) ch name o
Reach-Sound (joined m ch who flags r fresh o) =
    add_user-Sound _ _ _ _ _ (Reach-Sound r) m ch who flags fresh o
Reach-Sound (asked ch who r o e) = invite-Sound _ _ _ _ _ (Reach-Sound r) _ ch who _ o e
Reach-Sound (linked ch r o first) = add_lazylinkchannel-Sound _ _ _ _ _ (Reach-Sound r) ch o first
Reach-Sound (listed ch bans excepts invexes r o) =
    set_lists-Sound _ _ _ _ _ (Reach-Sound r) ch bans excepts invexes o
Reach-Sound (left m r l) = remove_user-Sound _ _ _ _ _ m (Reach-Sound r)
