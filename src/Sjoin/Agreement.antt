-- ===== src/Sjoin/Agreement.antt =====
-- Servers that send one another a channel, by `channel_modes` of src/channel_mode.c and `ms_sjoin` of
-- modules/core/m_sjoin.c.
use mathlib.Core.List.{Permᴰ}
use mathlib.Core.Path.{fun_ext}
use unirc_ircd.Prelude.{
  ap, ◌≡◌, refl, sym, ◌∙◌, ℕ, Bool, true, ◌&&◌, Option, none, some, List, [], ◌∷◌, ◌++◌, Bool-cases,
  inl, inr,
}
use unirc_ircd.Chars.{Bytes}
use unirc_ircd.Modes.Types.{ChannelMode, Flag}
use unirc_ircd.Modes.Show.{channel_modes}
use unirc_ircd.Sjoin.Letters.{sjoin_modes, sjoin_flags, no_modes}
use unirc_ircd.Sjoin.Members.{nick_words}
use unirc_ircd.Sjoin.Settle.{Side, settle}
use unirc_ircd.Sjoin.Settle.Agree.{AllTimed, settle_all, agreed, agreed-perm}
use unirc_ircd.Sjoin.Final.Told.{in_table}
use unirc_ircd.Sjoin.Relay.{IsSendable, channel_modes-sjoin_modes}

-- What `ms_sjoin` reads of the modes that `channel_modes` writes, and what becomes of the channel by it.
abbrev pub settle_read : Side → ℕ → Option (ChannelMode × List Bytes) → Option Side
settle_read old ts none = none
settle_read old ts (some (m, rest)) = some (settle old (record { ts = ts; modes = m }))

-- A server takes in the burst that another one sends with some nicks.
unfoldable pub take_in : Bytes → Side → Side → Option Side
take_in nicks old new =
    let sent = channel_modes true new.modes in
    settle_read old new.ts (sjoin_modes sent.0 (nick_words sent.1 ++ nicks ∷ []) no_modes)

abbrev pub take_in_next : (Side → Option Side) → Option Side → Option Side
take_in_next go none = none
take_in_next go (some s) = go s

-- A server that takes in the bursts of others in their order.
unfoldable pub take_in_all : Bytes → List Side → Side → Option Side
take_in_all nicks [] a = some a
take_in_all nicks (b ∷ bs) a = take_in_next (take_in_all nicks bs) (take_in nicks a b)

-- What the first of some servers has, once it took in the others.
abbrev pub after_bursts : Bytes → List Side → Option Side
after_bursts nicks [] = none
after_bursts nicks (a ∷ rest) = take_in_all nicks rest a

-- Each server's modes can be sent, and have a letter in a burst.
abbrev pub AllSent : List Side → Type 0
AllSent [] = Unit {0}
AllSent (a ∷ rest) =
    IsSendable a.modes
    × ((f : Flag) → a.modes.mode f ≡ true → in_table f sjoin_flags ≡ true)
    × AllSent rest

take_in-settle :
    (nicks : Bytes) (old new : Side)
    → IsSendable new.modes
    → ((f : Flag) → new.modes.mode f ≡ true → in_table f sjoin_flags ≡ true)
    → take_in nicks old new ≡ some (settle old new)
unfolding take_in
take_in-settle nicks old new s lettered =
    ap (settle_read old new.ts) (channel_modes-sjoin_modes new.modes nicks s)
    ∙ ap
        (λ (mode : Flag → Bool).
          some (settle old (record { ts = new.ts; modes = record (new.modes) { mode = mode } })))
        {x = λ f. new.modes.mode f && in_table f sjoin_flags} {y = new.modes.mode} (fun_ext same)
  where
    same : (f : Flag) → (new.modes.mode f && in_table f sjoin_flags) ≡ new.modes.mode f
    same f = elim (Bool-cases (new.modes.mode f)) [
      | inl e ↦ rw (e, lettered f e) refl
      | inr e ↦ rw e refl
    ]

take_in_all-settle_all :
    (nicks : Bytes) (bs : List Side) (a : Side)
    → AllSent bs
    → take_in_all nicks bs a ≡ some (settle_all a bs)
unfolding take_in_all
take_in_all-settle_all nicks [] a s = refl
take_in_all-settle_all nicks (b ∷ bs) a (s, lettered, rest) =
    ap (take_in_next (take_in_all nicks bs)) (take_in-settle nicks a b s lettered)
    ∙ take_in_all-settle_all nicks bs (settle a b) rest

after_bursts-agreed :
    (nicks : Bytes) (xs : List Side) → AllSent xs → after_bursts nicks xs ≡ agreed xs
after_bursts-agreed nicks [] s = refl
after_bursts-agreed nicks (a ∷ xs) (s, lettered, rest) = take_in_all-settle_all nicks xs a rest

-- Servers that have a channel with a timestamp each, none of them 0 and none mended, agree on it: whichever of them
-- takes in the bursts of the others, in whatever order, by what `ms_sjoin` reads of the letters and parameters, split at spaces, that `channel_modes`
-- writes, has the same timestamp and the same modes in the end. It is asked that the modes of each server can be
-- sent: none of their flags is the one of secure connections, which has no letter in a burst, the limit is below 2 ^ 31, a key of
-- at most 23 bytes and forward channels of at most 127 have no space, the numbers of +f are below 99 and both 0 or
-- neither, and at most one of forward channels, key and +f is set.
pub after_bursts-perm :
    {xs ys : List Side} (nicks : Bytes)
    → Permᴰ xs ys
    → AllTimed xs
    → AllSent xs
    → AllSent ys
    → after_bursts nicks xs ≡ after_bursts nicks ys
after_bursts-perm {xs = xs} {ys = ys} nicks p timed sx sy =
    after_bursts-agreed nicks xs sx ∙ agreed-perm p timed ∙ sym (after_bursts-agreed nicks ys sy)
