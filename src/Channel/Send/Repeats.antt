-- ===== src/Channel/Send/Repeats.antt =====
-- The repeat check of `can_send` (src/channel.c) behind the flood check of channel mode +f.
use unirc_ircd.Prelude.{
  ℕ, ◌<◌, ◌≡◌, refl, true, false, some, [], ◌∷◌, arith, length, if◌then◌else◌, Bool-cases, inl, inr,
  ==_refl,
}
use unirc_ircd.Chars.{Bytes}
use unirc_ircd.Channel.Types.{Mode, Channel, Membership}
use unirc_ircd.Channel.Flood.{check_for_chan_flood}
use unirc_ircd.Channel.Send.{
  repeated_text, flooding, same_text, with_text, text_checks, last_message, repeats,
}

same_text_refl : (t : Bytes) → same_text t t ≡ true
unfolding same_text
same_text_refl [] = refl
same_text_refl (c ∷ t) = rw (==_refl c) (same_text_refl t)

-- What the flood check leaves of a membership whose flood check is on.
checked :
    (now : ℕ) (mode : Mode) (ms : Membership)
    → 1 < mode.msgs
    → 0 < mode.per
    → ((check_for_chan_flood now mode ms).1.lmsg_time ≡ now)
      × ((check_for_chan_flood now mode ms).1.lmsg ≡ ms.lmsg)
      × ((check_for_chan_flood now mode ms).1.lsize ≡ ms.lsize)
unfolding check_for_chan_flood
checked now mode ms hm hp = ground arith

-- In a channel with the no-flood mode and without the no-spam mode, and with +f set for at least two
-- messages and one second, a member's text that is the same as the last one kept is refused, as a
-- flood or as a repetition, whenever the last one was sent.
with_text-repeats :
    (now since : ℕ) (ch : Channel) (ms : Membership) (text : Bytes)
    → 1 < ch.mode.msgs
    → 0 < ch.mode.per
    → ch.mode.no_flood ≡ true
    → ch.mode.no_spam ≡ false
    → ms.lmsg ≡ some text
    → ms.lsize ≡ length text
    → (with_text now ch since (some ms) (some text)).code
      ≡ (if (check_for_chan_flood now ch.mode ms).0 then flooding else repeated_text)
unfolding with_text text_checks last_message repeats
with_text-repeats now since ch ms text hm hp nf ns hl hs =
    let (k0, k1, k2) = checked now ch.mode ms hm hp in
    elim (Bool-cases (check_for_chan_flood now ch.mode ms).0) [
      | inl e ↦ simp e refl
      | inr e ↦ simp (e, nf, ns, k0, k1, k2, hl, hs, same_text_refl, ==_refl) (ground arith)
    ]
