-- ===== src/Channel/Flood.antt =====
-- `check_for_chan_flood` of src/channel.c, channel mode +f: at most `msgs` messages with less than `per`
-- seconds between each and the one before.
use unirc_ircd.Prelude.{
  ℕ, ◌+◌, ◌-◌, ◌≡◌, ◌≤◌, ◌<◌, refl, ap, ◌∙◌, Bool, false, ◌||◌, List, [], ◌∷◌, arith, ltb, leb,
  length, if◌then◌else◌,
}
use unirc_ircd.Channel.Types.{Mode, Membership}

-- The membership afterwards, and whether the message is refused. (A refusal also sets `since` of the
-- client to ten seconds from now, in `with_text` of Channel/Send.)
unfoldable pub check_for_chan_flood : ℕ → Mode → Membership → Bool × Membership
check_for_chan_flood now mode ms =
    if leb mode.msgs 1 || ltb mode.per 1
    then (false, ms)
    else if leb mode.per (now - ms.lmsg_time)
    then (false, record ms { lmsg_time = now; nmsg = 1 })
    else (leb mode.msgs (ms.nmsg + 1), record ms { nmsg = ms.nmsg + 1; lmsg_time = now })

-- Messages at the given times; the answer is that for the last.
pub flood_run : Mode → List ℕ → Bool × Membership → Bool × Membership
flood_run mode [] st = st
flood_run mode (t ∷ ts) st = flood_run mode ts (check_for_chan_flood t mode st.1)

-- Each time is not before the one before it, and less than `per` after it.
abbrev pub Rapid : ℕ → ℕ → List ℕ → Type 0
Rapid per last [] = Unit {0}
Rapid per last (t ∷ ts) = (last ≤ t) × (t < last + per) × Rapid per t ts

-- A message soon after the one before is counted, and one long after starts the count again.
module _ (now : ℕ) (mode : Mode) (ms : Membership) (some_msgs : 1 < mode.msgs)
    (some_per : 0 < mode.per) where
  rapid_message :
      now < ms.lmsg_time + mode.per
      → check_for_chan_flood now mode ms
        ≡ (leb mode.msgs (ms.nmsg + 1), record ms { nmsg = ms.nmsg + 1; lmsg_time = now })
  unfolding check_for_chan_flood
  rapid_message h = ground arith

  late_message :
      ms.lmsg_time + mode.per ≤ now
      → check_for_chan_flood now mode ms ≡ (false, record ms { lmsg_time = now; nmsg = 1 })
  unfolding check_for_chan_flood
  late_message h = ground arith

flood_run-counts :
    (mode : Mode) (ts : List ℕ) (refused : Bool) (ms : Membership)
    → 1 < mode.msgs
    → 0 < mode.per
    → Rapid mode.per ms.lmsg_time ts
    → refused ≡ leb mode.msgs ms.nmsg
    → (flood_run mode ts (refused, ms)).0 ≡ leb mode.msgs (ms.nmsg + length ts)
unfolding flood_run
flood_run-counts mode [] refused ms hm hp r e = ground (arith, e)
flood_run-counts mode (t ∷ ts) refused ms hm hp r e =
    let counted : Membership = record ms { nmsg = ms.nmsg + 1; lmsg_time = t } in
    ap (λ st. (flood_run mode ts st).0) (rapid_message t mode ms hm hp r.1)
    ∙ flood_run-counts mode ts (leb mode.msgs (ms.nmsg + 1)) counted hm hp r.2 refl
    ∙ ap (leb mode.msgs) (omega arith)

-- With +f set for at least two messages and one second, after a pause of `per` seconds or more, of
-- messages that follow one another in less than `per` seconds the last is refused exactly if there
-- are at least `msgs` of them.
pub flood_run-refuses :
    (mode : Mode) (ms : Membership) (t : ℕ) (ts : List ℕ)
    → 1 < mode.msgs
    → 0 < mode.per
    → ms.lmsg_time + mode.per ≤ t
    → Rapid mode.per t ts
    → (flood_run mode (t ∷ ts) (false, ms)).0 ≡ leb mode.msgs (1 + length ts)
unfolding flood_run
flood_run-refuses mode ms t ts hm hp late r =
    let fresh : Membership = record ms { lmsg_time = t; nmsg = 1 } in
    ap (λ st. (flood_run mode ts st).0) (late_message t mode ms hm hp late)
    ∙ flood_run-counts mode ts false fresh hm hp r (ground arith)
