-- ===== src/Sjoin/Settle.antt =====
-- The timestamps in `ms_sjoin` of modules/core/m_sjoin.c: whose modes stay, and how modes are joined. A timestamp is not
-- negative.
pub mod Order
pub mod Agree
use unirc_ircd.Prelude.{ℕ, Bool, true, false, not, ◌&&◌, ◌||◌, [], ◌∷◌, ◌==◌, ltb, if◌then◌else◌}
use unirc_ircd.Chars.{Bytes}
use unirc_ircd.Modes.Types.{ChannelMode}

-- `strcmp(a, b) < 0`
unfoldable pub comes_before : Bytes → Bytes → Bool
comes_before [] [] = false
comes_before [] (d ∷ t) = true
comes_before (c ∷ s) [] = false
comes_before (c ∷ s) (d ∷ t) = if c == d then comes_before s t else ltb c d

-- The modes of one server, and the timestamp that it has for the channel.
pub record Side : Type 0 where
  pub ts : ℕ
  pub modes : ChannelMode

-- `newts`, which `ignore_bogus_ts` mends.
abbrev pub earliest : ℕ
earliest = 800000000

abbrev pub mended : Bool → ℕ → ℕ → ℕ
mended ignore_bogus_ts oldts newts =
    if ignore_bogus_ts && ltb newts earliest then if oldts == 0 then 0 else earliest else newts

-- The timestamp that the channel then has, `keep_our_modes` and `keep_new_modes`.
unfoldable pub keep : Bool → ℕ → ℕ → ℕ × Bool × Bool
keep isnew oldts newts =
    if isnew
    then (newts, true, true)
    else if newts == 0 || oldts == 0
    then (0, true, true)
    else if newts == oldts
    then (oldts, true, true)
    else if ltb newts oldts
    then (newts, false, true)
    else (oldts, true, false)

abbrev pub larger : ℕ → ℕ → ℕ
larger old new = if ltb new old then old else new

abbrev pub later : Bytes → Bytes → Bytes
later old new = if comes_before new old then old else new

-- The modes of both.
unfoldable pub join_modes : ChannelMode → ChannelMode → ChannelMode
join_modes old new = record {
  mode = λ f. new.mode f || old.mode f;
  limit = larger old.limit new.limit;
  key = later old.key new.key;
  forward = later old.forward new.forward;
  msgs = larger old.msgs new.msgs;
  per = larger old.per new.per;
}

abbrev pub kept_modes : Bool → Bool → ChannelMode → ChannelMode → ChannelMode
kept_modes our new old_modes new_modes =
    if not new then old_modes else if our then join_modes old_modes new_modes else new_modes

-- What a channel that there is becomes by a timestamp and modes that were read, where timestamps are not mended.
unfoldable pub settle : Side → Side → Side
settle old new =
    let (ts, our, theirs) = keep false old.ts new.ts in
    record { ts = ts; modes = kept_modes our theirs old.modes new.modes }
