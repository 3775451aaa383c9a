-- ===== src/Channel/Status.antt =====
-- `get_member_status` of src/channel.c, built with CHANAQ and HALFOPS.
use unirc_ircd.Prelude.{
  ℕ, ◌≡◌, refl, Bool, true, false, Option, none, some, [], ◌∷◌, arith, if◌then◌else◌, take,
}
use unirc_ircd.Chars.{Bytes}
use unirc_ircd.Channel.Types.{Membership}

-- One flag: its letter or symbol goes before the rest, or is all if letters are not combined.
abbrev pub status_flag : Bool → Bool → Bool → ℕ → ℕ → Bytes → Bytes
status_flag has combine modes symbol letter rest =
    let byte : ℕ = if modes then letter else symbol in
    if has then if combine then byte ∷ rest else byte ∷ [] else rest

pub get_member_status : Option Membership → Bool → Bool → Bytes
get_member_status none combine modes = []
get_member_status (some ms) combine modes =
    let voice : Bytes = if ms.voice then (if modes then b'v' else b'+') ∷ [] else [] in
    let halfop = status_flag ms.halfop combine modes b'%' b'h' voice in
    let chanop = status_flag ms.chanop combine modes b'@' b'o' halfop in
    let protected = status_flag ms.protected combine modes b'&' b'a' chanop in
    status_flag ms.owner combine modes b'~' b'q' protected

-- Without combining, the status is the first of the combined letters, if there is one.
pub get_member_status-combine :
    (ms : Option Membership) (modes : Bool)
    → get_member_status ms false modes ≡ take 1 (get_member_status ms true modes)
unfolding get_member_status
get_member_status-combine none modes = refl
get_member_status-combine (some ms) modes = ground arith
