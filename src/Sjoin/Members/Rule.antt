-- ===== src/Sjoin/Members/Rule.antt =====
-- What the parts of `ms_sjoin` of modules/core/m_sjoin.c do to the statuses of members.
use mathlib.Core.Bool.{true≢false}
use unirc_ircd.Prelude.{
  ap, ℕ, ◌≡◌, refl, sym, ◌∙◌, Bool, true, false, not, ◌&&◌, ◌||◌, Option, none, some, List, [], ◌∷◌,
  arith, ◌==◌, ==_iff, if◌then◌else◌, length, if-case, Bool-cases, inl, inr,
}
use unirc_ircd.Chars.{Bytes}
use unirc_ircd.Dlink.Chain.{has}
use unirc_ircd.Modes.Types.{
  MemberFlag, owner, protected, chanop, halfop, voice, deopped, ban_checked, ban_silenced,
  put_member_flag, ChannelMode, Channel, Env,
}
use unirc_ircd.Modes.Masks.{clear_ban_cache}
use unirc_ircd.Modes.Show.{has_text}
use unirc_ircd.Sjoin.Members.{
  Room, Burst, remove_a_mode, remove_our_modes, granted, add_member, take_nick, take_word,
  take_words, nick_words, from_nicks, remove_lists, after_nicks, prefixes, no_flags,
}

abbrev pub is_status : MemberFlag → Bool
is_status owner = true
is_status protected = true
is_status chanop = true
is_status halfop = true
is_status voice = true
is_status _ = false

-- `after` has the modes `now`. A member of `before` is one still, and has the status that it had, or none where `our` is false; a newcomer has a
-- status only where `theirs` is true.
pub record Ruled (now : ChannelMode) (our theirs : Bool) (before after : Channel) : Type 0 where
  pub moded : after.mode ≡ now
  pub stays : (c : ℕ) → has c before.members ≡ true → has c after.members ≡ true
  pub member :
      (c : ℕ) (f : MemberFlag)
      → has c before.members ≡ true
      → is_status f ≡ true
      → after.flags c f ≡ (our && before.flags c f)
  pub newcomer :
      (c : ℕ) (f : MemberFlag)
      → has c before.members ≡ false
      → has c after.members ≡ true
      → is_status f ≡ true
      → after.flags c f ≡ true
      → theirs ≡ true

remove_our_modes-status :
    (ch : Channel) (c : ℕ) (f : MemberFlag)
    → has c ch.members ≡ true
    → is_status f ≡ true
    → (remove_our_modes ch).flags c f ≡ false
unfolding remove_our_modes remove_a_mode
remove_our_modes-status ch c f m s = rw m (cleared f s)
  where
    cleared :
        (f : MemberFlag)
        → is_status f ≡ true
        → put_member_flag voice false
            (put_member_flag halfop false (
              put_member_flag chanop false
                (put_member_flag protected false (put_member_flag owner false (ch.flags c)))))
            f
          ≡ false
    cleared owner s = refl
    cleared protected s = refl
    cleared chanop s = refl
    cleared halfop s = refl
    cleared voice s = refl
    cleared deopped s = absurd (ground (arith, s))
    cleared ban_checked s = absurd (ground (arith, s))
    cleared ban_silenced s = absurd (ground (arith, s))

granted-status :
    (theirs : Bool) (fl : MemberFlag → Bool) (f : MemberFlag)
    → is_status f ≡ true
    → granted theirs fl f ≡ true
    → theirs ≡ true
unfolding granted
granted-status true fl f s h = refl
granted-status false fl owner s h = ground (arith, h)
granted-status false fl protected s h = ground (arith, h)
granted-status false fl chanop s h = ground (arith, h)
granted-status false fl halfop s h = ground (arith, h)
granted-status false fl voice s h = ground (arith, h)
granted-status false fl deopped s h = absurd (ground (arith, s))
granted-status false fl ban_checked s h = absurd (ground (arith, s))
granted-status false fl ban_silenced s h = absurd (ground (arith, s))

-- A newcomer is no old member, and is given what it may have.
add_member-Ruled :
    (now : ChannelMode) (our theirs : Bool) (t : ℕ) (fl : MemberFlag → Bool) (before ch : Channel)
    → has t ch.members ≡ false
    → Ruled now our theirs before ch
    → Ruled now our theirs before (add_member t (granted theirs fl) ch)
unfolding add_member
add_member-Ruled now our theirs t fl before ch n r = elim (Bool-cases (has t before.members)) [
  | inl h ↦ absurd (true≢false (sym (r.stays t h) ∙ n))
  | inr h ↦ record {
    moded = r.moded;
    stays = λ c m. ground (arith, r.stays c m);
    member = λ c f m s. elim (Bool-cases (c == t)) [
      | inl e ↦ absurd (true≢false (sym m ∙ ap (λ x. has x before.members) ((==_iff c t).0 e) ∙ h))
      | inr e ↦ rw e (r.member c f m s)
    ];
    newcomer = λ c f m k s. elim (Bool-cases (c == t)) [
      | inl e ↦ λ g.
          granted-status theirs fl f s
            (sym (ap (λ b. (if b then granted theirs fl else ch.flags c) f) e) ∙ g)
      | inr e ↦ λ g.
          r.newcomer c f m (sym (ap (λ b. b || has c ch.members) e) ∙ k) s
            (sym (ap (λ b. (if b then granted theirs fl else ch.flags c) f) e) ∙ g)
    ];
  }
]

take_nick-Ruled :
    (b : Burst) (now : ChannelMode) (our theirs : Bool) (t : Option ℕ) (fl : MemberFlag → Bool)
    (before ch : Channel)
    → Ruled now our theirs before ch
    → Ruled now our theirs before (take_nick b theirs t fl ch)
unfolding take_nick
take_nick-Ruled b now our theirs none fl before ch r = r
take_nick-Ruled b now our theirs (some t) fl before ch r =
    if-case {A = Channel} (Ruled now our theirs before)
      (not (b.from_there t) || not (b.env.person t).is_client) (λ e. r)
      (λ e.
        if-case {A = Channel} (Ruled now our theirs before) (has t ch.members) (λ h. r)
          (λ h. add_member-Ruled now our theirs t fl before ch h r))

take_words-Ruled :
    (b : Burst) (now : ChannelMode) (our theirs : Bool) (ws : List Bytes) (before ch : Channel)
    → Ruled now our theirs before ch
    → Ruled now our theirs before (take_words b theirs ws ch)
unfolding take_words
take_words-Ruled b now our theirs [] before ch r = r
take_words-Ruled b now our theirs (w ∷ ws) before ch r =
    let (fl, nick) = prefixes w no_flags in
    take_words-Ruled b now our theirs ws before (take_word b theirs w ch)
      (take_nick-Ruled b now our theirs (b.env.find_chasing nick) fl before ch r)

remove_our_modes-members : (ch : Channel) → (remove_our_modes ch).members ≡ ch.members
unfolding remove_our_modes remove_a_mode
remove_our_modes-members ch = refl

remove_our_modes-mode : (ch : Channel) → (remove_our_modes ch).mode ≡ ch.mode
unfolding remove_our_modes remove_a_mode
remove_our_modes-mode ch = refl

pub settled-Ruled :
    (our theirs : Bool) (mode : ChannelMode) (before : Channel)
    → Ruled mode our theirs before (
        if our
        then record before { mode = mode }
        else remove_our_modes (record before { mode = mode }))
settled-Ruled true theirs mode before = record {
  moded = refl;
  stays = λ c m. m;
  member = λ c f m s. refl;
  newcomer = λ c f n m s h. absurd (true≢false (sym m ∙ n));
}
settled-Ruled false theirs mode before =
    let same = remove_our_modes-members (record before { mode = mode }) in
    record {
      moded = remove_our_modes-mode (record before { mode = mode });
      stays = λ c m. ap (has c) same ∙ m;
      member = λ c f m s. remove_our_modes-status (record before { mode = mode }) c f m s;
      newcomer = λ c f n m s h. absurd (true≢false (sym m ∙ ap (has c) same ∙ n));
    }

clear_ban_cache-status :
    (env : Env) (ch : Channel) (c : ℕ) (f : MemberFlag)
    → is_status f ≡ true
    → (clear_ban_cache env ch).flags c f ≡ ch.flags c f
unfolding clear_ban_cache
clear_ban_cache-status env ch c f s =
    if-case {A = MemberFlag → Bool} (λ g. g f ≡ ch.flags c f)
      (has c ch.members && (env.person c).my_connect) (λ e. other f s) (λ e. refl)
  where
    other :
        (f : MemberFlag)
        → is_status f ≡ true
        → put_member_flag ban_silenced false (put_member_flag ban_checked false (ch.flags c)) f
          ≡ ch.flags c f
    other owner s = refl
    other protected s = refl
    other chanop s = refl
    other halfop s = refl
    other voice s = refl
    other deopped s = refl
    other ban_checked s = absurd (ground (arith, s))
    other ban_silenced s = absurd (ground (arith, s))

clear_ban_cache-members : (env : Env) (ch : Channel) → (clear_ban_cache env ch).members ≡ ch.members
unfolding clear_ban_cache
clear_ban_cache-members env ch = refl

clear_ban_cache-mode : (env : Env) (ch : Channel) → (clear_ban_cache env ch).mode ≡ ch.mode
unfolding clear_ban_cache
clear_ban_cache-mode env ch = refl

remove_lists-Ruled :
    (env : Env) (now : ChannelMode) (our theirs : Bool) (before ch : Channel)
    → Ruled now our theirs before ch
    → Ruled now our theirs before (remove_lists env ch)
unfolding remove_lists
remove_lists-Ruled env now our theirs before ch r =
    let bare = record ch { banlist = []; exceptlist = []; invexlist = [] } in
    let same = clear_ban_cache-members env bare in
    let flag = clear_ban_cache-status env bare in
    record {
      moded = clear_ban_cache-mode env bare ∙ r.moded;
      stays = λ c m. ap (has c) same ∙ r.stays c m;
      member = λ c f m s. flag c f s ∙ r.member c f m s;
      newcomer =
          λ c f n m s h. r.newcomer c f n (sym (ap (has c) same) ∙ m) s (sym (flag c f s) ∙ h);
    }

-- What becomes of a channel that there is.
abbrev pub Kept : ℕ → ChannelMode → Bool → Bool → Room → Option Room → Type 0
Kept ts now our theirs old none = ⊥
Kept ts now our theirs old (some after) = (after.ts ≡ ts) × Ruled now our theirs old.chan after.chan

after_nicks-Kept :
    (b : Burst) (now : ChannelMode) (our theirs : Bool) (nicks : Bytes) (old r : Room)
    → Ruled now our theirs old.chan r.chan
    → Kept r.ts now our theirs old (after_nicks b false our nicks r)
after_nicks-Kept b now our theirs nicks old r h =
    if-case {A = Option Room} (Kept r.ts now our theirs old) (length r.chan.members == 0 && false)
      (λ e. absurd (ground (arith, e)))
      (λ e.
        if-case {A = Option Room} (Kept r.ts now our theirs old) (not (has_text nicks))
          (λ u. (refl, h))
          (λ u.
            if-case {A = Option Room} (Kept r.ts now our theirs old) (b.has_id && not our)
              (λ v. (refl, remove_lists-Ruled b.env now our theirs old.chan r.chan h))
              (λ v. (refl, h))))

pub from_nicks-Kept :
    (b : Burst) (long : Bool) (now : ChannelMode) (our theirs : Bool) (nicks : Bytes) (old r : Room)
    → Ruled now our theirs old.chan r.chan
    → Kept r.ts now our theirs old (from_nicks b long false our theirs nicks r)
unfolding from_nicks
from_nicks-Kept b true now our theirs nicks old r h = (refl, h)
from_nicks-Kept b false now our theirs nicks old r h =
    after_nicks-Kept b now our theirs nicks old
      (record r { chan = take_words b theirs (nick_words nicks) r.chan })
      (take_words-Ruled b now our theirs (nick_words nicks) old.chan r.chan h)
