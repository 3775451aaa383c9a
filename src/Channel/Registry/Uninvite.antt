-- ===== src/Channel/Registry/Uninvite.antt =====
-- The invitations in src/channel.c, as a channel is destroyed and as clients are invited.
use unirc_ircd.Prelude.{
  ap, ℕ, suc, ◌-◌, ◌≤◌, ◌≡◌, refl, Bool, true, false, Option, none, some, List, [], ◌∷◌, arith,
  ◌==◌, if◌then◌else◌, if-case, length, count, remove_first, count-remove_first, Bool-cases, inl,
  inr, leb,
}
use unirc_ircd.Dlink.{set_at}
use unirc_ircd.Channel.Invites.{Invites, del_invite, put_invite, add_invite, tail_data}
use unirc_ircd.Channel.Registry.{Registry, invites_of, with_invites, uninvite}

-- Both kinds of lists agree, no invitation stands twice, and none is to a channel that is not open.
pub record Guests (opened : ℕ → Bool) (invited invites : ℕ → List ℕ) : Type 0 where
  pub agree : (w c : ℕ) → count w (invites c) ≡ count c (invited w)
  pub once : (w c : ℕ) → count c (invited w) ≤ 1
  pub closed : (w c : ℕ) → opened c ≡ false → count c (invited w) ≡ 0

-- The lists of all, where those of one client are `i`.
abbrev pub With : (ℕ → Bool) → (ℕ → List ℕ) → ℕ → Invites → Type 0
With opened invited who i = Guests opened (set_at invited who i.invited) i.invites

count-if :
    (b : Bool) (c : ℕ) (xs ys : List ℕ)
    → count c (if b then xs else ys) ≡ (if b then count c xs else count c ys)
count-if true c xs ys = refl
count-if false c xs ys = refl

pub set_at-count :
    (f : ℕ → List ℕ) (who w c : ℕ) (l : List ℕ)
    → count c (set_at f who l w) ≡ (if w == who then count c l else count c (f w))
set_at-count f who w c l = count-if (w == who) c l (f w)

start-With :
    (opened : ℕ → Bool) (who : ℕ) (s : Registry)
    → Guests opened s.invited s.invites
    → With opened s.invited who (invites_of who s)
start-With opened who s g = record {
  agree = λ w c. ground (arith, same w c, g.agree w c);
  once = λ w c. ground (arith, same w c, g.once w c);
  closed = λ w c e. ground (arith, same w c, g.closed w c e);
}
  where
    same : (w c : ℕ) → count c (set_at s.invited who (s.invited who) w) ≡ count c (s.invited w)
    same w c = elim (Bool-cases (w == who)) [
      | inl e ↦
          let k : w ≡ who = ground (arith, e) in
          rw k (ground (arith, set_at-count s.invited who who c (s.invited who)))
      | inr e ↦ ground (arith, e, set_at-count s.invited who w c (s.invited who))
    ]

del_invite-invites :
    (ch who w c : ℕ) (i : Invites)
    → count w ((del_invite ch who i).invites c) ≡ (
        if c == ch
        then (if who == w then count w (i.invites c) - 1 else count w (i.invites c))
        else count w (i.invites c))
unfolding del_invite
del_invite-invites ch who w c i = ground (arith, count-remove_first who w (i.invites c))

del_invite-With :
    (opened : ℕ → Bool) (f : ℕ → List ℕ) (ch who : ℕ) (i : Invites)
    → With opened f who i
    → With opened f who (del_invite ch who i)
unfolding del_invite
del_invite-With opened f ch who i g = record {
  agree = λ w c.
      ground (arith, fewer w c, was w c, g.agree w c, count-remove_first who w (i.invites c));
  once = λ w c. ground (arith, fewer w c, was w c, g.once w c);
  closed = λ w c e. ground (arith, fewer w c, was w c, g.closed w c e);
}
  where
    was :
        (w c : ℕ)
        → count c (set_at f who i.invited w)
          ≡ (if w == who then count c i.invited else count c (f w))
    was w c = set_at-count f who w c i.invited

    fewer :
        (w c : ℕ)
        → count c (set_at f who (remove_first ch i.invited) w) ≡ (
            if w == who
            then (if ch == c then count c i.invited - 1 else count c i.invited)
            else count c (f w))
    fewer w c = ground (
      arith,
      set_at-count f who w c (remove_first ch i.invited),
      count-remove_first ch c i.invited,
    )

put_invite-With :
    (opened : ℕ → Bool) (f : ℕ → List ℕ) (ch who : ℕ) (i : Invites)
    → With opened f who i
    → count ch i.invited ≡ 0
    → opened ch ≡ true
    → With opened f who (put_invite ch who i)
unfolding put_invite
put_invite-With opened f ch who i g none_yet o = record {
  agree = λ w c. ground (arith, more w c, was w c, g.agree w c);
  once = λ w c. elim (Bool-cases (ch == c)) [
    | inl e ↦
        let k : c ≡ ch = ground (arith, e) in
        rw k (ground (arith, more w ch, was w ch, g.once w ch, none_yet))
    | inr e ↦ ground (arith, e, more w c, was w c, g.once w c)
  ];
  closed = λ w c e. elim (Bool-cases (ch == c)) [
    | inl k ↦ let k' : c ≡ ch = ground (arith, k) in absurd (cc (e, o, ap opened k'))
    | inr k ↦ ground (arith, k, more w c, was w c, g.closed w c e)
  ];
}
  where
    was :
        (w c : ℕ)
        → count c (set_at f who i.invited w)
          ≡ (if w == who then count c i.invited else count c (f w))
    was w c = set_at-count f who w c i.invited

    more :
        (w c : ℕ)
        → count c (set_at f who (ch ∷ i.invited) w) ≡ (
            if w == who
            then (if ch == c then suc (count c i.invited) else count c i.invited)
            else count c (f w))
    more w c = set_at-count f who w c (ch ∷ i.invited)

gone_once :
    (opened : ℕ → Bool) (f : ℕ → List ℕ) (ch who : ℕ) (i : Invites)
    → With opened f who i
    → count ch (del_invite ch who i).invited ≡ 0
unfolding del_invite
gone_once opened f ch who i g =
    ground (
      arith,
      count-remove_first ch ch i.invited,
      g.once who ch,
      set_at-count f who who ch i.invited,
    )

still_none :
    (ch last who : ℕ) (i : Invites)
    → count ch i.invited ≡ 0
    → count ch (del_invite last who i).invited ≡ 0
unfolding del_invite
still_none ch last who i h = ground (arith, count-remove_first last ch i.invited)

abbrev pub Kept : (ℕ → Bool) → (ℕ → List ℕ) → ℕ → Option Invites → Type 0
Kept opened f who none = Unit {0}
Kept opened f who (some i) = With opened f who i

add_invite-Kept :
    (opened : ℕ → Bool) (f : ℕ → List ℕ) (max_chans ch who : ℕ) (i : Invites)
    → With opened f who i
    → opened ch ≡ true
    → Kept opened f who (add_invite max_chans ch who i)
unfolding add_invite
add_invite-Kept opened f max_chans ch who i g o =
    let none_yet = gone_once opened f ch who i g in
    let g1 = del_invite-With opened f ch who i g in
    if-case (Kept opened f who) (leb max_chans (length (del_invite ch who i).invited))
      (λ e. full (tail_data (del_invite ch who i).invited) g1 none_yet)
      (λ e. put_invite-With opened f ch who (del_invite ch who i) g1 none_yet o)
  where
    full :
        (last : Option ℕ)
        → With opened f who (del_invite ch who i)
        → count ch (del_invite ch who i).invited ≡ 0
        → Kept opened f who (elim last [
          | none ↦ none
          | some d ↦ some (put_invite ch who (del_invite d who (del_invite ch who i)))
        ])
    full none g1 none_yet = tt
    full (some d) g1 none_yet =
        put_invite-With opened f ch who (del_invite d who (del_invite ch who i))
          (del_invite-With opened f d who (del_invite ch who i) g1)
          (still_none ch d who (del_invite ch who i) none_yet) o

-- The loop of `destroy_channel`.
pub uninvite-Guests :
    (opened : ℕ → Bool) (ch : ℕ) (ws : List ℕ) (s : Registry)
    → Guests opened s.invited s.invites
    → Guests opened (uninvite ch ws s).invited (uninvite ch ws s).invites
unfolding uninvite
uninvite-Guests opened ch [] s g = g
uninvite-Guests opened ch (who ∷ ws) s g =
    uninvite-Guests opened ch ws (with_invites who s (del_invite ch who (invites_of who s)))
      (del_invite-With opened s.invited ch who (invites_of who s) (start-With opened who s g))

pub uninvite-gone :
    (ch : ℕ) (ws : List ℕ) (w : ℕ) (s : Registry)
    → count w ((uninvite ch ws s).invites ch) ≡ count w (s.invites ch) - count w ws
unfolding uninvite
uninvite-gone ch [] w s = omega arith
uninvite-gone ch (who ∷ ws) w s = ground (
  arith,
  uninvite-gone ch ws w (with_invites who s (del_invite ch who (invites_of who s))),
  del_invite-invites ch who w ch (invites_of who s),
)

-- Nothing else of the state changes.
pub uninvite-rest :
    (ch : ℕ) (ws : List ℕ) (s : Registry)
    → uninvite ch ws s
      ≡ (record s { invited = (uninvite ch ws s).invited; invites = (uninvite ch ws s).invites })
unfolding uninvite
uninvite-rest ch [] s = refl
uninvite-rest ch (who ∷ ws) s =
    uninvite-rest ch ws (with_invites who s (del_invite ch who (invites_of who s)))

pub invite-Guests :
    (opened : ℕ → Bool) (max_chans ch who : ℕ) (s : Registry)
    → Guests opened s.invited s.invites
    → opened ch ≡ true
    → Kept opened s.invited who (add_invite max_chans ch who (invites_of who s))
invite-Guests opened max_chans ch who s g o =
    add_invite-Kept opened s.invited max_chans ch who (invites_of who s) (start-With opened who s g)
      o
