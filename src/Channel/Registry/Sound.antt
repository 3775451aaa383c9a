-- ===== src/Channel/Registry/Sound.antt =====
-- What holds of the channels of src/channel.c and of their members, and that each operation keeps it.
use mathlib.Core.Path.{subst}
use unirc_ircd.Prelude.{
  ap, ℕ, ◌≤◌, List, remove_first, ◌≡◌, refl, ◌∙◌, Bool, true, false, Option, none, some, [], arith,
  ◌==◌, if◌then◌else◌, if-case, count, take, count-remove_first, Bool-cases, inl, inr,
}
use unirc_ircd.Chars.{Bytes}
use unirc_ircd.Dlink.{set_at}
use unirc_ircd.Hash.Spec.{Represents, added, deleted, hash_add-Represents, hash_del-Represents}
use unirc_ircd.Channel.Registry.{
  Registry, channellen, invites_of, with_invites, invite, make_channel, destroy_channel,
  add_lazylinkchannel, set_lists, add_user_to_channel, take_member,
}
use unirc_ircd.Channel.Types.{Ban}
use unirc_ircd.Channel.Invites.{Invites, add_invite}
use unirc_ircd.Channel.Registry.Uninvite.{
  Guests, Kept, invite-Guests, set_at-count, uninvite-Guests, uninvite-gone, uninvite-rest,
}
use unirc_ircd.Channel.Registry.Placed.{Placed, add-Placed, del-Placed, empty-Placed}

-- A channel without bans, exceptions and exceptions from +i.
abbrev pub Unlisted : ℕ → Registry → Type 0
Unlisted c s = (s.banlist c ≡ []) × (s.exceptlist c ≡ []) × (s.invexlist c ≡ [])

emptied : (lists : ℕ → List Ban) (ch c : ℕ) → lists c ≡ [] → set_at lists ch [] c ≡ []
emptied lists ch c e = if-case {A = List Ban} (λ l. l ≡ []) (c == ch) (λ h. refl) (λ h. e)

-- `live` are the memberships in use, `opened` the channels. A membership stands once in the list of its channel, once
-- in that of its client, and in no other list; its channel is open; a channel that is open stands once in the
-- list of all and once in the hash table, and no other does; the invitations are those of `Guests`.
pub record Sound (key : ℕ) (hub : Bool) (live opened : ℕ → Bool) (s : Registry) : Type 0 where
  pub members : Placed live s.chptr s.members
  pub channel : Placed live s.client_p s.channel
  pub homes : (m : ℕ) → live m ≡ true → opened (s.chptr m) ≡ true
  pub guests : Guests opened s.invited s.invites
  pub global : (c : ℕ) → count c s.global_channel_list ≡ (if opened c then 1 else 0)
  pub table : Represents key s.chname s.channel_table opened
  pub lazy : hub ≡ true → (c : ℕ) → count c s.lazylink_channels ≤ (if opened c then 1 else 0)
  pub lists : (c : ℕ) → opened c ≡ false → Unlisted c s

module _ (key : ℕ) (hub : Bool) (live opened : ℕ → Bool) (s : Registry)
    (sound : Sound key hub live opened s) where
  -- A channel that is not open has no members and no invitations.
  closed_members : (c : ℕ) → opened c ≡ false → (m : ℕ) → count m (s.members c) ≡ 0
  closed_members c o m = sound.members m c ∙ elim (Bool-cases (live m)) [
    | inr e ↦ rw e refl
    | inl e ↦ elim (Bool-cases (s.chptr m == c)) [
      | inr d ↦ ground (arith, d)
      | inl d ↦
          let k : s.chptr m ≡ c = ground (arith, d) in absurd (cc (o, sound.homes m e, ap opened k))
    ]
  ]

  pub add_user-Sound :
      (m ch who flags : ℕ)
      → live m ≡ false
      → opened ch ≡ true
      → Sound key hub (added m live) opened (add_user_to_channel m ch who flags s)
  unfolding add_user_to_channel
  add_user-Sound m ch who flags fresh o = record {
    members = add-Placed live s.chptr s.members m ch fresh sound.members;
    channel = add-Placed live s.client_p s.channel m who fresh sound.channel;
    homes = λ m1 h.
        if-case {A = ℕ} (λ c. opened c ≡ true) (m1 == m) (λ e. o)
          (λ e. sound.homes m1 (ground (arith, e, h)));
    guests = sound.guests;
    global = sound.global;
    table = sound.table;
    lazy = sound.lazy;
    lists = sound.lists;
  }

  pub take_member-Sound : (m : ℕ) → Sound key hub (deleted m live) opened (take_member m s)
  unfolding take_member
  take_member-Sound m = record {
    members = del-Placed live s.chptr s.members m sound.members;
    channel = del-Placed live s.client_p s.channel m sound.channel;
    homes = λ m1 h. sound.homes m1 (ground (arith, h));
    guests = sound.guests;
    global = sound.global;
    table = sound.table;
    lazy = sound.lazy;
    lists = sound.lists;
  }

  renamed :
      (ch : ℕ) (name : Bytes)
      → opened ch ≡ false
      → Represents key (set_at s.chname ch name) s.channel_table opened
  renamed ch name o a h = elim (Bool-cases (a == ch)) [
    | inl e ↦ let k : a ≡ ch = ground (arith, e) in rw k (ground (arith, sound.table ch h, o))
    | inr e ↦ rw e (sound.table a h)
  ]

  pub make_channel-Sound :
      (ch : ℕ) (name : Bytes)
      → opened ch ≡ false
      → Sound key hub live (added ch opened) (make_channel key ch name s)
  unfolding make_channel
  make_channel-Sound ch name o = record {
    members = empty-Placed live s.chptr s.members ch (closed_members ch o) sound.members;
    channel = sound.channel;
    homes = λ m h. ground (arith, sound.homes m h);
    guests = record {
      agree = λ w c. elim (Bool-cases (c == ch)) [
        | inl e ↦
            let k : c ≡ ch = ground (arith, e) in
            rw k (ground (arith, set_at-count s.invites ch ch w [], sound.guests.closed w ch o))
        | inr e ↦ ground (arith, e, set_at-count s.invites ch c w [], sound.guests.agree w c)
      ];
      once = sound.guests.once;
      closed = λ w c h. sound.guests.closed w c (ground (arith, h));
    };
    global = λ c. elim (Bool-cases (c == ch)) [
      | inl e ↦ let k : c ≡ ch = ground (arith, e) in rw k (ground (arith, sound.global ch, o))
      | inr e ↦ ground (arith, e, sound.global c)
    ];
    table =
        hash_add-Represents key (set_at s.chname ch (take channellen name)) s.channel_table opened
          (renamed ch (take channellen name) o) ch o;
    lazy = λ h c. elim (Bool-cases (c == ch)) [
      | inl e ↦ let k : c ≡ ch = ground (arith, e) in rw k (ground (arith, sound.lazy h ch, o))
      | inr e ↦ ground (arith, e, sound.lazy h c)
    ];
    lists = λ c h.
        let was : Unlisted c s = sound.lists c (ground (arith, h)) in
        (
          emptied s.banlist ch c was.0,
          emptied s.exceptlist ch c was.1,
          emptied s.invexlist ch c was.2,
        );
  }

  pub invite-Sound :
      (max_chans ch who : ℕ) (s1 : Registry)
      → opened ch ≡ true
      → invite max_chans ch who s ≡ some s1
      → Sound key hub live opened s1
  unfolding invite
  invite-Sound max_chans ch who s1 o =
      kept (add_invite max_chans ch who (invites_of who s))
        (invite-Guests opened max_chans ch who s sound.guests o)
    where
      kept :
          (r : Option Invites)
          → Kept opened s.invited who r
          → (elim r [ none ↦ none | some i ↦ some (with_invites who s i) ]) ≡ some s1
          → Sound key hub live opened s1
      kept none k e = absurd (cc e)
      kept (some i) k e =
          let same : with_invites who s i ≡ s1 = cc e in
          subst (Sound key hub live opened) same (record {
            members = sound.members;
            channel = sound.channel;
            homes = sound.homes;
            guests = k;
            global = sound.global;
            table = sound.table;
            lazy = sound.lazy;
            lists = sound.lists;
          })

  -- A channel that nobody is on is destroyed.
  pub destroy_channel-Sound :
      (ch : ℕ)
      → ((m : ℕ) → count m (s.members ch) ≡ 0)
      → Sound key hub live (deleted ch opened) (destroy_channel key hub ch s)
  unfolding destroy_channel
  destroy_channel-Sound ch none_there =
      let freed = uninvite-Guests opened ch (s.invites ch) s sound.guests in
      rw (uninvite-rest ch (s.invites ch) s) (record {
        members = sound.members;
        channel = sound.channel;
        homes = λ m h.
            if-case {A = Bool} (λ b. b ≡ true) (s.chptr m == ch)
              (λ e. absurd (ground (arith, sound.members m ch, none_there m, h, e)))
              (λ e. sound.homes m h);
        guests = record {
          agree = freed.agree;
          once = freed.once;
          closed = λ w c h. elim (Bool-cases (c == ch)) [
            | inl e ↦
                let k : c ≡ ch = ground (arith, e) in
                rw k (ground (arith, freed.agree w ch, uninvite-gone ch (s.invites ch) w s))
            | inr e ↦ freed.closed w c (ground (arith, e, h))
          ];
        };
        global = λ c.
            ground (
              arith,
              sound.global c,
              sound.global ch,
              count-remove_first ch c s.global_channel_list,
            );
        table = hash_del-Represents key s.chname s.channel_table opened sound.table ch;
        lazy = unlinked;
        lists = λ c h. elim (Bool-cases (c == ch)) [
          | inl e ↦ rw e (refl, refl, refl)
          | inr e ↦ rw e (sound.lists c (ground (arith, e, h)))
        ];
      })
    where
      left : Bool → List ℕ
      left h = if h then remove_first ch s.lazylink_channels else s.lazylink_channels

      unlinked : hub ≡ true → (c : ℕ) → count c (left hub) ≤ (if deleted ch opened c then 1 else 0)
      unlinked h c = elim (Bool-cases (c == ch)) [
        | inl e ↦
            let k : c ≡ ch = ground (arith, e) in
            rw (h, k)
              (ground (arith, sound.lazy h ch, count-remove_first ch ch s.lazylink_channels))
        | inr e ↦
            rw h (ground (arith, e, sound.lazy h c, count-remove_first ch c s.lazylink_channels))
      ]

  -- A channel is noted for a lazy link for the first time, and the lists of an open channel change.
  pub add_lazylinkchannel-Sound :
      (ch : ℕ)
      → opened ch ≡ true
      → count ch s.lazylink_channels ≡ 0
      → Sound key hub live opened (add_lazylinkchannel ch s)
  unfolding add_lazylinkchannel
  add_lazylinkchannel-Sound ch o first = record {
    members = sound.members;
    channel = sound.channel;
    homes = sound.homes;
    guests = sound.guests;
    global = sound.global;
    table = sound.table;
    lazy = λ h c. elim (Bool-cases (c == ch)) [
      | inl e ↦ let k : c ≡ ch = ground (arith, e) in rw k (ground (arith, first, o))
      | inr e ↦ ground (arith, e, sound.lazy h c)
    ];
    lists = sound.lists;
  }

  pub set_lists-Sound :
      (ch : ℕ) (bans excepts invexes : List Ban)
      → opened ch ≡ true
      → Sound key hub live opened (set_lists ch bans excepts invexes s)
  set_lists-Sound ch bans excepts invexes o = record {
    members = sound.members;
    channel = sound.channel;
    homes = sound.homes;
    guests = sound.guests;
    global = sound.global;
    table = sound.table;
    lazy = sound.lazy;
    lists = λ c h. elim (Bool-cases (c == ch)) [
      | inl e ↦ let k : c ≡ ch = ground (arith, e) in absurd (cc (ap opened k, o, h))
      | inr e ↦ rw e (sound.lists c h)
    ];
  }
