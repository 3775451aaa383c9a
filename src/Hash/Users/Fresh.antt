-- ===== src/Hash/Users/Fresh.antt =====
-- A new block of `find_or_add_userhost` of src/hash.c counts nobody.
use mathlib.Core.Path.{subst}
use unirc_ircd.Prelude.{
  ap, ℕ, ◌≡◌, ◌≤◌, refl, sym, ◌∙◌, Bool, true, false, Option, none, some, List, [], map, arith,
  ◌==◌, ==_refl, if-case, Bool-cases, inl, inr, length,
}
use unirc_ircd.Chars.{Bytes, to_upper}
use unirc_ircd.Match.Case.{NoNul}
use unirc_ircd.Dlink.{set_at}
use unirc_ircd.Dbuf.Contents.{take_all}
use unirc_ircd.Hash.{names_equal, hash_add}
use unirc_ircd.Hash.Names.{names_equal_iff}
use unirc_ircd.Hash.Spec.{Represents, added, FoundBy, hash_add-Represents}
use unirc_ircd.Hash.Users.{
  NameHost, UserHosts, no_counts, counts_of, find_userhost, counts_at, new_userhost, hostlen,
}
use unirc_ircd.Hash.Users.Names.{or_none, names_in, Different}
use unirc_ircd.Hash.Users.Hosts.{Sound, counts, counts_here, find_userhost-FoundBy}
use unirc_ircd.Hash.Users.Blocks.{unlike}

-- The new block of a host that fits.
abbrev with_block : ℕ → ℕ → Bytes → UserHosts → UserHosts
with_block key fresh host s =
    let hosts = set_at s.host fresh host in
    record {
      table = hash_add key hosts fresh s.table;
      host = hosts;
      names = set_at s.names fresh [];
    }

module _ (key : ℕ) (objects : ℕ → Bool) (s : UserHosts) (sound : Sound key objects s) (fresh : ℕ)
    (host : Bytes) (unused : objects fresh ≡ false) (z : NoNul host)
    (missing : FoundBy key s.host host objects none) where
  abbrev hosts : ℕ → Bytes
  hosts = set_at s.host fresh host

  new_host : (c : ℕ) → (c == fresh) ≡ true → map to_upper (hosts c) ≡ map to_upper host
  new_host c k = rw k refl

  old_host : (c : ℕ) → (c == fresh) ≡ false → map to_upper (hosts c) ≡ map to_upper (s.host c)
  old_host c k = rw k refl

  renamed : Represents key hosts s.table objects
  renamed a h = elim (Bool-cases (a == fresh)) [
    | inl e ↦
        let k : a ≡ fresh = ground (arith, e) in rw k (ground (arith, sound.table fresh h, unused))
    | inr e ↦ rw e (sound.table a h)
  ]

  single :
      (a b : ℕ)
      → added fresh objects a ≡ true
      → added fresh objects b ≡ true
      → map to_upper (hosts a) ≡ map to_upper (hosts b)
      → a ≡ b
  single a b oa ob e = elim (Bool-cases (a == fresh)) [
    | inl j ↦ elim (Bool-cases (b == fresh)) [
      | inl k ↦ ground (arith, j, k)
      | inr k ↦ absurd (missing b (ground (arith, ob, k)) (sym (new_host a j) ∙ e ∙ old_host b k))
    ]
    | inr j ↦ elim (Bool-cases (b == fresh)) [
      | inl k ↦
          absurd (missing a (ground (arith, oa, j)) (sym (new_host b k) ∙ sym e ∙ old_host a j))
      | inr k ↦ sound.single a b (ground (arith, oa, j)) (ground (arith, ob, k)) (
          (names_equal_iff (s.host a) (s.host b) (sound.named a) (sound.named b)).1
            (sym (old_host a j) ∙ e ∙ old_host b k))
    ]
  ]

  named : (a : ℕ) → NoNul (hosts a)
  named a = if-case {A = Bytes} NoNul (a == fresh) (λ e. z) (λ e. sound.named a)

  with_block-Sound : Sound key (added fresh objects) (with_block key fresh host s)
  with_block-Sound = record {
    table = hash_add-Represents key hosts s.table objects renamed fresh unused;
    named = named;
    single = λ a b oa ob e.
        single a b oa ob ((names_equal_iff (hosts a) (hosts b) (named a) (named b)).0 e);
    names = λ a.
        if-case {A = List NameHost} (λ l. Different (names_in l)) (a == fresh) (λ e. tt)
          (λ e. sound.names a);
  }

  with_block-counts :
      (u h : Bytes) → NoNul h → counts key u h (with_block key fresh host s) ≡ counts key u h s
  unfolding counts_of
  with_block-counts u h zh =
      by_found (find_userhost key h s).0 (find_userhost-FoundBy key objects s sound h zh)
    where
      new :
          (r : Option ℕ)
          → FoundBy key hosts h (added fresh objects) r
          → counts key u h (with_block key fresh host s)
            ≡ or_none (counts_at u r (set_at s.names fresh []))
      new r f =
          counts_here key (added fresh objects) (with_block key fresh host s) with_block-Sound u h r
            zh f

      by_found :
          (r : Option ℕ)
          → FoundBy key s.host h objects r
          → counts key u h (with_block key fresh host s) ≡ counts key u h s
      by_found none found = elim (Bool-cases (names_equal host h)) [
        | inl e ↦
            new (some fresh) (here e)
            ∙ if-case {A = List NameHost} (λ l. or_none (counts_of u l) ≡ no_counts)
                (fresh == fresh) (λ o. refl) (λ o. absurd (ground (arith, o)))
            ∙ sym (counts_here key objects s sound u h none zh found)
        | inr e ↦ new none (nowhere e) ∙ sym (counts_here key objects s sound u h none zh found)
      ]
        where
          here : names_equal host h ≡ true → FoundBy key hosts h (added fresh objects) (some fresh)
          here e =
              let same : (fresh == fresh) ≡ true = ==_refl fresh in
              (rw same refl, sym ((names_equal_iff host h z zh).0 e) ∙ sym (new_host fresh same))

          nowhere : names_equal host h ≡ false → FoundBy key hosts h (added fresh objects) none
          nowhere e a o k = elim (Bool-cases (a == fresh)) [
            | inl j ↦ unlike host h z zh e (sym (new_host a j) ∙ sym k)
            | inr j ↦ found a (ground (arith, o, j)) (k ∙ old_host a j)
          ]
      by_found (some b) found = elim (Bool-cases (b == fresh)) [
        | inl e ↦
            let bf : b ≡ fresh = ground (arith, e) in absurd (cc (unused, found.0, ap objects bf))
        | inr e ↦
            new (some b) (ground (arith, e, found.0), found.1 ∙ sym (old_host b e))
            ∙ if-case {A = List NameHost}
                (λ l. or_none (counts_of u l) ≡ or_none (counts_of u (s.names b))) (b == fresh)
                (λ o. absurd (ground (arith, e, o))) (λ o. refl)
            ∙ sym (counts_here key objects s sound u h (some b) zh found)
      ]

-- A host that fits is copied whole.
module _ (key : ℕ) (objects : ℕ → Bool) (s : UserHosts) (sound : Sound key objects s) (fresh : ℕ)
    (host : Bytes) (unused : objects fresh ≡ false) (z : NoNul host) (l : length host ≤ hostlen)
    (missing : FoundBy key s.host host objects none) where
  whole : with_block key fresh host s ≡ new_userhost key fresh host s
  whole = ap (λ (n : Bytes). with_block key fresh n s) (sym (take_all hostlen host l))

  pub new_userhost-Sound : Sound key (added fresh objects) (new_userhost key fresh host s)
  new_userhost-Sound =
      subst (Sound key (added fresh objects)) whole
        (with_block-Sound key objects s sound fresh host unused z missing)

  pub new_userhost-counts :
      (u h : Bytes) → NoNul h → counts key u h (new_userhost key fresh host s) ≡ counts key u h s
  new_userhost-counts u h zh =
      subst (λ t. counts key u h t ≡ counts key u h s) whole
        (with_block-counts key objects s sound fresh host unused z missing u h zh)

  pub new_userhost-FoundBy :
      FoundBy key (new_userhost key fresh host s).host host (added fresh objects) (some fresh)
  new_userhost-FoundBy =
      subst (λ t. FoundBy key t.host host (added fresh objects) (some fresh)) whole
        (rw (==_refl fresh) (refl, refl))
