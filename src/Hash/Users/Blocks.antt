-- ===== src/Hash/Users/Blocks.antt =====
-- What a change of one host's names, a new host and the removal of a host do to the counts of src/hash.c.
use mathlib.Core.Bool.{true≢false}
use unirc_ircd.Prelude.{
  ap, ℕ, ◌≡◌, refl, sym, ◌∙◌, Bool, true, false, ◌&&◌, Option, none, some, List, [], map, arith,
  ◌==◌, if-case, Bool-cases, inl, inr,
}
use unirc_ircd.Chars.{Bytes, to_upper}
use unirc_ircd.Match.Case.{NoNul}
use unirc_ircd.Hash.{names_equal, hash_del}
use unirc_ircd.Hash.Names.{names_equal_iff}
use unirc_ircd.Hash.Spec.{deleted, FoundBy, hash_del-Represents}
use unirc_ircd.Hash.Users.{
  Counts, NameHost, UserHosts, counts_of, on_names, find_userhost, counts_at,
}
use unirc_ircd.Hash.Users.Names.{or_none, names_in, Different}
use unirc_ircd.Hash.Users.Edits.{changed}
use unirc_ircd.Hash.Users.Hosts.{Sound, counts, counts_here, find_userhost-FoundBy, on_names-Sound}

-- Equal in any case.
abbrev pub Alike : Bytes → Bytes → Type 0
Alike g h = map to_upper g ≡ map to_upper h

pub unlike : (g h : Bytes) → NoNul g → NoNul h → names_equal g h ≡ false → ¬ (Alike g h)
unlike g h zg zh e k = true≢false (sym ((names_equal_iff g h zg zh).1 k) ∙ e)

module _ (key : ℕ) (objects : ℕ → Bool) (s : UserHosts) (sound : Sound key objects s)
    (host u h : Bytes) (zhost : NoNul host) (zh : NoNul h) where
  -- A change of the names of one host.
  pub on_names-counts :
      (f : List NameHost → List NameHost) (F : Counts → Counts) (user : Bytes) (a : ℕ)
      → FoundBy key s.host host objects (some a)
      → Different (names_in (f (s.names a)))
      → or_none (counts_of u (f (s.names a)))
        ≡ changed F (names_equal user u) (or_none (counts_of u (s.names a)))
      → counts key u h (on_names f a s)
        ≡ changed F (names_equal host h && names_equal user u) (counts key u h s)
  on_names-counts f F user a at d e = elim (Bool-cases (names_equal host h)) [
    | inl k ↦
        let found : FoundBy key s.host h objects (some a) =
          (at.0, sym ((names_equal_iff host h zhost zh).0 k) ∙ at.1) in
        rw k (
          counts_here key objects (on_names f a s) after u h (some a) zh found
          ∙ if-case {A = List NameHost}
              (λ l.
                or_none (counts_of u l)
                ≡ changed F (names_equal user u) (or_none (counts_of u (s.names a))))
              (a == a) (λ o. e) (λ o. absurd (ground (arith, o)))
          ∙ ap (changed F (names_equal user u))
              (sym (counts_here key objects s sound u h (some a) zh found)))
    | inr k ↦
        rw k
          (elsewhere k (find_userhost key h s).0 (find_userhost-FoundBy key objects s sound h zh))
  ]
    where
      after : Sound key objects (on_names f a s)
      after = on_names-Sound key objects s f a sound d

      elsewhere :
          names_equal host h ≡ false
          → (r : Option ℕ) → FoundBy key s.host h objects r
          → counts key u h (on_names f a s) ≡ counts key u h s
      elsewhere k r found =
          counts_here key objects (on_names f a s) after u h r zh found
          ∙ ap or_none (same r found)
          ∙ sym (counts_here key objects s sound u h r zh found)
        where
          same :
              (r : Option ℕ)
              → FoundBy key s.host h objects r
              → counts_at u r (on_names f a s).names ≡ counts_at u r s.names
          same none found = refl
          same (some b) found =
              if-case {A = List NameHost} (λ l. counts_of u l ≡ counts_of u (s.names b)) (b == a)
                (λ o.
                  let ba : b ≡ a = ground (arith, o) in
                  absurd (
                    unlike host h zhost zh k
                      (at.1 ∙ ap (λ c. map to_upper (s.host c)) (sym ba) ∙ sym found.1)))
                (λ o. refl)

-- The last name of a host is gone.
module _ (key : ℕ) (objects : ℕ → Bool) (s : UserHosts) (sound : Sound key objects s) (a : ℕ) where
  abbrev without : UserHosts
  without = record s { table = hash_del key s.host a s.table }

  pub without-Sound : Sound key (deleted a objects) without
  without-Sound = record {
    table = hash_del-Represents key s.host s.table objects sound.table a;
    named = sound.named;
    single = λ b c ob oc. sound.single b c (still b ob) (still c oc);
    names = sound.names;
  }
    where
      still : (b : ℕ) → deleted a objects b ≡ true → objects b ≡ true
      still b o = ground (arith, o)

  pub without-counts :
      (u h : Bytes)
      → NoNul h
      → objects a ≡ true
      → s.names a ≡ []
      → counts key u h without ≡ counts key u h s
  unfolding counts_of
  without-counts u h zh oa e =
      by_found (find_userhost key h s).0 (find_userhost-FoundBy key objects s sound h zh)
    where
      by_found :
          (r : Option ℕ)
          → FoundBy key s.host h objects r
          → counts key u h without ≡ counts key u h s
      by_found none found =
          counts_here key (deleted a objects) without without-Sound u h none zh
            (λ b o. found b (ground (arith, o)))
          ∙ sym (counts_here key objects s sound u h none zh found)
      by_found (some b) found = elim (Bool-cases (b == a)) [
        | inr o ↦
            counts_here key (deleted a objects) without without-Sound u h (some b) zh
              (ground (arith, o, found.0), found.1)
            ∙ sym (counts_here key objects s sound u h (some b) zh found)
        | inl o ↦
            let ba : b ≡ a = ground (arith, o) in
            counts_here key (deleted a objects) without without-Sound u h none zh (gone ba)
            ∙ ap or_none (sym (nothing ba))
            ∙ sym (counts_here key objects s sound u h (some b) zh found)
      ]
        where
          nothing : b ≡ a → counts_of u (s.names b) ≡ none
          nothing ba = ap (λ c. counts_of u (s.names c)) ba ∙ ap (counts_of u) e

          gone : b ≡ a → FoundBy key s.host h (deleted a objects) none
          gone ba c o k =
              let oc : objects c ≡ true = ground (arith, o) in
              let cb : c ≡ b = sound.single c b oc found.0 (
                (names_equal_iff (s.host c) (s.host b) (sound.named c) (sound.named b)).1
                  (sym k ∙ found.1)) in
              absurd (ground (arith, o, cb, ba))
