-- ===== src/Hash/Spec.antt =====
-- The tables of src/hash.c as sets of objects with names.
use unirc_ircd.Prelude.{
  ℕ, ◌≡◌, ◌≢◌, refl, Bool, true, false, ◌&&◌, Option, none, some, List, map, arith, ◌==◌,
  if◌then◌else◌, count, count-remove_first, Bool-cases, inl, inr,
}
use unirc_ircd.Chars.{Bytes, to_upper}
use unirc_ircd.Match.Case.{NoNul}
use unirc_ircd.Hash.{
  Table, set_chain, strhash, hash_add, hash_del, hash_find, find_such, names_equal,
}
use unirc_ircd.Hash.Value.{strhash-fold}
use unirc_ircd.Hash.Names.{names_equal_iff}
use unirc_ircd.Hash.Chain.{FoundIn, find_in-FoundIn}

-- What is done to a table.
pub data Operation : Type 0 where
  add : ℕ → Operation
  del : ℕ → Operation
  find : Bytes → Operation

abbrev pub added : ℕ → (ℕ → Bool) → ℕ → Bool
added a objects = λ b. if b == a then true else objects b

abbrev pub deleted : ℕ → (ℕ → Bool) → ℕ → Bool
deleted a objects = λ b. if b == a then false else objects b

module _ (key : ℕ) (name_of : ℕ → Bytes) where
  -- Each object stands once in the chain of its name, and nowhere else.
  abbrev pub Represents : Table → (ℕ → Bool) → Type 0
  Represents t objects =
      (a h : ℕ) → count a (t h) ≡ (if h == strhash key (name_of a) && objects a then 1 else 0)

  abbrev pub apply_to : Operation → Table → Option ℕ × Table
  apply_to (add a) t = (none, hash_add key name_of a t)
  apply_to (del a) t = (none, hash_del key name_of a t)
  apply_to (find name) t = hash_find key name_of name t

  abbrev pub after : Operation → (ℕ → Bool) → ℕ → Bool
  after (add a) objects = added a objects
  after (del a) objects = deleted a objects
  after (find name) objects = objects

  -- An object is added at most once.
  abbrev pub Allowed : Operation → (ℕ → Bool) → Type 0
  Allowed (add a) objects = objects a ≡ false
  Allowed (del a) objects = Unit {0}
  Allowed (find name) objects = NoNul name

  -- An object of that name, in any case, or the proof that there is none.
  abbrev pub FoundBy : Bytes → (ℕ → Bool) → Option ℕ → Type 0
  FoundBy name objects none =
      (a : ℕ) → objects a ≡ true → map to_upper name ≢ map to_upper (name_of a)
  FoundBy name objects (some a) =
      (objects a ≡ true) × (map to_upper name ≡ map to_upper (name_of a))

  abbrev pub Answers : Operation → (ℕ → Bool) → Option ℕ → Type 0
  Answers (add a) objects r = r ≡ none
  Answers (del a) objects r = r ≡ none
  Answers (find name) objects r = FoundBy name objects r

module _ (key : ℕ) (name_of : ℕ → Bytes) (t : Table) (objects : ℕ → Bool)
    (rep : Represents key name_of t objects) where
  pub hash_add-Represents :
      (a : ℕ)
      → objects a ≡ false
      → Represents key name_of (hash_add key name_of a t) (added a objects)
  unfolding hash_add
  hash_add-Represents a fresh b h = elim (Bool-cases (b == a)) [
    | inl e ↦
        let ba : b ≡ a = ground (arith, e) in
        rw ba (ground (arith, rep a h, rep a (strhash key (name_of a)), fresh))
    | inr e ↦ ground (arith, e, rep b h, rep b (strhash key (name_of a)))
  ]

  pub hash_del-Represents :
      (a : ℕ) → Represents key name_of (hash_del key name_of a t) (deleted a objects)
  unfolding hash_del
  hash_del-Represents a b h = elim (Bool-cases (b == a)) [
    | inl e ↦
        let ba : b ≡ a = ground (arith, e) in
        rw ba (
          ground (
            arith,
            rep a h,
            rep a (strhash key (name_of a)),
            count-remove_first a a (t (strhash key (name_of a))),
          ))
    | inr e ↦ ground (
      arith,
      e,
      rep b h,
      rep b (strhash key (name_of a)),
      count-remove_first a b (t (strhash key (name_of a))),
    )
  ]

  -- What a search of the chain of a name means for the set.
  find-Represents :
      (name : Bytes) (r : Option ℕ) (left : List ℕ)
      → ((a : ℕ) → NoNul (name_of a))
      → NoNul name
      → FoundIn (λ a. names_equal name (name_of a)) (t (strhash key name)) (r, left)
      → Represents key name_of (set_chain t (strhash key name) left) objects
        × FoundBy key name_of name objects r
  find-Represents name none left named hn f = (
    (λ a h. ground (arith, rep a h, f.1)),
    λ a o e.
        let same : strhash key name ≡ strhash key (name_of a) =
          strhash-fold key name (name_of a) hn (named a) e in
        let k : names_equal name (name_of a) ≡ true =
          (names_equal_iff name (name_of a) hn (named a)).1 e in
        let no = f.0 a (ground (arith, rep a (strhash key name), same, o)) in cc (k, no),
  )
  find-Represents name (some d) left named hn f = (
    (λ a h. ground (arith, rep a h, f.2 a)),
    (
      ground (arith, rep d (strhash key name), f.1),
      (names_equal_iff name (name_of d) hn (named d)).0 f.0,
    ),
  )

-- On a table that represents a set of objects, each once in the chain of its name, `hash_add_client`,
-- `hash_del_client` and `find_client`, and the same functions of the other tables, leave a table that
-- represents the set with the object, without it, and the same set; and a search gives an object
-- of the set whose name is the one searched for in any case, or NULL only if the set has none. It is
-- asked that names have no NUL and that no object is added twice.
pub hash-Represents :
    (key : ℕ) (name_of : ℕ → Bytes) (t : Table) (objects : ℕ → Bool) (op : Operation)
    → ((a : ℕ) → NoNul (name_of a))
    → Represents key name_of t objects
    → Allowed key name_of op objects
    → Represents key name_of (apply_to key name_of op t).1 (after key name_of op objects)
      × Answers key name_of op objects (apply_to key name_of op t).0
hash-Represents key name_of t objects (add a) named rep ok =
    (hash_add-Represents key name_of t objects rep a ok, refl)
hash-Represents key name_of t objects (del a) named rep ok =
    (hash_del-Represents key name_of t objects rep a, refl)
hash-Represents key name_of t objects (find name) named rep ok =
    unfold hash_find find_such in
    find-Represents key name_of t objects rep name _ _ named ok
      (find_in-FoundIn (λ a. names_equal name (name_of a)) (t (strhash key name)))
