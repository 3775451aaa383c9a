-- ===== src/Whowas/Valid.antt =====
-- The history of src/whowas.c as a whole: its slots and both kinds of lists.
use mathlib.Core.Path.{subst, fun_ext}
use unirc_ircd.Prelude.{
  ℕ, zero, suc, ◌-◌, ◌≤◌, ◌<◌, ◌≡◌, refl, sym, ◌∙◌, ap, Bool, true, false, Option, none, some, List,
  [], ◌∷◌, arith, ◌==◌, ==_iff, Bool-cases, Option-cases, inl, inr, if◌then◌else◌, take, length,
}
use unirc_ircd.Match.Case.{NoNul}
use unirc_ircd.Hash.{strhash}
use unirc_ircd.Dlink.{set_at, points_to}
use unirc_ircd.Dlink.Chain.{set_at-same}
use unirc_ircd.Whowas.{
  Lists, Client, Entry, History, entry_of, leave_client, leave_lists, next_slot, add_history,
  add_whowas_to,
}
use unirc_ircd.Whowas.Keeps.{Keeps, add-Keeps, del-Keeps, with_node, without_node}

-- Each list holds the slots of its owner, whatever their order; the slot of a client that is there is in use, a slot
-- in use is one of the ring, and its hash is that of its name.
pub record IsValid (size key : ℕ) (s : History) : Type 0 where
  pub named : ℕ → List ℕ
  pub departed : ℕ → List ℕ
  pub next : s.whowas_next < size
  pub hashes : Keeps s.hashes s.hashv named
  pub clients : Keeps s.clients s.online departed
  pub present : (w c : ℕ) → s.online w ≡ some c → (h : ℕ) × (s.hashv w ≡ some h)
  pub ring : (w h : ℕ) → s.hashv w ≡ some h → w < size
  pub hash : (w h : ℕ) → s.hashv w ≡ some h → h ≡ strhash key (s.entry w).name
  pub names : (w h : ℕ) → s.hashv w ≡ some h → NoNul (s.entry w).name

next_slot-lt : (size w : ℕ) → w < size → next_slot size w < size
next_slot-lt size w h = ground arith

-- A slot out of its lists.
record IsOut (l : Lists) (owner : ℕ → Option ℕ) (w : ℕ) : Type 0 where
  pub nodes : ℕ → List ℕ
  pub keeps : Keeps l (set_at owner w none) nodes

none-Keeps :
    (l : Lists) (owner : ℕ → Option ℕ) (nodes : ℕ → List ℕ) (w : ℕ)
    → owner w ≡ none
    → Keeps l owner nodes
    → Keeps l (set_at owner w none) nodes
none-Keeps l owner nodes w e k = record {
  chain = k.chain;
  distinct = k.distinct;
  start = k.start;
  member = λ b a. k.member b a ∙ ap (λ o. points_to o b) (same a);
}
  where
    same : (a : ℕ) → owner a ≡ set_at owner w none a
    same a = elim (Bool-cases (a == w)) [
      | inl h ↦ rw h (ap owner ((==_iff a w).0 h) ∙ e)
      | inr h ↦ rw h refl
    ]

leave-IsOut :
    (l : Lists) (owner : ℕ → Option ℕ) (nodes : ℕ → List ℕ) (w : ℕ)
    → Keeps l owner nodes
    → IsOut (leave_client w (owner w) l) owner w
leave-IsOut l owner nodes w k = elim (Option-cases (owner w)) [
  | inl e ↦ rw (e, leave_client) (record { nodes = nodes; keeps = none-Keeps l owner nodes w e k })
  | inr (b, e) ↦
      rw (e, leave_client)
        (record { nodes = without_node b w nodes; keeps = del-Keeps l owner nodes k b w e })
]

-- What leaves its lists changes nothing else.
leave_lists-kept :
    (w : ℕ) (o : Option ℕ) (s : History)
    → ((leave_lists w o s).hashv ≡ s.hashv)
      × (((leave_lists w o s).online ≡ s.online) × ((leave_lists w o s).entry ≡ s.entry))
unfolding leave_lists
leave_lists-kept w none s = (refl, (refl, refl))
leave_lists-kept w (some h) s = (refl, (refl, refl))

set_at-again {ℓ} :
    {A : Type ℓ} (f : ℕ → A) (w : ℕ) (x y : A) → set_at (set_at f w x) w y ≡ set_at f w y
set_at-again f w x y =
    fun_ext (λ a. elim (Bool-cases (a == w)) [ inl e ↦ rw e refl | inr e ↦ rw e refl ])

-- A slot in use again, with another owner or with none.
added-Keeps :
    (l : Lists) (owner : ℕ → Option ℕ) (w b : ℕ) (o : IsOut l owner w)
    → Keeps (add_whowas_to b w l) (set_at owner w (some b)) (with_node b w o.nodes)
added-Keeps l owner w b o =
    subst (λ f. Keeps (add_whowas_to b w l) f (with_node b w o.nodes))
      (set_at-again owner w none (some b))
      (add-Keeps l (set_at owner w none) o.nodes o.keeps b w (set_at-same owner w none))

module _ (size key : ℕ) (s : History) (v : IsValid size key s) where
  absent : (w : ℕ) → s.hashv w ≡ none → s.online w ≡ none
  absent w e = elim (Option-cases (s.online w)) [
    | inl o ↦ o
    | inr (c, o) ↦ let (h, f) = v.present w c o in absurd (cc (e, f))
  ]

  left-IsOut :
      (w : ℕ)
      → IsOut (leave_lists w (s.hashv w) s).hashes s.hashv w
        × IsOut (leave_lists w (s.hashv w) s).clients s.online w
  unfolding leave_lists
  left-IsOut w = elim (Option-cases (s.hashv w)) [
    | inl e ↦
        rw (e, leave_lists)
          (
            record { nodes = v.named; keeps = none-Keeps s.hashes s.hashv v.named w e v.hashes },
            record {
              nodes = v.departed;
              keeps = none-Keeps s.clients s.online v.departed w (absent w e) v.clients;
            },
          )
    | inr (h, e) ↦
        rw (e, leave_lists)
          (
            record {
              nodes = without_node h w v.named;
              keeps = del-Keeps s.hashes s.hashv v.named v.hashes h w e;
            },
            leave-IsOut s.clients s.online v.departed w v.clients,
          )
  ]

  -- The fields of a slot after it is taken, for any condition on slots in use.
  in_use :
      (w h a g : ℕ) (P : ℕ → ℕ → Type 0)
      → P w h
      → ((a g : ℕ) → s.hashv a ≡ some g → (a == w) ≡ false → P a g)
      → set_at s.hashv w (some h) a ≡ some g
      → P a g
  in_use w h a g P new old e = elim (Bool-cases (a == w)) [
    | inl f ↦
        let hg : some h ≡ some g = rw f at e in
        let aw : a ≡ w = (==_iff a w).0 f in
        let hg' : h ≡ g = cc hg in subst (λ x. P a x) hg' (subst (λ x. P x h) (sym aw) new)
    | inr f ↦ old a g (rw f at e) f
  ]

  present_in :
      (w h a b : ℕ) (o : Option ℕ)
      → set_at s.online w o a ≡ some b
      → (x : ℕ) × (set_at s.hashv w (some h) a ≡ some x)
  present_in w h a b o e = elim (Bool-cases (a == w)) [
    | inl f ↦ (h, rw f refl)
    | inr f ↦ let (x, p) = v.present a b (rw f at e) in (x, rw f p)
  ]

  -- What is known of the name of a slot in use.
  abbrev IsNamed : (ℕ → Entry) → ℕ → ℕ → Type 0
  IsNamed entry a g = (g ≡ strhash key (entry a).name) × NoNul (entry a).name

  in_use-IsNamed :
      (w : ℕ) (entry : Entry) (a g : ℕ)
      → NoNul entry.name
      → set_at s.hashv w (some (strhash key entry.name)) a ≡ some g
      → IsNamed (set_at s.entry w entry) a g
  in_use-IsNamed w entry a g nonul =
      in_use w (strhash key entry.name) a g (IsNamed (set_at s.entry w entry))
        (rw (set_at-same s.entry w entry) (refl, nonul))
        (λ b x e f. rw f (v.hash b x e, v.names b x e))

take-all {ℓ} : {A : Type ℓ} (n : ℕ) (xs : List A) → length xs ≤ n → take n xs ≡ xs
take-all zero [] h = refl
take-all zero (x ∷ xs) h = absurd (omega arith)
take-all (suc n) [] h = refl
take-all (suc n) (x ∷ xs) h = ap (λ ys. x ∷ ys) (take-all n xs (omega arith))

online-Keeps :
    (l : Lists) (owner : ℕ → Option ℕ) (w c : ℕ) (online : Bool) (o : IsOut l owner w)
    → (nodes : ℕ → List ℕ) × Keeps
        (if online then add_whowas_to c w l else l)
        (set_at owner w (if online then some c else none))
        nodes
online-Keeps l owner w c true o = (with_node c w o.nodes, added-Keeps l owner w c o)
online-Keeps l owner w c false o = (o.nodes, o.keeps)

-- In a valid history, `add_history` for a client whose name fits its field and has no NUL leaves it valid.
pub add_history-IsValid :
    (nicklen size key now c : ℕ) (client : Client) (online : Bool) (s : History)
    → length client.name < nicklen
    → NoNul client.name
    → IsValid size key s
    → IsValid size key (add_history nicklen size key now c client online s)
unfolding add_history
add_history-IsValid nicklen size key now c client online s fits named v =
    let w = s.whowas_next in
    let h = strhash key client.name in
    let kept = leave_lists-kept w (s.hashv w) s in
    let out = left-IsOut size key s v w in
    let there = online-Keeps (leave_lists w (s.hashv w) s).clients s.online w c online out.1 in
    let whole = take-all (nicklen - 1) client.name (omega arith) in
    let names = λ (a g : ℕ) (e : set_at s.hashv w (some h) a ≡ some g).
      in_use-IsNamed size key s v w (entry_of nicklen now client) a g (rw whole named)
        (rw whole e) in
    rw (kept.0, kept.1.0, kept.1.1)
      (record {
        named = with_node h w out.0.nodes;
        departed = there.0;
        next = next_slot-lt size w v.next;
        hashes = added-Keeps (leave_lists w (s.hashv w) s).hashes s.hashv w h out.0;
        clients = there.1;
        present = λ a b e. present_in size key s v w h a b (if online then some c else none) e;
        ring = λ a g e.
            in_use size key s v w h a g (λ a g. a < size) v.next (λ a g e f. v.ring a g e) e;
        hash = λ a g e. (names a g e).0;
        names = λ a g e. (names a g e).1;
      })
