-- ===== src/Whowas/Off.antt =====
-- `off_history` of src/whowas.c: a client goes.
use mathlib.Core.Path.{subst}
use unirc_ircd.Prelude.{
  ℕ, zero, suc, ◌≤◌, ◌<◌, ◌≡◌, refl, sym, ◌∙◌, ap, true, false, Option, none, some, List, [], ◌∷◌,
  arith, ◌==◌, ==_refl, ==_iff, Bool-cases, inl, inr, if-case, if◌then◌else◌, remove_first, length,
}
use unirc_ircd.Dlink.{set_at, points_to}
use unirc_ircd.Dlink.Chain.{has, Distinct, first_or, Chain, set_at-same}
use unirc_ircd.Whowas.{Lists, History, off_loop, off_history, del_whowas_from}
use unirc_ircd.Whowas.Keeps.{Keeps, del-Keeps, without_node, has-remove_first}
use unirc_ircd.Whowas.Valid.{IsValid}

-- There are no more distinct slots than the ring has.
Distinct-remove_first : (a : ℕ) (xs : List ℕ) → Distinct xs → Distinct (remove_first a xs)
Distinct-remove_first a [] d = tt
Distinct-remove_first a (b ∷ xs) d =
    if-case Distinct (b == a) (λ e. d.1)
      (λ e. (has-remove_first b a xs d.1 ∙ ground (arith, d.0), Distinct-remove_first a xs d.1))

length-remove_first-ge : (a : ℕ) (xs : List ℕ) → length xs ≤ suc (length (remove_first a xs))
length-remove_first-ge a [] = omega arith
length-remove_first-ge a (b ∷ xs) = ground (arith, length-remove_first-ge a xs)

pub pigeonhole :
    (n : ℕ) (xs : List ℕ) → Distinct xs → ((a : ℕ) → has a xs ≡ true → a < n) → length xs ≤ n
pigeonhole zero [] d below = omega arith
pigeonhole zero (a ∷ xs) d below =
    absurd (let l = below a (ground (arith, ==_refl a)) in omega arith)
pigeonhole (suc n) xs d below = omega (
  arith,
  length-remove_first-ge n xs,
  pigeonhole n (remove_first n xs) (Distinct-remove_first n xs d)
      (λ a i. ground (arith, has-remove_first a n xs d, below a)),
)

-- Who is online without `c`.
abbrev pub gone : ℕ → (ℕ → Option ℕ) → ℕ → Option ℕ
gone c online a = if points_to (online a) c then none else online a

gone_step :
    (c w a : ℕ) (online : ℕ → Option ℕ)
    → online w ≡ some c
    → gone c (set_at online w none) a ≡ gone c online a
gone_step c w a online e = elim (Bool-cases (a == w)) [
  | inl h ↦
      rw h (sym (ap (λ b. gone c online b) ((==_iff a w).0 h) ∙ rw e (ground (arith, ==_refl c))))
  | inr h ↦ rw h refl
]

-- What the loop ends with.
record Ended (c : ℕ) (online : ℕ → Option ℕ) (r : Option ((ℕ → Option ℕ) × Lists)) : Type 0 where
  pub online' : ℕ → Option ℕ
  pub lists : Lists
  pub nodes : ℕ → List ℕ
  pub ends : r ≡ some (online', lists)
  pub keeps : Keeps lists online' nodes
  pub leaves : (a : ℕ) → online' a ≡ gone c online a

off_loop-Ended :
    (rounds c : ℕ) (xs : List ℕ) (online : ℕ → Option ℕ) (l : Lists) (nodes : ℕ → List ℕ)
    → Keeps l online nodes
    → nodes c ≡ xs
    → length xs ≤ rounds
    → Ended c online (off_loop rounds c (first_or none xs) online l)
unfolding off_loop
off_loop-Ended rounds c [] online l nodes k e le = record {
  online' = online;
  lists = l;
  nodes = nodes;
  ends = off_loop-none rounds;
  keeps = k;
  leaves = λ a. sym (stays (online a) (sym (k.member c a) ∙ ap (has a) e));
}
  where
    off_loop-none : (rounds : ℕ) → off_loop rounds c none online l ≡ some (online, l)
    off_loop-none zero = refl
    off_loop-none (suc n) = refl

    stays : (o : Option ℕ) → points_to o c ≡ false → (if points_to o c then none else o) ≡ o
    stays o h = rw h refl
off_loop-Ended zero c (w ∷ xs) online l nodes k e le = absurd (omega arith)
off_loop-Ended (suc rounds) c (w ∷ xs) online l nodes k e le =
    let chain = subst (λ ys. Chain l.prev l.next none ys none) e (k.chain c) in
    let own : online w ≡ some c =
      owner_of (online w) (sym (k.member c w) ∙ ap (has w) e ∙ ground (arith, ==_refl w)) in
    let rest =
      off_loop-Ended rounds c xs (set_at online w none) (del_whowas_from c w l)
        (without_node c w nodes) (del-Keeps l online nodes k c w own)
        (set_at-same nodes c (remove_first w (nodes c))
          ∙ ap (remove_first w) e
          ∙ ground (arith, ==_refl w))
        (omega arith) in
    rw chain.1 (record {
      online' = rest.online';
      lists = rest.lists;
      nodes = rest.nodes;
      ends = rest.ends;
      keeps = rest.keeps;
      leaves = λ a. rest.leaves a ∙ gone_step c w a online own;
    })
  where
    owner_of : (o : Option ℕ) → points_to o c ≡ true → o ≡ some c
    owner_of o h = ground arith

-- What `off_history` leaves of a history, for a client `c`.
pub record IsOff (size key c : ℕ) (s : History) (r : Option History) : Type 0 where
  pub after : History
  pub ends : r ≡ some after
  pub valid : IsValid size key after
  pub leaves : (w : ℕ) → after.online w ≡ (if points_to (s.online w) c then none else s.online w)
  pub same_entry : after.entry ≡ s.entry
  pub same_hash : after.hashv ≡ s.hashv
  pub same_next : after.whowas_next ≡ s.whowas_next

-- The list of a client is no longer than the ring.
bounded :
    (size key c : ℕ) (s : History) (v : IsValid size key s) (rounds : ℕ)
    → size ≤ rounds
    → length (v.departed c) ≤ rounds
bounded size key c s v rounds enough =
    omega (arith, pigeonhole size (v.departed c) (v.clients.distinct c) in_ring)
  where
    owner_of : (o : Option ℕ) → points_to o c ≡ true → o ≡ some c
    owner_of o h = ground arith

    in_ring : (a : ℕ) → has a (v.departed c) ≡ true → a < size
    in_ring a i =
        let (h, e) = v.present a c (owner_of (s.online a) (sym (v.clients.member c a) ∙ i)) in
        v.ring a h e

-- In a valid history `off_history` ends within as many rounds as the ring has slots and leaves it valid; every slot
-- of the client has no client any more, the other slots keep theirs, and nothing else of a slot changes.
pub off_history-IsOff :
    (size key rounds c : ℕ) (s : History)
    → size ≤ rounds
    → IsValid size key s
    → IsOff size key c s (off_history rounds c s)
unfolding off_history
off_history-IsOff size key rounds c s enough v =
    let r =
      off_loop-Ended rounds c (v.departed c) s.online s.clients v.departed v.clients refl
        (bounded size key c s v rounds enough) in
    rw (v.clients.start c, r.ends, off_history)
      (record {
        after = record s { online = r.online'; clients = r.lists };
        ends = refl;
        valid = record {
          named = v.named;
          departed = r.nodes;
          next = v.next;
          hashes = v.hashes;
          clients = r.keeps;
          present = λ w b e. v.present w b (was (s.online w) b (sym (r.leaves w) ∙ e));
          ring = v.ring;
          hash = v.hash;
          names = v.names;
        };
        leaves = r.leaves;
        same_entry = refl;
        same_hash = refl;
        same_next = refl;
      })
  where
    was : (o : Option ℕ) (b : ℕ) → (if points_to o c then none else o) ≡ some b → o ≡ some b
    was o b e = ground arith
