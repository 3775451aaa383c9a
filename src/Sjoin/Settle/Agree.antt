-- ===== src/Sjoin/Settle/Agree.antt =====
-- Sides whose modes are joined as they are agree on the timestamp and modes of a channel.
use mathlib.Core.List.{Permᴰ}
use mathlib.Core.Path.{fun_ext, subst}
use unirc_ircd.Prelude.{
  ap, ◌<◌, ◌≡◌, refl, sym, ◌∙◌, Bool, true, false, ◌||◌, Option, none, some, List, [], ◌∷◌, arith,
}
use unirc_ircd.Modes.Types.{ChannelMode}
use unirc_ircd.Sjoin.Settle.{Side, keep, join_modes, settle}
use unirc_ircd.Sjoin.Settle.Order.{later_comm, later_assoc, larger_comm, larger_assoc}

or_comm : (a b : Bool) → (a || b) ≡ (b || a)
or_comm true true = refl
or_comm true false = refl
or_comm false true = refl
or_comm false false = refl

or_assoc : (a b c : Bool) → (a || (b || c)) ≡ ((a || b) || c)
or_assoc true b c = refl
or_assoc false b c = refl

join_modes_comm : (m n : ChannelMode) → join_modes m n ≡ join_modes n m
unfolding join_modes
join_modes_comm m n = λ i. record {
  mode = fun_ext (λ f. or_comm (n.mode f) (m.mode f)) i;
  limit = larger_comm m.limit n.limit i;
  key = later_comm m.key n.key i;
  forward = later_comm m.forward n.forward i;
  msgs = larger_comm m.msgs n.msgs i;
  per = larger_comm m.per n.per i;
}

join_modes_assoc :
    (m n k : ChannelMode) → join_modes (join_modes m n) k ≡ join_modes m (join_modes n k)
unfolding join_modes
join_modes_assoc m n k = λ i. record {
  mode = fun_ext (λ f. or_assoc (k.mode f) (n.mode f) (m.mode f)) i;
  limit = larger_assoc m.limit n.limit k.limit i;
  key = later_assoc m.key n.key k.key i;
  forward = later_assoc m.forward n.forward k.forward i;
  msgs = larger_assoc m.msgs n.msgs k.msgs i;
  per = larger_assoc m.per n.per k.per i;
}

settle_comm : (a b : Side) → settle a b ≡ settle b a
unfolding settle keep
settle_comm a b = ground (arith, join_modes_comm a.modes b.modes)

settle_assoc :
    (a b c : Side) → 0 < a.ts → 0 < b.ts → 0 < c.ts → settle (settle a b) c ≡ settle a (settle b c)
unfolding settle keep
settle_assoc a b c p q r = ground (arith, join_modes_assoc a.modes b.modes c.modes)

settle-timed : (a b : Side) → 0 < a.ts → 0 < b.ts → 0 < (settle a b).ts
unfolding settle keep
settle-timed a b p q = ground arith

-- A side that is settled with others in their order.
abbrev pub settle_all : Side → List Side → Side
settle_all a [] = a
settle_all a (b ∷ bs) = settle_all (settle a b) bs

abbrev pub AllTimed : List Side → Type 0
AllTimed [] = Unit {0}
AllTimed (a ∷ rest) = (0 < a.ts) × AllTimed rest

-- What the first of some sides is, once it is settled with the others.
abbrev pub agreed : List Side → Option Side
agreed [] = none
agreed (a ∷ rest) = some (settle_all a rest)

perm-AllTimed : {xs ys : List Side} → Permᴰ xs ys → AllTimed xs → AllTimed ys
perm-AllTimed Permᴰ.nil t = t
perm-AllTimed (Permᴰ.cons e p) (h, t) = (subst (λ s. 0 < s.ts) e h, perm-AllTimed p t)
perm-AllTimed (Permᴰ.swap e f) (h, (k, t)) =
    (subst (λ s. 0 < s.ts) f k, (subst (λ s. 0 < s.ts) e h, t))
perm-AllTimed (Permᴰ.trans p q) t = perm-AllTimed q (perm-AllTimed p t)

settle_all-perm :
    {xs ys : List Side} (a : Side)
    → 0 < a.ts
    → Permᴰ xs ys
    → AllTimed xs
    → settle_all a xs ≡ settle_all a ys
settle_all-perm a h Permᴰ.nil t = refl
settle_all-perm a h (Permᴰ.cons {a = b} {b = c} {l₁ = l} e p) (k, t) =
    ap (λ s. settle_all (settle a s) l) e
    ∙ settle_all-perm (settle a c) (settle-timed a c h (subst (λ s. 0 < s.ts) e k)) p t
settle_all-perm a h (Permᴰ.swap {a = b} {b = c} {a' = c'} {l = rest} e f) (k, (l, t)) =
    ap (λ s. settle_all s rest) (exchanged b c k l)
    ∙ ap (λ s. settle_all (settle (settle a s) b) rest) f
    ∙ ap (λ s. settle_all (settle (settle a c') s) rest) e
  where
    exchanged : (b c : Side) → 0 < b.ts → 0 < c.ts → settle (settle a b) c ≡ settle (settle a c) b
    exchanged b c k l =
        settle_assoc a b c h k l ∙ ap (settle a) (settle_comm b c) ∙ sym (settle_assoc a c b h l k)
settle_all-perm a h (Permᴰ.trans p q) t =
    settle_all-perm a h p t ∙ settle_all-perm a h q (perm-AllTimed p t)

-- Of sides with timestamps other than 0, the one that joins the modes of the others to its own, each as they are, ends
-- with the same timestamp and modes, whichever it is and in whatever order.
pub agreed-perm : {xs ys : List Side} → Permᴰ xs ys → AllTimed xs → agreed xs ≡ agreed ys
agreed-perm Permᴰ.nil t = refl
agreed-perm (Permᴰ.cons {a = a} {l₂ = l} e p) (h, t) =
    ap some (settle_all-perm a h p t ∙ ap (λ s. settle_all s l) e)
agreed-perm (Permᴰ.swap {a = a} {b = b} {a' = b'} {l = l} e f) (h, (k, t)) =
    ap (λ s. some (settle_all s l))
      (settle_comm a b ∙ ap (λ s. settle s a) f ∙ ap (λ s. settle b' s) e)
agreed-perm (Permᴰ.trans p q) t = agreed-perm p t ∙ agreed-perm q (perm-AllTimed p t)
