-- ===== src/Dlink/Chain.antt =====
-- What a list of src/tools.c is: nodes whose pointers lead to and fro.
use mathlib.Core.Bool.{true≢false}
use unirc_ircd.Prelude.{
  ℕ, ◌≡◌, refl, sym, ◌∙◌, ap, Bool, true, false, ◌||◌, Option, none, some, List, [], ◌∷◌, ◌++◌,
  arith, ◌==◌, ==_refl, ==_iff, Bool-cases, inl, inr,
}
use unirc_ircd.Dlink.{set_at, set_through, if_null}

abbrev pub has : ℕ → List ℕ → Bool
has a [] = false
has a (b ∷ xs) = (a == b) || has a xs

abbrev pub has_ptr : Option ℕ → List ℕ → Bool
has_ptr none xs = false
has_ptr (some a) xs = has a xs

abbrev pub Distinct : List ℕ → Type 0
Distinct [] = Unit {0}
Distinct (a ∷ xs) = (has a xs ≡ false) × Distinct xs

-- The first node, or what comes behind; the last, or what stands in front.
abbrev pub first_or : Option ℕ → List ℕ → Option ℕ
first_or q [] = q
first_or q (a ∷ xs) = some a

abbrev pub last_or : Option ℕ → List ℕ → Option ℕ
last_or p [] = p
last_or p (a ∷ xs) = last_or (some a) xs

-- The pointers along `xs`, with `p` in front and `q` behind.
abbrev pub Chain : (ℕ → Option ℕ) → (ℕ → Option ℕ) → Option ℕ → List ℕ → Option ℕ → Type 0
Chain prev next p [] q = Unit {0}
Chain prev next p (a ∷ xs) q =
    (prev a ≡ p) × (next a ≡ first_or q xs) × Chain prev next (some a) xs q

pub set_at-same {ℓ} : {A : Type ℓ} (f : ℕ → A) (a : ℕ) (x : A) → set_at f a x a ≡ x
set_at-same f a x = rw (==_refl a) refl

pub set_at-other {ℓ} :
    {A : Type ℓ} (f : ℕ → A) (a b : ℕ) (x : A) → (b == a) ≡ false → set_at f a x b ≡ f b
set_at-other f a b x h = rw h refl

pub apart : (a b : ℕ) (xs : List ℕ) → has b xs ≡ true → has a xs ≡ false → (b == a) ≡ false
apart a b xs i o = elim (Bool-cases (b == a)) [
  | inl e ↦ absurd (true≢false (sym i ∙ ap (λ x. has x xs) ((==_iff b a).0 e) ∙ o))
  | inr e ↦ e
]

pub set_through-other {ℓ} :
    {A : Type ℓ} (f : ℕ → A) (p : Option ℕ) (b : ℕ) (x : A) (xs : List ℕ)
    → has b xs ≡ true
    → has_ptr p xs ≡ false
    → set_through f p x b ≡ f b
set_through-other f none b x xs i o = refl
set_through-other f (some a) b x xs i o = set_at-other f a b x (apart a b xs i o)

pub set_last-other {ℓ} :
    {A : Type ℓ} (f : ℕ → A) (a b : ℕ) (xs : List ℕ) (x : A)
    → has a (b ∷ xs) ≡ false
    → set_through f (last_or (some b) xs) x a ≡ f a
set_last-other f a b [] x o = set_at-other f b a x (ground arith)
set_last-other f a b (c ∷ xs) x o = set_last-other f a c xs x (ground arith)

pub set_last-outside {ℓ} :
    {A : Type ℓ} (f : ℕ → A) (a : ℕ) (xs : List ℕ) (x : A)
    → has a xs ≡ false
    → set_through f (last_or none xs) x a ≡ f a
set_last-outside f a [] x o = refl
set_last-outside f a (b ∷ xs) x o = set_last-other f a b xs x o

pub set_first-other {ℓ} :
    {A : Type ℓ} (f : ℕ → A) (a : ℕ) (xs : List ℕ) (x : A)
    → has a xs ≡ false
    → set_through f (first_or none xs) x a ≡ f a
set_first-other f a [] x o = refl
set_first-other f a (b ∷ xs) x o = set_at-other f b a x (ground arith)

pub first_or-append :
    (xs ys : List ℕ) (q : Option ℕ) → first_or q (xs ++ ys) ≡ first_or (first_or q ys) xs
first_or-append [] ys q = refl
first_or-append (a ∷ xs) ys q = refl

-- Pointers of other nodes may change.
pub Chain-frame :
    (prev next prev' next' : ℕ → Option ℕ) (p : Option ℕ) (xs : List ℕ) (q : Option ℕ)
    → ((a : ℕ) → has a xs ≡ true → (prev' a ≡ prev a) × (next' a ≡ next a))
    → Chain prev next p xs q
    → Chain prev' next' p xs q
Chain-frame prev next prev' next' p [] q same c = tt
Chain-frame prev next prev' next' p (a ∷ xs) q same c =
    let here = same a (ground arith) in
    (
      here.0 ∙ c.0,
      here.1 ∙ c.1,
      Chain-frame prev next prev' next' (some a) xs q (λ b h. same b (ground arith)) c.2,
    )

pub Chain-split :
    (prev next : ℕ → Option ℕ) (p : Option ℕ) (xs ys : List ℕ) (q : Option ℕ)
    → Chain prev next p (xs ++ ys) q
    → Chain prev next p xs (first_or q ys) × Chain prev next (last_or p xs) ys q
Chain-split prev next p [] ys q c = (tt, c)
Chain-split prev next p (a ∷ xs) ys q c =
    let rest = Chain-split prev next (some a) xs ys q c.2 in
    ((c.0, c.1 ∙ first_or-append xs ys q, rest.0), rest.1)

pub Chain-append :
    (prev next : ℕ → Option ℕ) (p : Option ℕ) (xs ys : List ℕ) (q : Option ℕ)
    → Chain prev next p xs (first_or q ys)
    → Chain prev next (last_or p xs) ys q
    → Chain prev next p (xs ++ ys) q
Chain-append prev next p [] ys q c d = d
Chain-append prev next p (a ∷ xs) ys q c d =
    (c.0, c.1 ∙ sym (first_or-append xs ys q), Chain-append prev next (some a) xs ys q c.2 d)

-- A new pointer at the end.
pub Chain-end :
    (prev next : ℕ → Option ℕ) (p : Option ℕ) (xs : List ℕ) (q q' : Option ℕ)
    → Distinct xs
    → Chain prev next p xs q
    → Chain prev (set_through next (last_or none xs) q') p xs q'
Chain-end prev next p [] q q' d c = tt
Chain-end prev next p (a ∷ []) q q' d c = (c.0, set_at-same next a q', tt)
Chain-end prev next p (a ∷ b ∷ xs) q q' d c = (
  c.0,
  set_last-other next a b xs q' d.0 ∙ c.1,
  Chain-end prev next (some a) (b ∷ xs) q q' d.1 c.2,
)

-- A new pointer at the start.
pub Chain-start :
    (prev next : ℕ → Option ℕ) (p p' : Option ℕ) (xs : List ℕ) (q : Option ℕ)
    → Distinct xs
    → Chain prev next p xs q
    → Chain (set_through prev (first_or none xs) p') next p' xs q
Chain-start prev next p p' [] q d c = tt
Chain-start prev next p p' (a ∷ xs) q d c = (
  set_at-same prev a p',
  c.1,
  Chain-frame prev next (set_at prev a p') next (some a) xs q
      (λ b h. (set_at-other prev a b p' (apart a b xs h d.0), refl)) c.2,
)

-- Lists of nodes put together.
pub has-append : (a : ℕ) (xs ys : List ℕ) → has a (xs ++ ys) ≡ (has a xs || has a ys)
has-append a [] ys = refl
has-append a (b ∷ xs) ys = ground (arith, has-append a xs ys)

abbrev pub Apart : List ℕ → List ℕ → Type 0
Apart xs ys = (a : ℕ) → has a xs ≡ true → has a ys ≡ false

pub Apart-sym : (xs ys : List ℕ) → Apart xs ys → Apart ys xs
Apart-sym xs ys f a i = elim (Bool-cases (has a xs)) [
  | inl e ↦ absurd (true≢false (sym i ∙ f a e))
  | inr e ↦ e
]

pub Distinct-split :
    (xs ys : List ℕ) → Distinct (xs ++ ys) → Distinct xs × (Distinct ys × Apart xs ys)
Distinct-split [] ys d = (tt, (d, λ a i. absurd (true≢false (sym i))))
Distinct-split (b ∷ xs) ys d =
    let rest = Distinct-split xs ys d.1 in
    (
      (ground (arith, has-append b xs ys, d.0), rest.0),
      (
        rest.1.0,
        λ a i. elim (Bool-cases (a == b)) [
          | inl e ↦ ap (λ x. has x ys) ((==_iff a b).0 e) ∙ out
          | inr e ↦ rest.1.1 a (ground arith)
        ],
      ),
    )
  where
    out : has b ys ≡ false
    out = ground (arith, has-append b xs ys, d.0)

pub Distinct-append :
    (xs ys : List ℕ) → Distinct xs → Distinct ys → Apart xs ys → Distinct (xs ++ ys)
Distinct-append [] ys d e f = e
Distinct-append (b ∷ xs) ys d e f = (
  ground (arith, has-append b xs ys, d.0, f b, ==_refl b),
  Distinct-append xs ys d.1 e (λ a i. f a (ground arith)),
)

pub last_or-append :
    (p : Option ℕ) (xs ys : List ℕ) → last_or p (xs ++ ys) ≡ last_or (last_or p xs) ys
last_or-append p [] ys = refl
last_or-append p (a ∷ xs) ys = last_or-append (some a) xs ys

pub has_ptr-last : (xs ys : List ℕ) → Apart xs ys → has_ptr (last_or none xs) ys ≡ false
has_ptr-last [] ys f = refl
has_ptr-last (a ∷ []) ys f = f a (ground arith)
has_ptr-last (a ∷ b ∷ xs) ys f = has_ptr-last (b ∷ xs) ys (λ c i. f c (ground arith))

pub has_ptr-first : (xs ys : List ℕ) → Apart xs ys → has_ptr (first_or none xs) ys ≡ false
has_ptr-first [] ys f = refl
has_ptr-first (a ∷ xs) ys f = f a (ground arith)

pub if_null-last {ℓ} :
    {A : Type ℓ} (a : ℕ) (xs : List ℕ) (x y : A) → if_null (last_or (some a) xs) x y ≡ y
if_null-last a [] x y = refl
if_null-last a (b ∷ xs) x y = if_null-last b xs x y

pub last-some : (a : ℕ) (xs : List ℕ) → (p : ℕ) × (last_or (some a) xs ≡ some p)
last-some a [] = (a, refl)
last-some a (b ∷ xs) = last-some b xs
