-- ===== src/Args/Params.antt =====
-- The parameters that `string_to_array` of src/parse.c finds.
use unirc_ircd.Prelude.{
  ℕ, zero, suc, ◌+◌, ◌≤◌, ◌≡◌, refl, sym, ◌∙◌, ap, false, Option, none, some, List, [], ◌∷◌, ◌++◌,
  append-nil, arith, ◌==◌, length,
}
use unirc_ircd.Chars.{Bytes}
use unirc_ircd.Args.{
  maxpara, skip_spaces, split_space, last_param, after_word, next_word, arg_round, arg_loop,
  string_to_array,
}

length-after_word :
    (next : Bytes → Bytes → List Bytes) (n : ℕ) (parts : Bytes × Option Bytes)
    → ((p more : Bytes) → length (next p more) ≤ n)
    → length (after_word next parts) ≤ suc n
unfolding after_word
length-after_word next n (word, none) h = omega arith
length-after_word next n (word, some p) h = length-next_word (skip_spaces p)
  where
    length-next_word : (buf : Bytes) → length (next_word next word p buf) ≤ suc n
    length-next_word [] = unfold next_word in omega arith
    length-next_word (c ∷ t) = unfold next_word in omega (arith, h p (c ∷ t))

length-arg_round :
    (next : Bytes → Bytes → List Bytes) (n : ℕ) (buf : Bytes)
    → ((p more : Bytes) → length (next p more) ≤ n)
    → length (arg_round next buf) ≤ suc n
unfolding arg_round
length-arg_round next n [] h = omega arith
length-arg_round next n (c ∷ t) h = ground (arith, length-after_word next n (split_space (c ∷ t)) h)

length-arg_loop : (rounds : ℕ) (buf : Bytes) → length (arg_loop rounds buf) ≤ rounds + 2
unfolding arg_loop
length-arg_loop zero buf = length-arg_round _ 1 buf (λ p more. omega arith)
length-arg_loop (suc n) buf = omega (
  arith,
  length-arg_round (λ p more. arg_loop n more) (n + 2) buf (λ p more. length-arg_loop n more),
)

-- With the entry that the caller sets, `parv` never gets more than `MAXPARA` parameters, whatever the
-- message.
pub string_to_array-bounded : (s : Bytes) → suc (length (string_to_array s)) ≤ maxpara
unfolding string_to_array
string_to_array-bounded s = either (skip_spaces s)
  where
    either : (buf : Bytes) → suc (length (elim buf [ [] ↦ [] | c ∷ t ↦ arg_loop 12 (c ∷ t) ])) ≤ 15
    either [] = omega arith
    either (c ∷ t) = omega (arith, length-arg_loop 12 (c ∷ t))

abbrev pub NoSpace : Bytes → Type 0
NoSpace [] = Unit {0}
NoSpace (c ∷ t) = ((c == b' ') ≡ false) × NoSpace t

-- Not empty, with no space and no colon in front.
abbrev pub IsParam : Bytes → Type 0
IsParam [] = ⊥
IsParam (c ∷ t) = ((c == b':') ≡ false) × NoSpace (c ∷ t)

abbrev pub AreParams : List Bytes → Type 0
AreParams [] = Unit {0}
AreParams (w ∷ ws) = IsParam w × AreParams ws

-- The parameters with a space between.
abbrev pub join : List Bytes → Bytes
join [] = []
join (w ∷ []) = w
join (w ∷ v ∷ ws) = w ++ b' ' ∷ join (v ∷ ws)

pub split_space-word : (w : Bytes) → NoSpace w → split_space w ≡ (w, none)
unfolding split_space
split_space-word [] h = refl
split_space-word (c ∷ t) h = simp (h.0, split_space-word t h.1) refl

pub split_space-append : (w r : Bytes) → NoSpace w → split_space (w ++ b' ' ∷ r) ≡ (w, some r)
unfolding split_space
split_space-append [] r h = refl
split_space-append (c ∷ t) r h = simp (h.0, split_space-append t r h.1) refl

-- A word, and what the round does with the words behind it.
arg_round-last :
    (next : Bytes → Bytes → List Bytes) (w : Bytes) → IsParam w → arg_round next w ≡ w ∷ []
unfolding arg_round after_word
arg_round-last next [] h = absurd h
arg_round-last next (c ∷ t) h = simp (h.0, split_space-word (c ∷ t) h.1) refl

pub skip_spaces-word : (c : ℕ) (t : Bytes) → (c == b' ') ≡ false → skip_spaces (c ∷ t) ≡ c ∷ t
unfolding skip_spaces
skip_spaces-word c t h = rw h

after_word-more :
    (next : Bytes → Bytes → List Bytes) (w v r : Bytes)
    → IsParam v
    → after_word next (w, some (v ++ r)) ≡ w ∷ next (v ++ r) (v ++ r)
unfolding after_word next_word
after_word-more next w [] r h = absurd h
after_word-more next w (c ∷ t) r h =
    ap (next_word next w (c ∷ t ++ r)) (skip_spaces-word c (t ++ r) h.1.0)

arg_round-more :
    (next : Bytes → Bytes → List Bytes) (w v r : Bytes)
    → IsParam w
    → IsParam v
    → arg_round next (w ++ b' ' ∷ (v ++ r)) ≡ w ∷ next (v ++ r) (v ++ r)
unfolding arg_round
arg_round-more next [] v r hw hv = absurd hw
arg_round-more next (c ∷ t) v r hw hv =
    simp (hw.0, split_space-append (c ∷ t) (v ++ r) hw.1) (after_word-more next (c ∷ t) v r hv)

last_param-word : (v : Bytes) → IsParam v → last_param v ≡ v
unfolding last_param
last_param-word [] h = absurd h
last_param-word (c ∷ t) h = simp h.0 refl

-- The joined parameters begin with the first.
join-first : (v : Bytes) (ws : List Bytes) → (r : Bytes) × (join (v ∷ ws) ≡ v ++ r)
join-first v [] = ([], sym (append-nil v))
join-first v (w ∷ ws) = (b' ' ∷ join (w ∷ ws), refl)

arg_loop-join :
    (n : ℕ) (w : Bytes) (ws : List Bytes)
    → IsParam w
    → AreParams ws
    → length ws ≤ suc n
    → arg_loop n (join (w ∷ ws)) ≡ w ∷ ws
unfolding arg_loop
arg_loop-join zero w [] hw hs l = arg_round-last _ w hw
arg_loop-join (suc n) w [] hw hs l = arg_round-last _ w hw
arg_loop-join zero w (v ∷ []) hw hs l =
    ap (λ x. arg_round (λ p more. last_param p ∷ []) (w ++ b' ' ∷ x)) (sym (append-nil v))
    ∙ arg_round-more _ w v [] hw hs.0
    ∙ ap (λ x. w ∷ last_param x ∷ []) (append-nil v)
    ∙ ap (λ x. w ∷ x ∷ []) (last_param-word v hs.0)
arg_loop-join zero w (v ∷ u ∷ ws) hw hs l = absurd (omega arith)
arg_loop-join (suc n) w (v ∷ ws) hw hs l =
    let (r, e) = join-first v ws in
    ap (λ x. arg_round (λ p more. arg_loop n more) (w ++ b' ' ∷ x)) e
    ∙ arg_round-more _ w v r hw hs.0
    ∙ ap (λ x. w ∷ arg_loop n x) (sym e)
    ∙ ap (λ x. w ∷ x) (arg_loop-join n v ws hs.0 hs.1 (omega arith))

skip_spaces-join :
    (w : Bytes) (ws : List Bytes)
    → IsParam w
    → elim (skip_spaces (join (w ∷ ws))) [ [] ↦ [] | c ∷ t ↦ arg_loop 12 (c ∷ t) ]
      ≡ arg_loop 12 (join (w ∷ ws))
unfolding skip_spaces
skip_spaces-join [] ws h = absurd h
skip_spaces-join (c ∷ t) [] h = simp h.1.0 refl
skip_spaces-join (c ∷ t) (v ∷ ws) h = simp h.1.0 refl

-- Up to fourteen parameters, none of them empty, with a space or with a colon in front, are what the
-- code finds in their text with a space between.
pub string_to_array-join :
    (ws : List Bytes) → AreParams ws → length ws ≤ 14 → string_to_array (join ws) ≡ ws
unfolding string_to_array
string_to_array-join [] h l = refl
string_to_array-join (w ∷ ws) h l =
    skip_spaces-join w ws h.0 ∙ arg_loop-join 12 w ws h.0 h.1 (omega arith)
