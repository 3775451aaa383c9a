-- ===== src/MsgTree/Keys.antt =====
-- A command as the sequence of the pointers that it follows, in the trie of src/parse.c.
use unirc_ircd.Prelude.{
  ℕ, zero, suc, ◌+◌, ◌%◌, ◌<◌, ◌≡◌, ◌↔◌, refl, ap, Bool, true, false, not, ◌||◌, ◌&&◌, List, [],
  ◌∷◌, map, arith, ◌==◌, if◌then◌else◌, all_below, all_below_sound, Option, none, some,
}
use unirc_ircd.Chars.{Bytes, is_alpha, to_upper}
use unirc_ircd.MsgTree.{ptr_index, MessageTree, Pointers, nil, null, child, get_ptr, set_ptr}

abbrev pub key_of : Bytes → List ℕ
key_of cmd = map ptr_index cmd

abbrev pub same_key : List ℕ → List ℕ → Bool
same_key [] [] = true
same_key [] (j ∷ k) = false
same_key (i ∷ h) [] = false
same_key (i ∷ h) (j ∷ k) = i == j && same_key h k

abbrev pub IsCommand : Bytes → Type 0
IsCommand [] = Unit {0}
IsCommand (c ∷ cmd) = (c < 256) × (is_alpha c ≡ true) × IsCommand cmd

alpha_table : all_below 256 (λ c. not (is_alpha c) || (to_upper c == 64 + c % 32)) ≡ true
unfolding is_alpha to_upper
alpha_table = refl

to_upper-alpha : (c : ℕ) → c < 256 → is_alpha c ≡ true → to_upper c ≡ 64 + c % 32
to_upper-alpha c h a = ground (
  arith,
  all_below_sound 256 (λ d. not (is_alpha d) || (to_upper d == 64 + d % 32)) c alpha_table h,
)

-- Two commands take the same path exactly if they are equal in upper case.
pub same_key_iff :
    (s t : Bytes)
    → IsCommand s
    → IsCommand t
    → (same_key (key_of s) (key_of t) ≡ true) ↔ (map to_upper s ≡ map to_upper t)
same_key_iff [] [] hs ht = (λ e. refl, λ e. refl)
same_key_iff [] (d ∷ t) hs ht = (λ e. cc, λ e. cc)
same_key_iff (c ∷ s) [] hs ht = (λ e. cc, λ e. cc)
same_key_iff (c ∷ s) (d ∷ t) hs ht =
    let ec = to_upper-alpha c hs.0 hs.1 in
    let ed = to_upper-alpha d ht.0 ht.1 in
    let ih = same_key_iff s t hs.2 ht.2 in
    (
      λ e. cc (ih.0 (ground (arith, e)), upper_eq ec ed (ground (arith, e))),
      λ e. ground (arith, ih.1 (cc e), ec, ed, head_eq e),
    )
  where
    upper_eq :
        to_upper c ≡ 64 + c % 32
        → to_upper d ≡ 64 + d % 32
        → c % 32 ≡ d % 32
        → to_upper c ≡ to_upper d
    upper_eq ec ed e = omega arith

    head_eq : map to_upper (c ∷ s) ≡ map to_upper (d ∷ t) → to_upper c ≡ to_upper d
    head_eq e = cc e

abbrev pub size : Pointers → ℕ
size nil = 0
size (null ps) = suc (size ps)
size (child t ps) = suc (size ps)

pub get_ptr-set_ptr :
    (ps : Pointers) (i j : ℕ) (o : Option MessageTree)
    → i < size ps
    → get_ptr (set_ptr ps i o) j ≡ (if i == j then o else get_ptr ps j)
unfolding get_ptr set_ptr
get_ptr-set_ptr nil i j o h = elim h [ ]
get_ptr-set_ptr (null ps) zero zero none h = refl
get_ptr-set_ptr (null ps) zero zero (some t) h = refl
get_ptr-set_ptr (null ps) zero (suc j) none h = ground arith
get_ptr-set_ptr (null ps) zero (suc j) (some t) h = ground arith
get_ptr-set_ptr (null ps) (suc i) zero o h = ground arith
get_ptr-set_ptr (null ps) (suc i) (suc j) o h =
    ground (arith, get_ptr-set_ptr ps i j o (omega arith))
get_ptr-set_ptr (child t ps) zero zero none h = refl
get_ptr-set_ptr (child t ps) zero zero (some u) h = refl
get_ptr-set_ptr (child t ps) zero (suc j) none h = ground arith
get_ptr-set_ptr (child t ps) zero (suc j) (some u) h = ground arith
get_ptr-set_ptr (child t ps) (suc i) zero o h = ground arith
get_ptr-set_ptr (child t ps) (suc i) (suc j) o h =
    ground (arith, get_ptr-set_ptr ps i j o (omega arith))

pub size-set_ptr :
    (ps : Pointers) (i : ℕ) (o : Option MessageTree) → size (set_ptr ps i o) ≡ size ps
unfolding set_ptr
size-set_ptr nil i o = refl
size-set_ptr (null ps) zero none = refl
size-set_ptr (null ps) zero (some t) = refl
size-set_ptr (null ps) (suc i) o = ap suc (size-set_ptr ps i o)
size-set_ptr (child t ps) zero none = refl
size-set_ptr (child t ps) zero (some u) = refl
size-set_ptr (child t ps) (suc i) o = ap suc (size-set_ptr ps i o)
