-- ===== src/Sjoin/Relay/Steps.antt =====
-- Each letter of the modes of modules/core/m_sjoin.c, read with its parameter.
use unirc_ircd.Prelude.{
  ap, ℕ, ◌<◌, ◌≤◌, ◌^◌, ◌≡◌, refl, ◌∙◌, Bool, true, false, Option, none, some, List, [], ◌∷◌, ◌++◌,
  arith, ◌==◌, length, Bool-cases, inl, inr,
}
use unirc_ircd.Chars.{Bytes}
use unirc_ircd.Modes.Types.{Flag, put_flag, ChannelMode}
use unirc_ircd.Dbuf.Contents.{take_all}
use unirc_ircd.Modes.Masks.Undo.{split_on-first}
use unirc_ircd.Modes.Params.{is_decimal, print_int}
use unirc_ircd.Modes.Params.Print.{print_int-Numeral, atoi-print_int}
use unirc_ircd.Modes.Show.{flags, simple_letters}
use unirc_ircd.Sjoin.Letters.{
  sjoin_flags, flag_of, no_modes, set_by, sjoin_letter, sjoin_modes, after_param,
}
use unirc_ircd.Sjoin.Final.Told.{Reads, read_flags}
use unirc_ircd.Sjoin.Relay.Words.{Numeral-Without}

-- A table whose letters are those of no mode with a parameter.
abbrev Plain : List (Flag × ℕ) → Type 0
Plain [] = Unit {0}
Plain ((f, c) ∷ fs) =
    ((c == b'F') ≡ false)
    × ((c == b'f') ≡ false)
    × ((c == b'k') ≡ false)
    × ((c == b'l') ≡ false)
    × Plain fs

flags-Plain : Plain flags
flags-Plain = ground arith

pub flags-Reads : Reads flags
unfolding flag_of
flags-Reads = ground arith

abbrev pub with_flags : (Flag → Bool) → ChannelMode
with_flags k = record no_modes { mode = k }

-- A letter that is read, and the letters behind it.
pub letter_step :
    (c : ℕ) (s : Bytes) (ps qs : List Bytes) (m n : ChannelMode)
    → sjoin_letter c ps m ≡ some (n, qs)
    → sjoin_modes (c ∷ s) ps m ≡ sjoin_modes s qs n
unfolding sjoin_modes
letter_step c s ps qs m n e =
    ap
      (λ (o : Option (ChannelMode × List Bytes)).
        elim o as (λ x. Option (ChannelMode × List Bytes)) [
          | none ↦ none
          | some (m1, ps1) ↦ sjoin_modes s ps1 m1
        ])
      e

plain_letter :
    (f : Flag) (c : ℕ) (p : Bytes) (ps : List Bytes) (m : ChannelMode)
    → flag_of sjoin_flags c ≡ some f
    → (c == b'F') ≡ false
    → (c == b'f') ≡ false
    → (c == b'k') ≡ false
    → (c == b'l') ≡ false
    → sjoin_letter c (p ∷ ps) m ≡ some (set_by (some f) m, p ∷ ps)
unfolding sjoin_letter
plain_letter f c p ps m e n1 n2 n3 n4 = rw n1 (rw n2 (rw n3 (rw n4 (rw e refl))))

flags_read :
    (q : Flag → Bool) (fs : List (Flag × ℕ)) (rest : Bytes) (p : Bytes) (ps : List Bytes)
    (k : Flag → Bool)
    → Reads fs
    → Plain fs
    → sjoin_modes (simple_letters q fs ++ rest) (p ∷ ps) (with_flags k)
      ≡ sjoin_modes rest (p ∷ ps) (with_flags (read_flags true (simple_letters q fs) k))
unfolding simple_letters read_flags
flags_read q [] rest p ps k r h = refl
flags_read q ((f, c) ∷ fs) rest p ps k (u, v, e, r) (n1, n2, n3, n4, h) = elim (Bool-cases (q f)) [
  | inl y ↦ rw y (
      letter_step c (simple_letters q fs ++ rest) (p ∷ ps) (p ∷ ps) (with_flags k) _
        (plain_letter f c p ps (with_flags k) e n1 n2 n3 n4)
      ∙ flags_read q fs rest p ps (put_flag f true k) r h
      ∙ rw u (rw v (rw e refl)))
  | inr y ↦ rw y (flags_read q fs rest p ps k r h)
]

-- The sign and the flags, where the nicks come last.
pub signed_read :
    (q : Flag → Bool) (rest : Bytes) (ws : List Bytes) (nicks : Bytes)
    → sjoin_modes (b'+' ∷ simple_letters q flags ++ rest) (ws ++ nicks ∷ []) no_modes
      ≡ sjoin_modes rest
          (ws ++ nicks ∷ [])
          (with_flags (read_flags true (simple_letters q flags) (λ f. false)))
unfolding sjoin_modes sjoin_letter flag_of
signed_read q rest [] nicks = flags_read q flags rest nicks [] (λ f. false) flags-Reads flags-Plain
signed_read q rest (w ∷ ws) nicks =
    flags_read q flags rest w (ws ++ nicks ∷ []) (λ f. false) flags-Reads flags-Plain

-- What is behind the parameters is there to be read, at least the nicks.
more_params :
    (m : ChannelMode) (qs : List Bytes) (nicks : Bytes)
    → after_param m (qs ++ nicks ∷ []) ≡ some (m, qs ++ nicks ∷ [])
more_params m [] nicks = refl
more_params m (q ∷ qs) nicks = refl

pub limit_letter :
    (n : ℕ) (qs : List Bytes) (nicks : Bytes) (m : ChannelMode)
    → n < 2 ^ 31
    → sjoin_letter b'l' (print_int n ∷ qs ++ nicks ∷ []) m
      ≡ some (record m { limit = n }, qs ++ nicks ∷ [])
unfolding sjoin_letter
limit_letter n qs nicks m h =
    rw (atoi-print_int n h) (more_params (record m { limit = n }) qs nicks)

pub forward_letter :
    (s : Bytes) (qs : List Bytes) (nicks : Bytes) (m : ChannelMode)
    → length s ≤ 127
    → sjoin_letter b'F' (s ∷ qs ++ nicks ∷ []) m ≡ some (record m { forward = s }, qs ++ nicks ∷ [])
unfolding sjoin_letter
forward_letter s qs nicks m h =
    rw (take_all 127 s h) (more_params (record m { forward = s }) qs nicks)

pub key_letter :
    (s : Bytes) (qs : List Bytes) (nicks : Bytes) (m : ChannelMode)
    → length s ≤ 23
    → sjoin_letter b'k' (s ∷ qs ++ nicks ∷ []) m ≡ some (record m { key = s }, qs ++ nicks ∷ [])
unfolding sjoin_letter
key_letter s qs nicks m h = rw (take_all 23 s h) (more_params (record m { key = s }) qs nicks)

pub flood_letter :
    (a b : ℕ) (qs : List Bytes) (nicks : Bytes) (m : ChannelMode)
    → 0 < a
    → 0 < b
    → a < 99
    → b < 99
    → sjoin_letter b'f' ((print_int a ++ b':' ∷ print_int b) ∷ qs ++ nicks ∷ []) m
      ≡ some (record m { msgs = a; per = b }, qs ++ nicks ∷ [])
unfolding sjoin_letter
flood_letter a b qs nicks m p q u v =
    let colon : is_decimal b':' ≡ false = refl in
    rw
      (split_on-first b':' (print_int a) (print_int b)
        (Numeral-Without b':' (print_int a) colon (print_int-Numeral a (omega (arith, u)))))
      (rw (atoi-print_int a (omega (arith, u))) (
        rw (atoi-print_int b (omega (arith, v)))
          (ground (arith, p, q, u, v) ∙ more_params (record m { msgs = a; per = b }) qs nicks)))
