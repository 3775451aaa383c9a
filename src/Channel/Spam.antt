-- ===== src/Channel/Spam.antt =====
-- `msg_has_ctrls` and `check_nospam` of src/channel.c: channel modes +c and +S, and the name check that
-- `can_send` makes with them. `strstr` and `strchr` are the C library's.
use unirc_ircd.Prelude.{
  ℕ, zero, suc, ◌≡◌, ◌≤◌, refl, sym, ◌∙◌, ap, Bool, true, false, not, ◌&&◌, ◌||◌, List, [], ◌∷◌,
  ◌++◌, arith, ◌==◌, ltb, length, if◌then◌else◌,
}
use unirc_ircd.Chars.{Bytes, to_lower, is_digit}

-- `msg_has_ctrls`, on a text that is not NULL.
unfoldable pub msg_has_ctrls : Bytes → Bool
msg_has_ctrls [] = false
msg_has_ctrls (c ∷ []) = not (ltb 31 c || c == 1)
msg_has_ctrls (c ∷ d ∷ t) =
    let on = msg_has_ctrls (d ∷ t) in
    let shifted = msg_has_ctrls t in
    if ltb 31 c
    then on
    else if c == 1
    then on
    else if c == 27 && (d == b'$' || d == b'(')
    then shifted
    else true

drop_digit : Bytes → Bytes
drop_digit [] = []
drop_digit (c ∷ t) = if is_digit c then t else c ∷ t

-- `if(*t == ',') { if(IsDigit(t[1])) t += 2; if(IsDigit(*t)) t++; }`
background : Bytes → Bytes
background [] = []
background (c ∷ []) = c ∷ []
background (c ∷ d ∷ t) =
    if c == b',' then if is_digit d then drop_digit t else c ∷ d ∷ t else c ∷ d ∷ t

-- What is left behind a ^C: its colour goes too, if it starts with a digit.
after_colour : Bytes → Bytes
after_colour [] = []
after_colour (c ∷ t) = if is_digit c then background (drop_digit t) else c ∷ t

abbrev pub is_code : ℕ → Bool
is_code c = c == 2 || c == 3 || c == 7 || c == 0x16 || c == 0x1f

-- The loop that fills `auxbuf`; the fuel is at least the length of the text.
pub strip_codes : ℕ → Bytes → Bytes
strip_codes f [] = []
strip_codes zero (c ∷ t) = []
strip_codes (suc f) (c ∷ t) =
    let rest = strip_codes f (if c == 3 then after_colour t else t) in
    if is_code c then rest else to_lower c ∷ rest

pub is_prefix : Bytes → Bytes → Bool
is_prefix [] s = true
is_prefix (p ∷ ps) [] = false
is_prefix (p ∷ ps) (c ∷ s) = if p == c then is_prefix ps s else false

pub strstr : Bytes → Bytes → Bool
strstr [] word = is_prefix word []
strstr (c ∷ s) word = if is_prefix word (c ∷ s) then true else strstr s word

abbrev pub spam_words : List Bytes
spam_words =
    (b'h' ∷ b't' ∷ b't' ∷ b'p' ∷ [])
    ∷ (b'w' ∷ b'w' ∷ b'w' ∷ b'.' ∷ [])
    ∷ (b'/' ∷ b's' ∷ b'e' ∷ b'r' ∷ b'v' ∷ b'e' ∷ b'r' ∷ [])
    ∷ (b'i' ∷ b'r' ∷ b'c' ∷ b'.' ∷ [])
    ∷ (b'f' ∷ b't' ∷ b'p' ∷ b':' ∷ b'/' ∷ b'/' ∷ [])
    ∷ []

pub has_word : List Bytes → Bytes → Bool
has_word [] s = false
has_word (w ∷ ws) s = if strstr s w then true else has_word ws s

-- `check_nospam`: true is its -1, a spam text.
unfoldable pub check_nospam : Bytes → Bool
unfolding strip_codes after_colour background drop_digit has_word strstr is_prefix
check_nospam text = has_word spam_words (strip_codes (length text) text)

length-drop_digit : (t : Bytes) → length (drop_digit t) ≤ length t
unfolding drop_digit
length-drop_digit [] = omega arith
length-drop_digit (c ∷ t) = ground arith

length-background : (t : Bytes) → length (background t) ≤ length t
unfolding background
length-background [] = omega arith
length-background (c ∷ []) = omega arith
length-background (c ∷ d ∷ t) = ground (arith, length-drop_digit t)

length-after_colour : (t : Bytes) → length (after_colour t) ≤ length t
unfolding after_colour
length-after_colour [] = omega arith
length-after_colour (c ∷ t) = ground (arith, length-background (drop_digit t), length-drop_digit t)

-- The stripped text and its NUL fit in the 512 bytes of `auxbuf`, if the text is at most 511 bytes.
pub strip_codes-bounded : (f : ℕ) (t : Bytes) → length (strip_codes f t) ≤ length t
unfolding strip_codes
strip_codes-bounded f [] = omega arith
strip_codes-bounded zero (c ∷ t) = omega arith
strip_codes-bounded (suc f) (c ∷ t) =
    ground (
      arith,
      strip_codes-bounded f (after_colour t),
      strip_codes-bounded f t,
      length-after_colour t,
    )

-- More fuel than the length of the text changes nothing.
strip_codes-fuel :
    (f g : ℕ) (t : Bytes) → length t ≤ f → length t ≤ g → strip_codes f t ≡ strip_codes g t
unfolding strip_codes
strip_codes-fuel f g [] hf hg = refl
strip_codes-fuel zero g (c ∷ t) hf hg = absurd (omega arith)
strip_codes-fuel (suc f) zero (c ∷ t) hf hg = absurd (omega arith)
strip_codes-fuel (suc f) (suc g) (c ∷ t) hf hg = ground (
  arith,
  strip_codes-fuel f g t (omega arith) (omega arith),
  strip_codes-fuel f g (after_colour t) (omega (arith, length-after_colour t))
      (omega (arith, length-after_colour t)),
)

-- The text in lower case without its codes, where no colour code takes digits with it.
abbrev pub visible : Bytes → Bytes
visible [] = []
visible (c ∷ t) = if is_code c then visible t else to_lower c ∷ visible t

abbrev pub NoColour : Bytes → Type 0
NoColour [] = Unit {0}
NoColour (c ∷ t) = ((c == 3) ≡ false) × NoColour t

strip_codes-visible : (f : ℕ) (t : Bytes) → length t ≤ f → NoColour t → strip_codes f t ≡ visible t
unfolding strip_codes
strip_codes-visible f [] hf h = refl
strip_codes-visible zero (c ∷ t) hf h = absurd (omega arith)
strip_codes-visible (suc f) (c ∷ t) hf h = rw (h.0, strip_codes-visible f t (omega arith) h.1)

visible-code :
    (xs : Bytes) (c : ℕ) (ys : Bytes)
    → is_code c ≡ true
    → visible (xs ++ c ∷ ys) ≡ visible (xs ++ ys)
visible-code [] c ys h = rw h
visible-code (x ∷ xs) c ys h = rw (visible-code xs c ys h)

NoColour-without : (xs : Bytes) (c : ℕ) (ys : Bytes) → NoColour (xs ++ c ∷ ys) → NoColour (xs ++ ys)
NoColour-without [] c ys h = h.1
NoColour-without (x ∷ xs) c ys h = (h.0, NoColour-without xs c ys h.1)

-- In a text without colour codes, a bold, bell, reverse or underline code anywhere, inside a word or
-- not, does not change what `check_nospam` finds.
check_nospam-code :
    (xs : Bytes) (c : ℕ) (ys : Bytes)
    → is_code c ≡ true
    → NoColour (xs ++ c ∷ ys)
    → check_nospam (xs ++ c ∷ ys) ≡ check_nospam (xs ++ ys)
unfolding check_nospam
check_nospam-code xs c ys h k = ap (has_word spam_words) (
    strip_codes-visible _ (xs ++ c ∷ ys) (omega arith) k
    ∙ visible-code xs c ys h
    ∙ sym (strip_codes-visible _ (xs ++ ys) (omega arith) (NoColour-without xs c ys k)))
