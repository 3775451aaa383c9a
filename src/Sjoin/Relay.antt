-- ===== src/Sjoin/Relay.antt =====
-- The modes that `channel_modes` of src/channel_mode.c writes for a burst, read by `ms_sjoin` of modules/core/m_sjoin.c.
pub mod Words
pub mod Steps
use mathlib.Core.Bool.{true≢false}
use unirc_ircd.Prelude.{
  ap, ℕ, zero, suc, ◌+◌, ◌-◌, ◌<◌, ◌≤◌, ◌^◌, ◌≡◌, refl, sym, ◌∙◌, Bool, true, false, not, ◌&&◌,
  ◌||◌, Option, none, some, List, [], ◌∷◌, ◌++◌, append_assoc, append-nil, arith, ◌==◌, ==_refl,
  ==_iff, ltb, leb, if◌then◌else◌, take, length, Bool-cases, inl, inr,
}
use mathlib.Core.Path.{fun_ext}
use unirc_ircd.Chars.{Bytes}
use unirc_ircd.Modes.Types.{
  Flag, put_flag, bit, ChannelMode, private, secret, moderated, topic_limit, invite_only,
  no_privmsgs, reg_only, no_ctrl, oper_only, mod_reg, no_spam, bw_saver, no_notices, chan_reg,
  strip_color, no_flood, ssl_only,
}
use unirc_ircd.Dbuf.Contents.{take_all}
use unirc_ircd.Modes.Masks.{split_on}
use unirc_ircd.Modes.Masks.Undo.{Without, split_on-first}
use unirc_ircd.Modes.Params.{is_decimal, atoi, print_int, keylen, forward_size, is_negative}
use unirc_ircd.Modes.Params.Print.{Digits, Numeral, print_int-Numeral, atoi-print_int}
use unirc_ircd.Modes.Show.{
  flags, simple_letters, letter_if, has_text, has_floodtime, spaced, mode_letters, mode_params,
  at_pbuf, channel_modes,
}
use unirc_ircd.Sjoin.Letters.{
  sjoin_flags, flag_of, no_modes, set_by, sjoin_letter, sjoin_modes, after_param, flood_param,
  flood_next,
}
use unirc_ircd.Sjoin.Members.{nick_words, put_first}
use unirc_ircd.Sjoin.Final.Told.{in_table, Reads, read_flags, read_flags-simple_letters}
use unirc_ircd.Sjoin.Relay.Words.{
  nick_words-spaced, Numeral-Without, spaced_word, pbuf_words, flood_word,
}
use unirc_ircd.Sjoin.Relay.Steps.{
  flags-Reads, with_flags, letter_step, signed_read, limit_letter, forward_letter, key_letter,
  flood_letter,
}

-- The modes that have a parameter of which `channel_modes` writes one only.
abbrev one_of : (Flag → Bool) → ℕ → Bytes → Bytes → ℕ → ℕ → ChannelMode
one_of k limit key forward msgs per = record {
  mode = k;
  limit = limit;
  key = key;
  forward = forward;
  msgs = msgs;
  per = per;
}

unlimited :
    (m : ChannelMode) (k : Flag → Bool) (key forward nicks : Bytes)
    → (m.msgs ≡ 0) × (m.per ≡ 0)
    → (◌≡◌ {A = Option (ChannelMode × List Bytes)}
        (some (one_of k m.limit key forward 0 0, nicks ∷ []))
        (some (one_of k m.limit key forward m.msgs m.per, nicks ∷ [])))
unlimited m k key forward nicks (a, b) =
    ap (λ x. some (one_of k m.limit key forward x 0, nicks ∷ [])) (sym a)
    ∙ ap (λ x. some (one_of k m.limit key forward m.msgs x, nicks ∷ [])) (sym b)

one_read :
    (m : ChannelMode) (k : Flag → Bool) (forward key : Bytes) (fl : Bool) (nicks : Bytes)
    → has_floodtime m ≡ fl
    → ((has_text forward && (has_text key || fl)) || (has_text key && fl)) ≡ false
    → Without b' ' forward
    → length forward ≤ 127
    → Without b' ' key
    → length key ≤ 23
    → (fl ≡ false → (m.msgs ≡ 0) × (m.per ≡ 0))
    → m.msgs < 99
    → m.per < 99
    → sjoin_modes
        (letter_if (has_text forward) b'F' ++ (letter_if (has_text key) b'k' ++ letter_if fl b'f'))
        (nick_words (at_pbuf true (record m { forward = forward; key = key })) ++ nicks ∷ [])
        (one_of k m.limit [] [] 0 0)
      ≡ some (one_of k m.limit key forward m.msgs m.per, nicks ∷ [])
unfolding sjoin_modes nick_words
one_read m k (c ∷ s) (d ∷ t) fl nicks e o wf lf wk lk bare u v = absurd (true≢false o)
one_read m k (c ∷ s) [] true nicks e o wf lf wk lk bare u v = absurd (true≢false o)
one_read m k [] (d ∷ t) true nicks e o wf lf wk lk bare u v = absurd (true≢false o)
one_read m k [] [] false nicks e o wf lf wk lk bare u v =
    ap (λ ws. sjoin_modes [] (ws ++ nicks ∷ []) (one_of k m.limit [] [] 0 0))
      (pbuf_words (record m { forward = []; key = [] }) false e)
    ∙ unlimited m k [] [] nicks (bare refl)
one_read m k (c ∷ s) [] false nicks e o wf lf wk lk bare u v =
    ap (λ ws. sjoin_modes (b'F' ∷ []) (ws ++ nicks ∷ []) (one_of k m.limit [] [] 0 0))
      (pbuf_words (record m { forward = c ∷ s; key = [] }) false e
        ∙ spaced_word (c ∷ s) (omega arith) wf)
    ∙ letter_step b'F' [] _ (nicks ∷ []) _ _
        (forward_letter (c ∷ s) [] nicks (one_of k m.limit [] [] 0 0) lf)
    ∙ unlimited m k [] (c ∷ s) nicks (bare refl)
one_read m k [] (d ∷ t) false nicks e o wf lf wk lk bare u v =
    ap (λ ws. sjoin_modes (b'k' ∷ []) (ws ++ nicks ∷ []) (one_of k m.limit [] [] 0 0))
      (pbuf_words (record m { forward = []; key = d ∷ t }) false e
        ∙ spaced_word (d ∷ t) (omega arith) wk)
    ∙ letter_step b'k' [] _ (nicks ∷ []) _ _
        (key_letter (d ∷ t) [] nicks (one_of k m.limit [] [] 0 0) lk)
    ∙ unlimited m k (d ∷ t) [] nicks (bare refl)
one_read m k [] [] true nicks e o wf lf wk lk bare u v =
    ap (λ ws. sjoin_modes (b'f' ∷ []) (ws ++ nicks ∷ []) (one_of k m.limit [] [] 0 0))
      (pbuf_words (record m { forward = []; key = [] }) true e ∙ flood_word m.msgs m.per u v)
    ∙ letter_step b'f' [] _ (nicks ∷ []) _ _ (
        flood_letter m.msgs m.per [] nicks (one_of k m.limit [] [] 0 0) (ground (arith, e))
          (ground (arith, e)) u v)

limit_read :
    (n : ℕ) (rest t : Bytes) (nicks : Bytes) (k : Flag → Bool)
    → n < 2 ^ 31
    → sjoin_modes
        (letter_if (not (n == 0)) b'l' ++ rest)
        (nick_words ((if not (n == 0) then spaced (print_int n) else []) ++ t) ++ nicks ∷ [])
        (one_of k 0 [] [] 0 0)
      ≡ sjoin_modes rest (nick_words t ++ nicks ∷ []) (one_of k n [] [] 0 0)
limit_read n rest t nicks k h = elim (Bool-cases (n == 0)) [
  | inl e ↦ rw e (
      ap (λ x. sjoin_modes rest (nick_words t ++ nicks ∷ []) (one_of k x [] [] 0 0))
        (sym ((==_iff n 0).0 e)))
  | inr e ↦ rw e (
      ap (λ ws. sjoin_modes (b'l' ∷ rest) (ws ++ nicks ∷ []) (one_of k 0 [] [] 0 0))
        (word (print_int n) (print_int-Numeral n h))
      ∙ letter_step b'l' rest _ (nick_words t ++ nicks ∷ []) _ _
          (limit_letter n (nick_words t) nicks (one_of k 0 [] [] 0 0) h))
]
  where
    word : (s : Bytes) → Numeral s → nick_words (spaced s ++ t) ≡ s ∷ nick_words t
    word [] d = absurd d
    word (c ∷ s) d = nick_words-spaced c s t (Numeral-Without b' ' (c ∷ s) refl d)

same_flags : (g : Flag) → in_table g flags ≡ in_table g sjoin_flags
same_flags private = refl
same_flags secret = refl
same_flags moderated = refl
same_flags topic_limit = refl
same_flags invite_only = refl
same_flags no_privmsgs = refl
same_flags reg_only = refl
same_flags no_ctrl = refl
same_flags oper_only = refl
same_flags mod_reg = refl
same_flags no_spam = refl
same_flags bw_saver = refl
same_flags no_notices = refl
same_flags chan_reg = refl
same_flags strip_color = refl
same_flags no_flood = refl
same_flags ssl_only = refl

read_back :
    (q : Flag → Bool)
    → read_flags true (simple_letters q flags) (λ f. false) ≡ (λ f. q f && in_table f sjoin_flags)
read_back q =
    fun_ext λ g. read_flags-simple_letters true q flags (λ f. false) g flags-Reads ∙ same_table g
  where
    shown : (a b : Bool) → (if a && b then true else false) ≡ (a && b)
    shown a b = ground arith

    same_table :
        (g : Flag)
        → (if q g && in_table g flags then true else false) ≡ (q g && in_table g sjoin_flags)
    same_table g = shown (q g) (in_table g flags) ∙ ap (λ b. q g && b) (same_flags g)

and_true : (b : Bool) → (b && true) ≡ b
and_true true = refl
and_true false = refl

nested : (a b c d e : Bytes) → a ++ b ++ c ++ d ++ e ≡ a ++ (b ++ (c ++ (d ++ e)))
nested a b c d e =
    append_assoc (a ++ b ++ c) d e
    ∙ append_assoc (a ++ b) c (d ++ e)
    ∙ append_assoc a b (c ++ (d ++ e))

-- Modes that fit a message: a limit that is a positive int, a key and forward channels without spaces and no longer than
-- they may be, numbers of +f that are both 0 or both from 1 to 98; and one of forward channels, key and +f at most.
pub record IsSendable (m : ChannelMode) : Type 0 where
  pub limit : m.limit < 2 ^ 31
  pub key : Without b' ' m.key
  pub key_fits : length m.key ≤ 23
  pub forward : Without b' ' m.forward
  pub forward_fits : length m.forward ≤ 127
  pub msgs : m.msgs < 99
  pub per : m.per < 99
  pub both : (m.msgs == 0) ≡ (m.per == 0)
  pub at_most_one :
      ((has_text m.forward && (has_text m.key || has_floodtime m))
        || (has_text m.key && has_floodtime m))
      ≡ false

-- If at most one of forward channels, key and the numbers of +f is set, of which `channel_modes` writes one over the
-- other, then the letters and parameters that it writes, the parameters split at spaces and followed by the nicks, are
-- read by `ms_sjoin` as the same modes but for the flag of secure connections, which is lost, and the nicks are left.
-- It is asked besides that the limit is below 2 ^ 31, that a key of at most 23 bytes and forward channels of at most
-- 127 have no space, and that the numbers of +f are below 99 and both 0 or neither.
pub channel_modes-sjoin_modes :
    (m : ChannelMode) (nicks : Bytes)
    → IsSendable m
    → sjoin_modes
        (channel_modes true m).0
        (nick_words (channel_modes true m).1 ++ nicks ∷ [])
        no_modes
      ≡ some (record m { mode = λ f. m.mode f && in_table f sjoin_flags }, nicks ∷ [])
unfolding channel_modes mode_letters mode_params
channel_modes-sjoin_modes m nicks s =
    let rest =
      letter_if (has_text m.forward) b'F'
      ++ (letter_if (has_text m.key) b'k' ++ letter_if (has_floodtime m) b'f') in
    let k = read_flags true (simple_letters m.mode flags) (λ f. false) in
    ap (λ letters. sjoin_modes letters (nick_words (mode_params true m) ++ nicks ∷ []) no_modes)
      (nested (b'+' ∷ simple_letters m.mode flags) (letter_if (not (m.limit == 0)) b'l')
        (letter_if (has_text m.forward) b'F') (letter_if (has_text m.key) b'k')
        (letter_if (has_floodtime m) b'f'))
    ∙ signed_read m.mode (letter_if (not (m.limit == 0)) b'l' ++ rest)
        (nick_words (mode_params true m)) nicks
    ∙ ap
        (λ b.
          sjoin_modes (letter_if (not (m.limit == 0)) b'l' ++ rest)
            (nick_words ((if b then spaced (print_int m.limit) else []) ++ at_pbuf true m)
              ++ nicks ∷ [])
            (with_flags k))
        (and_true (not (m.limit == 0)))
    ∙ limit_read m.limit rest (at_pbuf true m) nicks k s.limit
    ∙ one_read m k m.forward m.key (has_floodtime m) nicks refl s.at_most_one s.forward
        s.forward_fits s.key s.key_fits
        (λ e. (ground (arith, e, s.both), ground (arith, e, s.both))) s.msgs s.per
    ∙ ap (λ f. some (record m { mode = f }, nicks ∷ [])) (read_back m.mode)
