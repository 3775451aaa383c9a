-- ===== src/Parse/Composed.antt =====
-- `parse` of src/parse.c on the whole line of a command: the command table, the parameters and the
-- checks of `handle_command` together.
use unirc_ircd.Prelude.{
  ℕ, suc, ◌+◌, ◌≤◌, ◌<◌, ◌≡◌, refl, ◌∙◌, ap, Bool, true, false, not, ◌||◌, none, some, List, [],
  ◌∷◌, ◌++◌, arith, ◌==◌, ltb, ==_refl, lt→ltb, if◌then◌else◌, length, all_below, all_below_sound,
}
use unirc_ircd.Chars.{Bytes, is_alpha, is_digit}
use unirc_ircd.Args.Params.{
  NoSpace, AreParams, join, split_space-append, skip_spaces-word, string_to_array-join,
}
use unirc_ircd.MsgTree.{find_command}
use unirc_ircd.MsgTree.Keys.{IsCommand}
use unirc_ircd.MsgTree.Commands.{IsWord}
use unirc_ircd.Directory.{is_server}
use unirc_ircd.Parse.Types.{need_more_params, drop_server, run, ParseState, count_message}
use unirc_ircd.Parse.{
  is_early, handle_command, numeric_code, with_params, word_command, parse_command, parse_prefix,
  parse,
}

letter_table :
    all_below 256 (λ c. not (is_alpha c) || not (is_digit c || (c == b' ' || c == b':'))) ≡ true
unfolding is_alpha is_digit
letter_table = refl

plain_letter :
    (c : ℕ)
    → c < 256
    → is_alpha c ≡ true
    → (is_digit c ≡ false) × (((c == b' ') ≡ false) × ((c == b':') ≡ false))
plain_letter c l h = ground (
  arith,
  all_below_sound 256 (λ d. not (is_alpha d) || not (is_digit d || (d == b' ' || d == b':'))) c
      letter_table l,
)

word-NoSpace : (cmd : Bytes) → IsCommand cmd → NoSpace cmd
word-NoSpace [] h = tt
word-NoSpace (c ∷ cmd) h = ((plain_letter c h.0 h.1).1.0, word-NoSpace cmd h.2)

numeric_code-letter : (c : ℕ) (t : Bytes) → is_digit c ≡ false → numeric_code (c ∷ t) ≡ none
unfolding numeric_code
numeric_code-letter c [] h = refl
numeric_code-letter c (d ∷ []) h = refl
numeric_code-letter c (d ∷ e ∷ []) h = refl
numeric_code-letter c (d ∷ e ∷ f ∷ t) h = ground arith

-- A line that begins with a command is looked up in the command table.
parse-command :
    (hide : Bool) (client : ℕ) (cmd text : Bytes) (s : ParseState)
    → (s.dir.peer client).is_defunct ≡ false
    → IsWord cmd
    → parse hide client (cmd ++ b' ' ∷ text) s ≡ word_command client client (cmd, some text) s
unfolding parse parse_prefix parse_command
parse-command hide client [] text s live h = absurd h
parse-command hide client (c ∷ cmd) text s live h =
    let plain = plain_letter c h.0 h.1 in
    simp
      (
        live,
        skip_spaces-word c (cmd ++ b' ' ∷ text) plain.1.0,
        parse_prefix,
        plain.1.1,
        parse_command,
        numeric_code-letter c (cmd ++ b' ' ∷ text) plain.0,
        split_space-append (c ∷ cmd) text (word-NoSpace (c ∷ cmd) h),
      )
      refl

-- What `handle_command` sees of a command that is in the table.
known-command :
    (client m : ℕ) (cmd : Bytes) (params : List Bytes) (s : ParseState)
    → find_command s.tree cmd ≡ some m
    → AreParams params
    → length params ≤ 14
    → word_command client client (cmd, some (join params)) s
      ≡ handle_command m client client
          (suc (length params))
          params
          (count_message s m (λ x. record x { bytes = x.bytes + length (join params) }))
unfolding word_command with_params
known-command client m cmd params s k ps l =
    rw (k, word_command)
      (ap
        (λ found.
          handle_command m client client (suc (length found)) found
            (count_message s m (λ x. record x { bytes = x.bytes + length (join params) })))
        (string_to_array-join params ps l))

not_less : (a b : ℕ) → a ≤ b → ltb b a ≡ false
not_less a b h = ground arith

-- The counters of the message at `m` after a command of a client, with what is behind its space.
abbrev pub counted : ParseState → ℕ → ℕ → ℕ → ParseState
counted s client m n =
    count_message (count_message s m (λ x. record x { bytes = x.bytes + n })) m (λ x. record x {
      rcount = if is_server (s.dir.peer client).status then x.rcount + 1 else x.rcount;
      count = x.count + 1;
    })

-- A line that is a command of the table, a space, and up to fourteen parameters with a space between, as
-- many as its message demands (a message that demands none, or one, is content with any), runs the
-- message's handler for the kind of the connection's client, for this client and with these parameters,
-- if the connection is neither defunct nor still connecting; the message's counts go up by one, its
-- bytes by the length of the parameters, and nothing else changes.
pub parse-run :
    (hide : Bool) (client m : ℕ) (cmd : Bytes) (params : List Bytes) (s : ParseState)
    → (s.dir.peer client).is_defunct ≡ false
    → is_early (s.dir.peer client).status ≡ false
    → IsWord cmd
    → find_command s.tree cmd ≡ some m
    → AreParams params
    → length params ≤ 14
    → (s.message m).parameters ≤ suc (length params)
    → parse hide client (cmd ++ b' ' ∷ join params) s
      ≡ (run (s.dir.peer client).handler m client params, counted s client m (length (join params)))
unfolding handle_command
parse-run hide client m cmd params s live ready h k ps l enough =
    parse-command hide client cmd (join params) s live h
    ∙ known-command client m cmd params s k ps l
    ∙ simp (==_refl m, ready, not_less (s.message m).parameters (suc (length params)) enough) refl

-- Fewer parameters than the message demands: the handler is not run. A server that sends so few is
-- dropped, a client is told; the call is counted all the same.
pub parse-too_few :
    (hide : Bool) (client m : ℕ) (cmd : Bytes) (params : List Bytes) (s : ParseState)
    → (s.dir.peer client).is_defunct ≡ false
    → is_early (s.dir.peer client).status ≡ false
    → IsWord cmd
    → find_command s.tree cmd ≡ some m
    → AreParams params
    → length params ≤ 14
    → suc (length params) < (s.message m).parameters
    → parse hide client (cmd ++ b' ' ∷ join params) s ≡ (
      if is_server (s.dir.peer client).status then drop_server else need_more_params,
      counted s client m (length (join params)),
    )
unfolding handle_command
parse-too_few hide client m cmd params s live ready h k ps l few =
    parse-command hide client cmd (join params) s live h
    ∙ known-command client m cmd params s k ps l
    ∙ simp (==_refl m, ready, lt→ltb (suc (length params)) (s.message m).parameters few) refl
