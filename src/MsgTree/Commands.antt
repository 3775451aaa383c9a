-- ===== src/MsgTree/Commands.antt =====
-- `mod_add_cmd`, `mod_del_cmd` and `find_command` of src/parse.c.
use unirc_ircd.Prelude.{
  ℕ, ◌≡◌, ◌≢◌, ◌↔◌, refl, sym, ◌∙◌, ap, Bool, true, false, List, [], ◌∷◌, map, arith, if◌then◌else◌,
  Option, none, some,
}
use unirc_ircd.Chars.{Bytes, to_upper}
use unirc_ircd.MsgTree.{
  MessageTree, add_msg_element, del_msg_element, msg_tree_parse, Message, mod_add_cmd, mod_del_cmd,
  find_command,
}
use unirc_ircd.MsgTree.Keys.{key_of, same_key, same_key_iff, IsCommand}
use unirc_ircd.MsgTree.Lookup.{lookup, IsValid, parse_from-lookup}
use unirc_ircd.MsgTree.Add.{lookup-add, add-IsValid}
use unirc_ircd.MsgTree.Del.{Removes, del-Removes}

-- A command that is not empty, of letters only.
abbrev pub IsWord : Bytes → Type 0
IsWord [] = ⊥
IsWord (c ∷ cmd) = IsCommand (c ∷ cmd)

pub find-lookup :
    (t : MessageTree) (cmd : Bytes) → IsWord cmd → find_command t cmd ≡ lookup t (key_of cmd)
unfolding find_command msg_tree_parse
find-lookup t [] h = absurd h
find-lookup t (c ∷ cmd) h = parse_from-lookup t c cmd h

word-IsCommand : (cmd : Bytes) → IsWord cmd → IsCommand cmd
word-IsCommand [] h = absurd h
word-IsCommand (c ∷ cmd) h = h

by_key :
    {A : Type 0} (s t : Bytes) (new found old : A)
    → IsWord s
    → IsWord t
    → found ≡ (if same_key (key_of s) (key_of t) then new else old)
    → (map to_upper s ≡ map to_upper t → found ≡ new)
      × (map to_upper s ≢ map to_upper t → found ≡ old)
by_key s t new found old hs ht h = decided (same_key (key_of s) (key_of t)) refl
  where
    iff : (same_key (key_of s) (key_of t) ≡ true) ↔ (map to_upper s ≡ map to_upper t)
    iff = same_key_iff s t (word-IsCommand s hs) (word-IsCommand t ht)

    decided :
        (b : Bool)
        → same_key (key_of s) (key_of t) ≡ b
        → (map to_upper s ≡ map to_upper t → found ≡ new)
          × (map to_upper s ≢ map to_upper t → found ≡ old)
    decided true e = (λ u. h ∙ rw e, λ u. absurd (u (iff.0 e)))
    decided false e = (λ u. absurd (cc (iff.1 u, e)), λ u. h ∙ rw e)

-- What adding a message leaves: a table and the message, with which words find what.
abbrev pub AddFinds : MessageTree × Message → MessageTree → Message → Type 0
AddFinds (after, stored) before msg =
    IsValid after
    × (stored ≡ record msg { count = 0; rcount = 0; bytes = 0 })
    × ((word : Bytes)
        → IsWord word
        → (map to_upper msg.cmd ≡ map to_upper word → find_command after word ≡ some msg.address)
          × (map to_upper msg.cmd ≢ map to_upper word
              → find_command after word ≡ find_command before word))

-- What deleting a command leaves: a table, with which words find what.
abbrev pub DelFinds : Option MessageTree → MessageTree → Bytes → Type 0
DelFinds none before cmd = ⊥
DelFinds (some after) before cmd =
    IsValid after
    × ((word : Bytes)
        → IsWord word
        → (map to_upper cmd ≡ map to_upper word → find_command after word ≡ none)
          × (map to_upper cmd ≢ map to_upper word
              → find_command after word ≡ find_command before word))

abbrev pub SameCommands : Option MessageTree → MessageTree → Type 0
SameCommands none before = ⊥
SameCommands (some after) before =
    IsValid after
    × ((word : Bytes) → IsWord word → find_command after word ≡ find_command before word)

added :
    (t : MessageTree) (msg : Message)
    → find_command t msg.cmd ≡ none
    → mod_add_cmd t msg
      ≡ (add_msg_element t msg.address msg.cmd, record msg { count = 0; rcount = 0; bytes = 0 })
unfolding mod_add_cmd find_command
added t msg h = let h' : msg_tree_parse msg.cmd t ≡ none = h in simp (h', mod_add_cmd) refl

same_key-eq : (h k : List ℕ) → same_key h k ≡ true → h ≡ k
same_key-eq [] [] e = refl
same_key-eq [] (j ∷ k) e = absurd (cc e)
same_key-eq (i ∷ h) [] e = absurd (cc e)
same_key-eq (i ∷ h) (j ∷ k) e =
    let ij : i ≡ j = ground (arith, e) in let t = same_key-eq h k (ground (arith, e)) in cc (ij, t)

upper_cases :
    {A : Type 0} (s t : Bytes)
    → IsWord s
    → IsWord t
    → (map to_upper s ≡ map to_upper t → A)
    → (map to_upper s ≢ map to_upper t → A)
    → A
upper_cases {A = A} s t hs ht same other = decided (same_key (key_of s) (key_of t)) refl
  where
    iff : (same_key (key_of s) (key_of t) ≡ true) ↔ (map to_upper s ≡ map to_upper t)
    iff = same_key_iff s t (word-IsCommand s hs) (word-IsCommand t ht)

    decided : (b : Bool) → same_key (key_of s) (key_of t) ≡ b → A
    decided true e = same (iff.0 e)
    decided false e = other (λ u. absurd (cc (iff.1 u, e)))

find_upper :
    (t : MessageTree) (s word : Bytes)
    → IsWord s
    → IsWord word
    → map to_upper s ≡ map to_upper word
    → find_command t s ≡ find_command t word
find_upper t s word hs hw u =
    let iff = same_key_iff s word (word-IsCommand s hs) (word-IsCommand word hw) in
    find-lookup t s hs
    ∙ ap (lookup t) (same_key-eq (key_of s) (key_of word) (iff.1 u))
    ∙ sym (find-lookup t word hw)

-- In a valid table, adding a message under a command (a word of letters) that is not in the table keeps
-- the table valid and resets the message's counters; afterwards a word finds the new message if it is
-- the command up to case, and otherwise finds what it found before.
pub mod_add_cmd-find :
    (t : MessageTree) (msg : Message)
    → IsValid t
    → IsWord msg.cmd
    → find_command t msg.cmd ≡ none
    → AddFinds (mod_add_cmd t msg) t msg
mod_add_cmd-find t msg v w h =
    let h' : lookup t (key_of msg.cmd) ≡ none = sym (find-lookup t msg.cmd w) ∙ h in
    let e = added t msg h in
    simp e (
      (add-IsValid t msg.address msg.cmd v h').0,
      refl,
      λ word ww. by_key msg.cmd word (some msg.address) _ (find_command t word) w ww (
          find-lookup _ word ww
          ∙ lookup-add t msg.address msg.cmd (key_of word) v
          ∙ ap (λ x. if same_key (key_of msg.cmd) (key_of word) then some msg.address else x)
              (sym (find-lookup t word ww))),
    )

-- In a valid table, deleting a message whose command finds one meets no fault and keeps the table
-- valid; afterwards no word equal to the command up to case finds a message, and every other word finds
-- what it found before.
pub mod_del_cmd-find :
    (t : MessageTree) (msg : Message) (address : ℕ)
    → IsValid t
    → IsWord msg.cmd
    → find_command t msg.cmd ≡ some address
    → DelFinds (mod_del_cmd t msg) t msg.cmd
unfolding mod_del_cmd
mod_del_cmd-find t msg address v w h =
    found (del_msg_element t msg.cmd)
      (del-Removes t address msg.cmd v (sym (find-lookup t msg.cmd w) ∙ h))
  where
    found : (o : Option MessageTree) → Removes o t (key_of msg.cmd) → DelFinds o t msg.cmd
    found none r = r
    found (some after) r = (
      r.valid,
      λ word ww. by_key msg.cmd word none _ (find_command t word) w ww (
          find-lookup after word ww
          ∙ r.lookups (key_of word)
          ∙ ap (λ x. if same_key (key_of msg.cmd) (key_of word) then none else x)
              (sym (find-lookup t word ww))),
    )

-- Adding a command that the table did not have and deleting it again leaves every word as it was.
pub mod_add_cmd-del :
    (t : MessageTree) (msg : Message)
    → IsValid t
    → IsWord msg.cmd
    → find_command t msg.cmd ≡ none
    → SameCommands (mod_del_cmd (mod_add_cmd t msg).0 msg) t
mod_add_cmd-del t msg v w h =
    same (mod_del_cmd (mod_add_cmd t msg).0 msg)
      (mod_del_cmd-find (mod_add_cmd t msg).0 msg msg.address a.0 w ((a.2 msg.cmd w).0 refl))
  where
    a : AddFinds (mod_add_cmd t msg) t msg
    a = mod_add_cmd-find t msg v w h

    same : (o : Option MessageTree) → DelFinds o (mod_add_cmd t msg).0 msg.cmd → SameCommands o t
    same none d = d
    same (some after) d = (
      d.0,
      λ word ww.
          upper_cases msg.cmd word w ww
            (λ u. (d.1 word ww).0 u ∙ sym h ∙ find_upper t msg.cmd word w ww u)
            (λ u. (d.1 word ww).1 u ∙ (a.2 word ww).1 u),
    )
