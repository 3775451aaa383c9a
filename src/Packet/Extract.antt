-- ===== src/Packet/Extract.antt =====
-- `extract_one_line` of src/packet.c takes the first line out of the queue.
use unirc_ircd.Prelude.{
  ℕ, ◌+◌, ◌≤◌, ◌≡◌, refl, sym, ◌∙◌, ap, Option, some, none, [], ◌∷◌, length, take, drop, arith,
  length-take, ltb, ltb→lt, Bool-cases, inl, inr,
}
use mathlib.Core.Path.{subst}
use unirc_ircd.Chars.{Bytes}
use unirc_ircd.Dbuf.{DbufQueue, dbuf_delete}
use unirc_ircd.Dbuf.Contents.{contents, IsValid, take_all}
use unirc_ircd.Dbuf.Put.{Holds}
use unirc_ircd.Dbuf.Delete.{dbuf_delete-Holds}
use unirc_ircd.Packet.{
  behind, Extracted, ircd_min, extract_one_line, return_line, finish, scan_blocks, scan_start,
}
use unirc_ircd.Packet.Lines.{
  skip_empty, until_eol, split_line, next_line, skipped, drop-skipped, drop-until_eol,
  length-until_eol, drop-drop, length-skip_empty-le,
}
use unirc_ircd.Packet.Phases.{
  scan_at, finish-summary, by_summary, summary, scan_blocks-contents, scan_before, line_summary,
}

-- The call succeeded: it returned the length of the line, cut at 510 bytes, the buffer begins with
-- those bytes, and the queue holds what is left.
abbrev pub Extracts : Option Extracted → Bytes × Bytes → Type 0
Extracts none parts = ⊥
Extracts (some x) (line, rest) =
    IsValid x.queue
    × (contents x.queue ≡ rest)
    × (x.value ≡ length (take 510 line))
    × (take x.value x.line ≡ take 510 line)

min_value : (l : ℕ) (line : Bytes) → l ≡ length line → ircd_min l 510 ≡ length (take 510 line)
min_value l line e = elim (Bool-cases (ltb l 510)) [
  | inl h ↦ rw h (omega (arith, ltb→lt _ _ h, length-take 510 line))
  | inr h ↦ let le : 510 ≤ l = ground (arith, h) in rw h (omega (arith, length-take 510 line))
]

buffer_value :
    (l : ℕ) (line : Bytes) → l ≡ length line → take (ircd_min l 510) (take 510 line) ≡ take 510 line
buffer_value l line e = rw (min_value l line e) (take_all _ (take 510 line) (omega arith))

return_line-Extracts :
    (q : DbufQueue) (l e : ℕ) (line rest : Bytes)
    → Holds (dbuf_delete q (l + e)) rest
    → l ≡ length line
    → Extracts (return_line q (scan_at behind l e (take 510 line)) l) (line, rest)
unfolding return_line
return_line-Extracts q l e line rest h n = given (dbuf_delete q (l + e)) h
  where
    given :
        (o : Option DbufQueue)
        → Holds o rest
        → Extracts
            (elim o [
              | none ↦ none
              | some q' ↦ some (record { line = take 510 line; value = ircd_min l 510; queue = q' })
            ])
            (line, rest)
    given none h = h
    given (some q') h = (h.0, h.1, min_value l line n, buffer_value l line n)

-- With no complete line, only the empty bytes in front are removed.
no_line-Extracts :
    (q : DbufQueue) (e : ℕ) (buf rest : Bytes)
    → Holds (dbuf_delete q (0 + e)) rest
    → Extracts (return_line q (scan_at behind 0 e buf) 0) ([], rest)
unfolding return_line
no_line-Extracts q e buf rest h = given (dbuf_delete q (0 + e)) h
  where
    given :
        (o : Option DbufQueue)
        → Holds o rest
        → Extracts
            (elim o [
              | none ↦ none
              | some q' ↦ some (record { line = buf; value = ircd_min 0 510; queue = q' })
            ])
            ([], rest)
    given none h = h
    given (some q') h = (h.0, h.1, refl, refl)

module _ (q : DbufQueue) (v : IsValid q) where
  deleted :
      (count : ℕ) (rest : Bytes)
      → count ≤ length (contents q)
      → drop count (contents q) ≡ rest
      → Holds (dbuf_delete q count) rest
  deleted count rest h e =
      subst (λ r. Holds (dbuf_delete q count) r) e
        (dbuf_delete-Holds q count v (omega (arith, v.counted)))

  drop-line :
      (s line rest : Bytes) (count : ℕ)
      → until_eol (skip_empty s) ≡ (line, rest)
      → count ≡ skipped s + (length line + skipped rest)
      → drop count s ≡ skip_empty rest
  drop-line s line rest count e n =
      let el : (until_eol (skip_empty s)).0 ≡ line = ap (λ (x : Bytes × Bytes). x.0) e in
      let er : (until_eol (skip_empty s)).1 ≡ rest = ap (λ (x : Bytes × Bytes). x.1) e in
      ap (λ (k : ℕ). drop k s) n
      ∙ sym (drop-drop (length line + skipped rest) (skipped s) s)
      ∙ ap (drop (length line + skipped rest)) (drop-skipped s)
      ∙ sym (drop-drop (skipped rest) (length line) (skip_empty s))
      ∙ ap (λ (x : Bytes). drop (skipped rest) (drop (length x) (skip_empty s))) (sym el)
      ∙ ap (drop (skipped rest)) (drop-until_eol (skip_empty s) ∙ er)
      ∙ drop-skipped rest

  length-parts :
      (s line rest : Bytes)
      → until_eol (skip_empty s) ≡ (line, rest)
      → skipped s + (length line + skipped rest) ≤ length s
  length-parts s line rest e = omega (
    arith,
    length-skip_empty-le s,
    length-skip_empty-le rest,
    length-until_eol (skip_empty s),
    ap (λ (x : Bytes × Bytes). length (x.0)) e,
    ap (λ (x : Bytes × Bytes). length (x.1)) e,
  )

  by_parts :
      (parts : Bytes × Bytes)
      → until_eol (skip_empty (contents q)) ≡ parts
      → Extracts
          (by_summary q (line_summary 0 (0 + skipped (contents q)) [] parts))
          (split_line (skip_empty (contents q)) (contents q) parts)
  unfolding split_line
  by_parts (line, []) e =
      let s = contents q in
      let le = length-skip_empty-le s in
      no_line-Extracts q (0 + skipped s) _ (skip_empty s) (
        deleted (0 + (0 + skipped s)) (skip_empty s) (omega arith) (
          ap (λ (k : ℕ). drop k s) {x = 0 + (0 + skipped s)} {y = skipped s} (omega arith)
          ∙ drop-skipped s))
  by_parts (line, c ∷ rest) e =
      let s = contents q in
      let bound = length-parts s line (c ∷ rest) e in
      return_line-Extracts q (0 + length line) (0 + skipped s + skipped (c ∷ rest)) line
        (skip_empty (c ∷ rest))
        (deleted _ _ (omega arith) (drop-line s line (c ∷ rest) _ e (omega arith))) (omega arith)

-- On a well-formed queue `extract_one_line` succeeds and leaves the queue well formed. It takes out
-- the first line (`next_line`): leading spaces and line ends go, the first 510 bytes of the line are
-- in the buffer and their number is returned, and the spaces and line ends behind it go too. With no
-- complete line it returns 0, and only leading spaces and line ends go.
pub extract_one_line-Extracts :
    (q : DbufQueue) → IsValid q → Extracts (extract_one_line q) (next_line (contents q))
extract_one_line-Extracts q v =
    subst (λ x. Extracts x (next_line (contents q))) (sym scanned) answer
  where
    s : Bytes
    s = contents q

    scanned :
        extract_one_line q
        ≡ by_summary q (line_summary 0 (0 + skipped s) [] (until_eol (skip_empty s)))
    scanned =
        unfolded
        ∙ finish-summary q (scan_blocks q.blocks scan_start)
        ∙ ap (λ p. by_summary q (summary p)) (scan_blocks-contents q.blocks scan_start)
        ∙ ap (by_summary q) (scan_before s 0)
      where
        unfolded : extract_one_line q ≡ finish q (scan_blocks q.blocks scan_start)
        unfolded = unfold extract_one_line in refl

    answer :
        Extracts
          (by_summary q (line_summary 0 (0 + skipped s) [] (until_eol (skip_empty s))))
          (next_line s)
    answer = unfold next_line in by_parts q v (until_eol (skip_empty s)) refl
