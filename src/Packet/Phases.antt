-- ===== src/Packet/Phases.antt =====
-- What the scan of `extract_one_line` (src/packet.c) has counted at its end, phase by phase.
use unirc_ircd.Prelude.{
  ℕ, zero, suc, ◌+◌, ◌-◌, ◌≡◌, refl, sym, ◌∙◌, ap, Option, List, [], ◌∷◌, ◌++◌, ltb, if◌then◌else◌,
  length, take, arith, Bool-cases, inl, inr, append_assoc, append-nil,
}
use mathlib.Core.Path.{fun_ext}
use unirc_ircd.Chars.{Bytes, is_eol}
use unirc_ircd.Dbuf.{DbufBlock, DbufQueue}
use unirc_ircd.Dbuf.Contents.{contents_of}
use unirc_ircd.Packet.{
  Phase, before, inside, behind, Scan, Progress, going, found, copy_byte, skip_byte, scan_byte,
  scan_bytes, scan_blocks, full_line_bytes, return_line, finish, Extracted,
}
use unirc_ircd.Packet.Lines.{
  is_empty, skip_empty, until_eol, skipped, length-skip_empty-le, skip_empty-empty,
  skip_empty-other, until_eol-eol, until_eol-other,
}

abbrev pub scan_at : Phase → ℕ → ℕ → Bytes → Scan
scan_at p l e buf = record { line_bytes = l; empty_bytes = e; phase = p; buffer = buf }

-- The line bytes to remove, the empty bytes to remove, and the buffer.
pub summary : Progress → ℕ × ℕ × Bytes
summary (found s) = (s.line_bytes, s.empty_bytes, s.buffer)
summary (going s) = (full_line_bytes s.phase s, s.empty_bytes, s.buffer)

abbrev pub by_summary : DbufQueue → ℕ × ℕ × Bytes → Option Extracted
by_summary q (l, e, buf) = return_line q (scan_at behind l e buf) l

pub finish-summary : (q : DbufQueue) (p : Progress) → finish q p ≡ by_summary q (summary p)
unfolding finish summary return_line
finish-summary q (found s) = refl
finish-summary q (going s) = refl

-- Going on with what follows.
abbrev resume : Progress → (Scan → Progress) → Progress
resume (going s) f = f s
resume (found s) f = found s

scan_bytes-cons :
    (c : ℕ) (xs : Bytes) (s : Scan)
    → scan_bytes (c ∷ xs) s ≡ resume (scan_byte s.phase c s) (scan_bytes xs)
unfolding scan_bytes
scan_bytes-cons c xs s = ground arith

resume-resume :
    (p : Progress) (f g : Scan → Progress) → resume (resume p f) g ≡ resume p (λ s. resume (f s) g)
resume-resume (going s) f g = refl
resume-resume (found s) f g = refl

scan_bytes-append :
    (xs ys : Bytes) (s : Scan) → scan_bytes (xs ++ ys) s ≡ resume (scan_bytes xs s) (scan_bytes ys)
unfolding scan_bytes
scan_bytes-append [] ys s = refl
scan_bytes-append (c ∷ xs) ys s =
    scan_bytes-cons c (xs ++ ys) s
    ∙ ap (resume (scan_byte s.phase c s)) (fun_ext (λ t. scan_bytes-append xs ys t))
    ∙ sym (resume-resume (scan_byte s.phase c s) (scan_bytes xs) (scan_bytes ys))
    ∙ ap (λ p. resume p (scan_bytes ys)) (sym (scan_bytes-cons c xs s))

pub scan_blocks-contents :
    (bs : List DbufBlock) (s : Scan) → scan_blocks bs s ≡ scan_bytes (contents_of bs) s
unfolding scan_blocks scan_bytes
scan_blocks-contents [] s = refl
scan_blocks-contents (b ∷ bs) s =
    same
    ∙ ap (resume (scan_bytes (take b.size b.array) s)) (fun_ext (λ t. scan_blocks-contents bs t))
    ∙ sym (scan_bytes-append (take b.size b.array) (contents_of bs) s)
  where
    same : scan_blocks (b ∷ bs) s ≡ resume (scan_bytes (take b.size b.array) s) (scan_blocks bs)
    same = ground arith

-- The first `510 - l` bytes of a line end up in the buffer.
abbrev pub buffered : ℕ → Bytes → Bytes → Bytes
buffered l buf line = buf ++ take (510 - l) line

buffered-cons :
    (c l : ℕ) (buf line : Bytes)
    → buffered (l + 1) (if ltb l 510 then buf ++ c ∷ [] else buf) line ≡ buffered l buf (c ∷ line)
buffered-cons c l buf line = elim (Bool-cases (ltb l 510)) [
  | inl h ↦ let n : 510 - l ≡ suc (510 - (l + 1)) = ground arith in rw (h, n, append_assoc)
  | inr h ↦
      let n : 510 - l ≡ 0 = ground arith in
      let n' : 510 - (l + 1) ≡ 0 = ground arith in rw (h, n, n')
]

module _ (c : ℕ) (xs : Bytes) (s s' : Scan) where
  scan_step : scan_byte s.phase c s ≡ going s' → scan_bytes (c ∷ xs) s ≡ scan_bytes xs s'
  scan_step h = scan_bytes-cons c xs s ∙ ap (λ p. resume p (scan_bytes xs)) h

  scan_stop : scan_byte s.phase c s ≡ found s' → scan_bytes (c ∷ xs) s ≡ found s'
  scan_stop h = scan_bytes-cons c xs s ∙ ap (λ p. resume p (scan_bytes xs)) h

summary-nil :
    (s : Scan) → summary (scan_bytes [] s) ≡ (full_line_bytes s.phase s, s.empty_bytes, s.buffer)
unfolding scan_bytes summary
summary-nil s = refl

summary-found : (s : Scan) → summary (found s) ≡ (s.line_bytes, s.empty_bytes, s.buffer)
unfolding summary
summary-found s = refl

-- Behind a line only the empty bytes are counted.
pub scan_behind :
    (bytes : Bytes) (l e : ℕ) (buf : Bytes)
    → summary (scan_bytes bytes (scan_at behind l e buf)) ≡ (l, e + skipped bytes, buf)
unfolding scan_byte skip_byte skip_empty
scan_behind [] l e buf =
    summary-nil (scan_at behind l e buf)
    ∙ (unfold full_line_bytes skip_empty in
        ap (λ (k : ℕ). (l, k, buf)) {x = e} {y = e + (0 - 0)} (omega arith))
scan_behind (c ∷ bytes) l e buf = elim (Bool-cases (is_empty c)) [
  | inl h ↦
      let n : e + 1 + skipped bytes ≡ e + (length (c ∷ bytes) - length (skip_empty bytes)) =
        omega (arith, length-skip_empty-le bytes) in
      ap summary (scan_step c bytes (scan_at behind l e buf) (scan_at behind l (e + 1) buf) (rw h))
      ∙ scan_behind bytes l (e + 1) buf
      ∙ ap (λ (k : ℕ). (l, k, buf)) n
      ∙ ap (λ (t : Bytes). (l, e + (length (c ∷ bytes) - length t), buf))
          (sym (skip_empty-empty c bytes h))
  | inr h ↦
      ap summary (scan_stop c bytes (scan_at behind l e buf) (scan_at behind l e buf) (rw h))
      ∙ summary-found (scan_at behind l e buf)
      ∙ ap (λ (k : ℕ). (l, k, buf)) {x = e} {y = e + (length (c ∷ bytes) - length (c ∷ bytes))}
          (omega arith)
      ∙ ap (λ (t : Bytes). (l, e + (length (c ∷ bytes) - length t), buf))
          (sym (skip_empty-other c bytes h))
]

-- In a line: with no line end there is no line to remove, and else the line is counted and copied.
abbrev pub line_summary : ℕ → ℕ → Bytes → Bytes × Bytes → ℕ × ℕ × Bytes
line_summary l e buf (line, []) = (0, e, buffered l buf line)
line_summary l e buf (line, c ∷ rest) =
    (l + length line, e + skipped (c ∷ rest), buffered l buf line)

-- One byte more in front of the line.
line_summary-cons :
    (c l e : ℕ) (buf : Bytes) (parts : Bytes × Bytes)
    → line_summary (l + 1) e (if ltb l 510 then buf ++ c ∷ [] else buf) parts
      ≡ line_summary l e buf (c ∷ parts.0, parts.1)
line_summary-cons c l e buf (line, []) = ap (λ (b : Bytes). (0, e, b)) (buffered-cons c l buf line)
line_summary-cons c l e buf (line, d ∷ rest) =
    let n : l + 1 + length line ≡ l + length (c ∷ line) = omega arith in
    rw (buffered-cons c l buf line)
      (ap (λ (k : ℕ). (k, e + skipped (d ∷ rest), buffered l buf (c ∷ line))) n)

take-nil : (k : ℕ) → take {A = ℕ} k [] ≡ []
take-nil zero = refl
take-nil (suc k) = refl

pub scan_inside :
    (bytes : Bytes) (l e : ℕ) (buf : Bytes)
    → summary (scan_bytes bytes (scan_at inside l e buf)) ≡ line_summary l e buf (until_eol bytes)
unfolding scan_byte skip_byte copy_byte
scan_inside [] l e buf =
    summary-nil (scan_at inside l e buf)
    ∙ (unfold full_line_bytes until_eol in
        rw take-nil (ap (λ (b : Bytes). (0, e, b)) (sym (append-nil buf))))
scan_inside (c ∷ bytes) l e buf = elim (Bool-cases (is_eol c)) [
  | inl h ↦
      let n : e + 1 + skipped bytes ≡ e + skipped (c ∷ bytes) =
        rw (skip_empty-empty c bytes (rw h)) (omega (arith, length-skip_empty-le bytes)) in
      ap summary (scan_step c bytes (scan_at inside l e buf) (scan_at behind l (e + 1) buf) (rw h))
      ∙ scan_behind bytes l (e + 1) buf
      ∙ rw (until_eol-eol c bytes h, take-nil, append-nil, n)
          (ap (λ (k : ℕ). (k, e + skipped (c ∷ bytes), buf)) {x = l} {y = l + 0} (omega arith))
  | inr h ↦
      ap summary (scan_step c bytes (scan_at inside l e buf) (scan_at inside (l + 1) e _) (rw h))
      ∙ scan_inside bytes (l + 1) e _
      ∙ line_summary-cons c l e buf (until_eol bytes)
      ∙ ap (line_summary l e buf) (sym (until_eol-other c bytes h))
]

-- Before the line, empty bytes are counted until a line begins.
pub scan_before :
    (bytes : Bytes) (e : ℕ)
    → summary (scan_bytes bytes (scan_at before 0 e []))
      ≡ line_summary 0 (e + skipped bytes) [] (until_eol (skip_empty bytes))
unfolding scan_byte skip_byte copy_byte
scan_before [] e =
    summary-nil (scan_at before 0 e [])
    ∙ (unfold full_line_bytes until_eol skip_empty in
        rw take-nil (ap (λ (k : ℕ). (0, k, [])) {x = e} {y = e + (0 - 0)} (omega arith)))
scan_before (c ∷ bytes) e = elim (Bool-cases (is_empty c)) [
  | inl h ↦
      let n : e + 1 + skipped bytes ≡ e + skipped (c ∷ bytes) =
        rw (skip_empty-empty c bytes h) (omega (arith, length-skip_empty-le bytes)) in
      ap summary (scan_step c bytes (scan_at before 0 e []) (scan_at before 0 (e + 1) []) (rw h))
      ∙ scan_before bytes (e + 1)
      ∙ rw (n, skip_empty-empty c bytes h)
  | inr h ↦
      ap summary (scan_step c bytes (scan_at before 0 e []) (scan_at inside 1 e (c ∷ [])) (rw h))
      ∙ scan_inside bytes 1 e (c ∷ [])
      ∙ line_summary-cons c 0 e [] (until_eol bytes)
      ∙ sym (ap (line_summary 0 e []) (until_eol-other c bytes (ground (arith, h))))
      ∙ ap (λ (k : ℕ). line_summary 0 k [] (until_eol (c ∷ bytes))) {x = e}
          {y = e + (length (c ∷ bytes) - length (c ∷ bytes))} (omega arith)
      ∙ ap (λ (t : Bytes). line_summary 0 (e + (length (c ∷ bytes) - length t)) [] (until_eol t))
          (sym (skip_empty-other c bytes h))
]
