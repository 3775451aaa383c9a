-- ===== src/Hash/Users/Tally.antt =====
-- What one client more, or one less, is for the counts of src/hash.c.
use unirc_ircd.Prelude.{ap, ℕ, ◌≡◌, refl, ◌∙◌, Bool, ◌&&◌, arith, ◌==◌, ◌+◌, ◌-◌, if◌then◌else◌}
use unirc_ircd.Hash.Users.{Counts, no_counts, count_up, count_down}
use unirc_ircd.Hash.Users.Edits.{left_of}

-- One for a local client, and one for a local client with ident.
abbrev local_part : Bool → ℕ
local_part global = if global then 0 else 1

abbrev ident_part : Bool → Bool → ℕ
ident_part global ident = if global then 0 else if ident then 1 else 0

abbrev pub one_more : Bool → Bool → Counts → Counts
one_more global ident c = record {
  gcount = c.gcount + 1;
  lcount = c.lcount + local_part global;
  icount = c.icount + ident_part global ident;
}

abbrev pub one_less : Bool → Bool → Counts → Counts
one_less global ident c =
    if (c.gcount - 1) + (c.lcount - local_part global) == 0 then no_counts else record {
      gcount = c.gcount - 1;
      lcount = c.lcount - local_part global;
      icount = c.icount - ident_part global ident;
    }

same_counts :
    (a b : Counts) → a.gcount ≡ b.gcount → a.lcount ≡ b.lcount → a.icount ≡ b.icount → a ≡ b
same_counts a b g l c = λ i. record { gcount = g i; lcount = l i; icount = c i }

pub count_up-eq :
    (global ident : Bool) (c : Counts) → count_up global ident c ≡ one_more global ident c
unfolding count_up
count_up-eq global ident c =
    same_counts (count_up global ident c) (one_more global ident c) refl (ground arith)
      (ground arith)

none_of : (a b : ℕ) → (a == 0 && b == 0) ≡ (a + b == 0)
none_of a b = ground arith

pub left_of-eq :
    (global ident : Bool) (c : Counts)
    → left_of (count_down global ident c) ≡ one_less global ident c
unfolding count_down
left_of-eq global ident c =
    let fewer : Counts = record {
      gcount = c.gcount - 1;
      lcount = c.lcount - local_part global;
      icount = c.icount - ident_part global ident;
    } in
    ap left_of (same_counts (count_down global ident c) fewer refl (ground arith) (ground arith))
    ∙ ap (λ b. if b then no_counts else fewer) (none_of fewer.gcount fewer.lcount)
