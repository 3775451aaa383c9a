-- ===== src/Whowas/Tests.antt =====
-- src/whowas.c with a ring of two slots.
use unirc_ircd.Prelude.{ℕ, ◌-◌, ◌≡◌, refl, ◌⊎◌, true, none, some, [], ◌∷◌, arith}
use unirc_ircd.Whowas.{
  Client, History, no_lists, init_whowas, add_history, off_history, get_history,
}
use unirc_ircd.Whowas.Keeps.{Keeps}
use unirc_ircd.Whowas.Valid.{IsValid, add_history-IsValid}
use unirc_ircd.Whowas.Off.{IsOff, off_history-IsOff}
use unirc_ircd.Whowas.Find.{Had, get_history-Had}

no_lists-Keeps : Keeps no_lists (λ w. none) (λ b. [])
no_lists-Keeps = record {
  chain = λ b. tt;
  distinct = λ b. tt;
  start = λ b. refl;
  member = λ b a. refl;
}

init_whowas-IsValid : IsValid 2 7 init_whowas
init_whowas-IsValid = record {
  named = λ b. [];
  departed = λ b. [];
  next = omega arith;
  hashes = no_lists-Keeps;
  clients = no_lists-Keeps;
  present = λ w c e. absurd (ground (arith, e));
  ring = λ w h e. absurd (ground (arith, e));
  hash = λ w h e. absurd (ground (arith, e));
  names = λ w h e. absurd (ground (arith, e));
}

abbrev ann : Client
ann = record {
  name = b'a' ∷ b'n' ∷ b'n' ∷ [];
  username = b'a' ∷ [];
  host = b'h' ∷ [];
  realhost = b'r' ∷ [];
  info = [];
  servername = b's' ∷ [];
  is_oper = true;
}

-- Client 5 changes its nick at 100.
abbrev once : History
once = add_history 31 2 7 100 5 ann true init_whowas

add_history-IsValid_example : IsValid 2 7 once
add_history-IsValid_example =
    add_history-IsValid 31 2 7 100 5 ann true init_whowas (omega arith) (omega arith)
      init_whowas-IsValid

once-IsValid : IsValid 2 7 once
once-IsValid =
    add_history-IsValid 31 2 7 100 5 ann true init_whowas (omega arith) (omega arith)
      init_whowas-IsValid

off_history-IsOff_example : IsOff 2 7 5 once (off_history 2 5 once)
off_history-IsOff_example = off_history-IsOff 2 7 2 5 once (omega arith) once-IsValid

get_history-Had_example :
    ((w : ℕ) × Had (b'A' ∷ b'N' ∷ b'n' ∷ []) (110 - 60) once w
      × (get_history 2 7 110 (b'A' ∷ b'N' ∷ b'n' ∷ []) 60 once ≡ some (once.online w)))
    ⊎ (((w : ℕ) → ¬ Had (b'A' ∷ b'N' ∷ b'n' ∷ []) (110 - 60) once w)
        × (get_history 2 7 110 (b'A' ∷ b'N' ∷ b'n' ∷ []) 60 once ≡ some none))
get_history-Had_example =
    get_history-Had 2 2 7 110 (b'A' ∷ b'N' ∷ b'n' ∷ []) 60 once (omega arith) (omega arith)
      once-IsValid
