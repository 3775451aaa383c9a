-- ===== src/Nick/Tests.antt =====
-- modules/core/m_nick.c: two servers that have a client `a` each, of one user, and a NICK of another user's.
use unirc_ircd.Prelude.{◌≡◌, refl, ℕ, true, false, some, List, [], ◌∷◌, arith, ◌==◌}
use unirc_ircd.Chars.{all_chars, Bytes, to_upper, is_nick_char, has_attr, is_digit}
use unirc_ircd.Match.Case.{NoNul, irccmp}
use unirc_ircd.Sjoin.Settle.{comes_before}
use unirc_ircd.Nick.{
  User, from_server, NickEnv, arrive, introduced, find_nick, perform_nick_collides, collide,
  drop_users, check_clean_nick, clean_nick_name, meet, too_long_for,
}
use unirc_ircd.Nick.Handlers.{ms_nick, nick_params}
use unirc_ircd.Nick.Names.{Unique}
use unirc_ircd.Nick.Survivor.{Spelled, intro_of, who_has, arrive-agrees}

abbrev client : ℕ → ℕ → Bytes → ℕ → User
client n server name ts = record {
  number = n;
  server = server;
  name = name;
  username = b'u' ∷ [];
  host = b'h' ∷ [];
  id = [];
  tsinfo = ts;
  unknown = false;
}

abbrev env : NickEnv
env = record {
  fresh = 9;
  current_time = 100;
  nicklen = 30;
  behind = λ s t. s == t;
  find_server = λ s. some 2;
  atol = λ s. 50;
}

-- One of them has the upper case.
abbrev here : User
here = client 1 1 (b'a' ∷ []) 70

abbrev there : User
there = client 3 2 (b'A' ∷ []) 50

abbrev other : User
other = client 2 1 (b'b' ∷ []) 60

abbrev message : List Bytes
message =
    (b'1' ∷ [])
    ∷ ((b'5' ∷ [])
        ∷ ((b'+' ∷ [])
            ∷ ((b'w' ∷ [])
                ∷ ((b'h' ∷ [])
                    ∷ ((b's' ∷ [])
                        ∷ ((b'0' ∷ []) ∷ ((b'h' ∷ []) ∷ ((b'*' ∷ []) ∷ ((b'g' ∷ []) ∷ [])))))))))

-- The user is another one with the lower timestamp, and the nick is taken from the client that has it.
ms_nick_test :
    ms_nick env (from_server 2 true) ((b'a' ∷ []) ∷ message) (here ∷ other ∷ [])
    ≡ record (client 9 2 (b'a' ∷ []) 50) { username = b'w' ∷ [] } ∷ other ∷ []
unfolding ms_nick nick_params check_clean_nick clean_nick_name all_chars too_long_for meet find_nick
    perform_nick_collides collide drop_users introduced irccmp to_upper is_nick_char has_attr
    is_digit comes_before
ms_nick_test = refl

a-NoNul : NoNul (b'a' ∷ [])
a-NoNul = (omega arith, omega arith, tt)

b-NoNul : NoNul (b'b' ∷ [])
b-NoNul = (omega arith, omega arith, tt)

two-Unique : Unique (here ∷ other ∷ [])
unfolding irccmp to_upper
two-Unique = (a-NoNul, (refl, tt), (refl, tt), (b-NoNul, tt, tt, tt))

there-Spelled : Spelled there
there-Spelled =
    ((omega arith, omega arith, tt), (omega arith, omega arith, tt), (omega arith, omega arith, tt))

here-Spelled : Spelled here
here-Spelled = (a-NoNul, there-Spelled.1, there-Spelled.2)

arrive-agrees_example :
    who_has
      (b'A' ∷ [])
      (arrive env (from_server 2 true) true (intro_of 2 there) (here ∷ other ∷ []))
    ≡ who_has (b'a' ∷ []) (arrive env (from_server 1 true) true (intro_of 1 here) (there ∷ []))
unfolding find_nick irccmp to_upper
arrive-agrees_example =
    arrive-agrees env env 1 2 true true (here ∷ other ∷ []) (there ∷ []) here there here-Spelled
      there-Spelled two-Unique (there-Spelled.0, tt, tt, tt) refl refl refl refl
