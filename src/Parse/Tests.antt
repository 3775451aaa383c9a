-- ===== src/Parse/Tests.antt =====
-- `parse` of src/parse.c on concrete lines.
use unirc_ircd.Prelude.{ℕ, ◌≡◌, refl, true, false, some, [], ◌∷◌, arith, ◌==◌, if◌then◌else◌}
use unirc_ircd.Chars.{Bytes, is_alpha}
use unirc_ircd.MsgTree.{new_tree, Message, mod_add_cmd, find_command}
use unirc_ircd.MsgTree.Commands.{IsWord}
use unirc_ircd.Receive.{stat_client, stat_server}
use unirc_ircd.Directory.{Peer}
use unirc_ircd.Parse.Types.{run, drop_server, ParseState}
use unirc_ircd.Parse.{parse}
use unirc_ircd.Parse.Origin.{RunsRightly, parse-RunsRightly}
use unirc_ircd.Parse.Composed.{counted, parse-run, parse-too_few}

abbrev join : Message
join = record {
  address = 7;
  cmd = b'J' ∷ b'o' ∷ [];
  count = 0;
  rcount = 0;
  bytes = 0;
  parameters = 2;
  for_unregistered = false;
}

-- Client 3 is a server, the others are users that it leads to.
abbrev peers : ℕ → Peer
peers a = record {
  name = b'n' ∷ [];
  id = b'1' ∷ [];
  status = if a == 3 then stat_server else stat_client;
  from = 3;
  my = true;
  is_defunct = false;
  is_oper = false;
  is_invisible = false;
  cap_ts6 = true;
  handler = 5;
}

abbrev state : ParseState
state = record {
  dir = record {
    random_key = 0;
    peer = peers;
    chname = λ a. [];
    clients = λ h. 2 ∷ [];
    ids = λ h. [];
    channels = λ h. [];
  };
  tree = (mod_add_cmd new_tree join).0;
  message = λ a. join;
  stats = record { is_unpf = 0; is_wrdi = 0; is_empt = 0; is_unco = 0; is_num = 0 };
}

abbrev channel : Bytes
channel = b'#' ∷ b'a' ∷ []

-- `:n jo #a`
abbrev line : Bytes
line = b':' ∷ b'n' ∷ b' ' ∷ b'j' ∷ b'o' ∷ b' ' ∷ channel

parse-RunsRightly_example :
    RunsRightly state.tree state.message state.dir.peer 3 (parse false 3 line state).0
parse-RunsRightly_example = parse-RunsRightly false 3 line state

jo-IsWord : IsWord (b'j' ∷ b'o' ∷ [])
unfolding is_alpha
jo-IsWord = (omega arith, refl, (omega arith, refl, tt))

known : find_command state.tree (b'j' ∷ b'o' ∷ []) ≡ some 7
unfolding find_command mod_add_cmd new_tree is_alpha
known = refl

parse-run_example :
    parse false 2 (b'j' ∷ b'o' ∷ b' ' ∷ channel) state
    ≡ (run 5 7 2 (channel ∷ []), counted state 2 7 2)
parse-run_example =
    parse-run false 2 7 (b'j' ∷ b'o' ∷ []) (channel ∷ []) state refl refl jo-IsWord known
      ((refl, (refl, (refl, tt))), tt) (omega arith) (omega arith)

parse-too_few_example :
    parse false 3 (b'j' ∷ b'o' ∷ b' ' ∷ []) state ≡ (drop_server, counted state 3 7 0)
parse-too_few_example =
    parse-too_few false 3 7 (b'j' ∷ b'o' ∷ []) [] state refl refl jo-IsWord known tt (omega arith)
      (omega arith)
