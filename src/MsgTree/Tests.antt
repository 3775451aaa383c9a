-- ===== src/MsgTree/Tests.antt =====
-- The command table of src/parse.c on concrete commands.
use unirc_ircd.Prelude.{◌≡◌, refl, [], ◌∷◌, arith, none, some, false}
use unirc_ircd.Chars.{is_alpha}
use unirc_ircd.MsgTree.{
  MessageTree, new_tree, msg_tree_parse, null_ptrs, Message, mod_add_cmd, mod_del_cmd, find_command,
}
use unirc_ircd.MsgTree.Lookup.{new_tree-IsValid}
use unirc_ircd.MsgTree.Commands.{
  AddFinds, DelFinds, SameCommands, IsWord, mod_add_cmd-find, mod_del_cmd-find, mod_add_cmd-del,
}

abbrev join : Message
join = record {
  address = 7;
  cmd = b'J' ∷ b'o' ∷ [];
  count = 3;
  rcount = 2;
  bytes = 9;
  parameters = 1;
  for_unregistered = false;
}

join-IsWord : IsWord join.cmd
unfolding is_alpha
join-IsWord = (omega arith, refl, (omega arith, refl, tt))

absent : find_command new_tree join.cmd ≡ none
unfolding find_command new_tree msg_tree_parse is_alpha null_ptrs
absent = refl

abbrev table : MessageTree
table = (mod_add_cmd new_tree join).0

any_case : find_command table (b'j' ∷ b'O' ∷ []) ≡ some 7
unfolding find_command mod_add_cmd new_tree is_alpha
any_case = refl

mod_add_cmd-find_example : AddFinds (mod_add_cmd new_tree join) new_tree join
mod_add_cmd-find_example = mod_add_cmd-find new_tree join new_tree-IsValid join-IsWord absent

mod_del_cmd-find_example : DelFinds (mod_del_cmd table join) table join.cmd
mod_del_cmd-find_example =
    mod_del_cmd-find table join 7
      (mod_add_cmd-find new_tree join new_tree-IsValid join-IsWord absent).0 join-IsWord any_case'
  where
    any_case' : find_command table join.cmd ≡ some 7
    any_case' = unfold find_command mod_add_cmd new_tree is_alpha in refl

mod_add_cmd-del_example : SameCommands (mod_del_cmd (mod_add_cmd new_tree join).0 join) new_tree
mod_add_cmd-del_example = mod_add_cmd-del new_tree join new_tree-IsValid join-IsWord absent
