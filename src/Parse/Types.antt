-- ===== src/Parse/Types.antt =====
-- What becomes of a line, and the state that src/parse.c changes.
use unirc_ircd.Prelude.{ℕ, List, ◌==◌, if◌then◌else◌}
use unirc_ircd.Chars.{Bytes}
use unirc_ircd.MsgTree.{MessageTree, Message}
use unirc_ircd.Directory.{Directory}

-- What becomes of a line.
pub data Action : Type 0 where
  nothing : Action
  squit : Bytes → Action
  kill : Bytes → Action
  wrong_direction : ℕ → Action
  unknown_command : ℕ → Bytes → Action
  need_more_params : Action
  drop_server : Action
  run : ℕ → ℕ → ℕ → List Bytes → Action
  bad_numeric : Action
  relay : ℕ → Bytes → Bytes → Action
  relay_hidden : ℕ → Bytes → Bytes → Action
  relay_channel : ℕ → Bytes → Bytes → Action

-- `ServerStats`: unknown prefixes, wrong directions, empty lines, unknown commands and numerics.
pub record Stats : Type 0 where
  pub is_unpf : ℕ
  pub is_wrdi : ℕ
  pub is_empt : ℕ
  pub is_unco : ℕ
  pub is_num : ℕ

pub record ParseState : Type 0 where
  pub dir : Directory
  pub tree : MessageTree
  pub message : ℕ → Message
  pub stats : Stats

abbrev pub count_message : ParseState → ℕ → (Message → Message) → ParseState
count_message s m change = record s {
  message = λ a. if a == m then change (s.message a) else s.message a;
}
