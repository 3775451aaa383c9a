-- ===== src/Nick/Unique.antt =====
-- A nick is that of one client, under the handlers of modules/core/m_nick.c.
use unirc_ircd.Prelude.{◌≤◌, length, Bool, Option, none, some, List}
use unirc_ircd.Chars.{Bytes}
use unirc_ircd.Nick.{User, Source, from_server, from_client}
use unirc_ircd.Nick.Handlers.{NickMessage, nick_message, uid_message}
use unirc_ircd.Nick.Names.{Held, Unnamed, Unique}

-- A source that is a client has the nick, or nobody has.
abbrev pub Holds : Source → Bytes → List User → Type 0
Holds (from_server s direct) nick us = Unnamed nick us
Holds (from_client u) nick us = Held nick u.number us

-- What is left, where there is an answer, has each nick once.
abbrev pub AnyUnique : Option (List User) → Type 0
AnyUnique none = Unit {0}
AnyUnique (some us) = Unique us

-- A message has the parameters that its handler reads.
abbrev pub IsWhole : NickMessage → Type 0
IsWhole (nick_message src nick params) = Unit {0}
IsWhole (uid_message src nick params) = 11 ≤ length params

-- There is an answer, and it has each nick once.
abbrev pub AnswersUnique : Option (List User) → Type 0
AnswersUnique none = ⊥
AnswersUnique (some us) = Unique us
