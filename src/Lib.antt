-- ===== src/Lib.antt =====
-- UniRC ircd, an IRC server: models of its core in C, with the theorems that make them correct.
--
-- How the program fits together. A server reads the bytes of a connection into a queue of blocks
-- (src/dbuf.c) and takes lines out of it under a flood limit (src/packet.c). src/parse.c finds who
-- a line is from, splits it into parameters, looks its command up in a trie and runs the handler.
-- Clients, servers and channels are found by name in the tables of src/hash.c, whose chains and all
-- other lists are those of src/tools.c or like them; src/whowas.c keeps the nicks that went away.
-- The commands on channels ask src/channel.c whether a client may join or speak, which compares
-- masks of bans with names by src/match.c, and MODE changes a channel by src/channel_mode.c.
-- Servers that link tell each other of their clients by NICK and UID (modules/core/m_nick.c) and of
-- their channels by SJOIN (modules/core/m_sjoin.c). A table of timed events (src/event.c) tells the
-- main loop when to run what.
--
-- The files:
-- - Prelude, Prelude/Tests, Prelude/Lists, Prelude/Counts: shared names, Boolean tests and lists
--   over the native numbers; no code of the repository.
-- - Chars: the case tables and the character attributes of src/match.c, and the macros on them of
--   include/irc_string.h.
-- - Match (match, match_esc, match_chan): the loop of src/match.c on the bytes of the mask before
--   and after its pointer, with `ma` and `na` kept beside. Match/Reference defines what a mask
--   means, Match/Invariant and Match/Correct relate the loop to it, Match/Escape is about
--   match_esc, Match/Case about irccmp, collapse and collapse_esc, Match/Ncmp about ircncmp.
-- - Dbuf (dbuf_put, dbuf_delete): a queue is a list of blocks and a count, as in include/dbuf.h.
--   Dbuf/Contents says what a queue holds, Dbuf/Put and Dbuf/Delete are about one operation each.
-- - Packet (extract_one_line): the three phases of the scan. Packet/Lines defines the lines of a
--   text, Packet/Phases summarises the scan, Packet/Extract joins it with dbuf_delete.
-- - Receive (parse_client_queued, flood_endgrace, flood_recalc): the loops of src/packet.c that
--   hand lines on; Receive/Flood is about the limit for clients.
-- - Args (string_to_array): the parameters of src/parse.c; Args/Params relates them to words.
-- - MsgTree (add_msg_element, del_msg_element, msg_tree_parse, mod_add_cmd, mod_del_cmd,
--   find_command): the trie of src/parse.c. MsgTree/Keys is about the path of a command,
--   MsgTree/Lookup about the trie as a map from paths to messages, MsgTree/Add and MsgTree/Del
--   about one operation each, MsgTree/Commands about the functions that modules call.
-- - Parse (parse, handle_command, remove_unknown, cancel_clients) and Parse/Numeric (do_numeric):
--   what becomes of a line, as a value that names the handler to run or the message to send.
--   Parse/Origin is about whom a handler is run for, Parse/Composed about a whole line from its
--   text to the handler.
-- - Dlink (dlinkAdd, dlinkAddBefore, dlinkAddTail, dlinkDelete, dlinkFind, dlinkFindDelete,
--   dlinkMoveList): the doubly linked lists of src/tools.c, with the pointers of every node in one
--   store. Dlink/Chain says what sequence they hold, Dlink/Change and Dlink/Move are about the
--   operations, Dlink/Frame about the nodes that they leave alone, Dlink/Sequence and Dlink/Spec
--   compare them with operations on sequences.
-- - Hash (strhash, hash_add_client and its kind, find_client, hash_find_masked_server, find_server):
--   the chained tables of src/hash.c; Hash/Value, Hash/Names, Hash/Chain and Hash/Spec lead to the
--   sets that they represent. Hash/Users (count_user_host, add_user_host, delete_user_host) counts
--   clients by user and host in one of these tables: Hash/Users/Names and Edits are about the names
--   of one host, Hosts, Blocks, Fresh and Places about the table, Tally says what one client more
--   or less is, and Counted joins them. Directory has what src/parse.c reads of clients by these
--   tables.
-- - Whowas (add_history, off_history, get_history, init_whowas, count_whowas_memory): the ring of
--   src/whowas.c and both kinds of its lists, with the fields of each slot as functions of its
--   number. Whowas/Keeps is about one kind of lists, Whowas/Valid about the invariant, Whowas/Off
--   and Whowas/Find about one operation each.
-- - Channel/Types: the structs of include/channel.h and what is read of a client. Channel/Bans
--   (find_bmask, is_banned, and match_ipv4 of src/hostmask.c), Channel/Join (can_join,
--   check_channel_name), Channel/Spam (msg_has_ctrls, check_nospam), Channel/Flood
--   (check_for_chan_flood), Channel/Send (can_send) with Channel/Send/Modes and
--   Channel/Send/Repeats, Channel/Invites (add_invite, del_invite) and Channel/Status
--   (get_member_status) are src/channel.c. Channel/Registry (make_channel, destroy_channel,
--   add_user_to_channel, remove_user_from_channel, and add_lazylinkchannel of src/s_serv.c) is about
--   the channels that there are and their members: Channel/Registry/Placed, Uninvite and Sound lead
--   to the invariant of the states of Channel/Registry/Reach.
-- - Modes (set_channel_mode with the functions of its table, get_channel_access, channel_modes,
--   send_mode_changes, send_cap_mode_changes): src/channel_mode.c. Modes/Types has the state that
--   the functions share, Modes/Masks the lists of masks with split_nuh of src/s_conf.c
--   (Modes/Masks/Undo is about both), Modes/Params, Modes/Members and Modes/Lists the functions
--   for the letters, Modes/Table the loop over the letters, Modes/Show and Modes/Send the texts.
--   Modes/Access, Modes/Walk, Modes/Standing and Modes/Counts, with the files below them, are
--   about one command, Modes/Send/Room and Modes/Send/Reading about the lines.
-- - Sjoin (ms_sjoin): modules/core/m_sjoin.c. Sjoin/Letters reads the modes of a burst,
--   Sjoin/Settle decides by the timestamps and joins modes (Sjoin/Settle/Order and
--   Sjoin/Settle/Agree are about it), Sjoin/Final writes the change of modes (Sjoin/Final/Told is
--   about its reader), Sjoin/Members has the members and the whole handler (Sjoin/Members/Rule and
--   Sjoin/Members/Taken are about who has a status). Sjoin/Relay with Sjoin/Relay/Words and
--   Sjoin/Relay/Steps takes the modes from channel_modes on one server to ms_sjoin on the next;
--   Modes/Params/Print is about the numbers in them, and Sjoin/Agreement joins all this for servers
--   that send one another a channel.
-- - Nick (ms_nick, ms_uid, perform_nick_collides, nick_from_server, client_from_server and the
--   tests of names): modules/core/m_nick.c. Nick/Handlers has the two handlers, Nick/Names and
--   Nick/Unique are about one nick for one client, Nick/Survivor about two servers that link.
-- - Event (eventAdd, eventAddIsh, eventDelete, eventFind, eventRun, eventNextTime, eventInit,
--   set_back_events): the table of src/event.c; Event/Next, Event/Table, Event/Run and Event/Ish are
--   about the time of the next event, the entries, a run and the random interval.
-- - Tests below each part: concrete runs, and the theorems at concrete values.
--
-- How state is written. A C string is the list of its bytes without the NUL, a flag word is a
-- record of Booleans or a Boolean function of its flags, a time is a number of seconds, and a
-- pointer that is only compared is a number, 0 or none for NULL. A step of a function that would
-- read or write where it must not is a result of its own (`fault`, or `none`), so that a theorem
-- which gives the result excludes it. A size_t wraps at 2 ^ 64 in Dbuf, and the length of a list at
-- 2 ^ 64 in Dlink. An argument of a mode that is a pointer to a field of the channel is kept as
-- such and read when the line is written.
--
-- Fuel. The loop of match and match_esc runs on `fuel_for`, the product of the two lengths, each
-- plus one, and the length of the mask plus one; match is proved to return within it for all
-- strings. put_loop of Dbuf runs on one more than the length of the new bytes and is proved to end
-- within it. The loops of Receive run on fuel given by the caller, and for clients a bound is
-- proved that is enough. strip_codes of Channel/Spam runs on the length of the text, and more
-- changes nothing. The loops of Dlink and Whowas run for a number of rounds given by the caller,
-- and the number of nodes and of slots are proved to be enough. A number is printed by Modes in ten
-- rounds, one for each digit that 32 bits have, and a timestamp by Sjoin in twenty. All else is
-- structural.
--
-- What is not modelled. Sockets, timers, logging and replies to clients are output; of a reply to
-- MODE the numeric is kept. The handlers of commands are a parameter of Receive and a result of
-- Parse, the lookup of reservations is a parameter of can_send, and find_chasing of src/client.c
-- and parse_netmask of src/hostmask.c are parameters of Modes and Sjoin. find_server of src/hash.c
-- and which servers are lost with one are parameters of Nick, and so is atol of the C library, of
-- texts that are no negative numbers, of Nick and Sjoin. The block heaps give a fresh block. The
-- code is read as built with CHANAQ, HALFOPS and HAVE_LIBCRYPTO, without NO_BAN_COOKIE and without
-- IPv6. The static buffer of check_nospam is taken to be long enough, which it is for a line of at
-- most 511 bytes. Of the files above these parts are left out: the list task of
-- src/hash.c, what modules/core/m_sjoin.c sends but for the texts of modes, the nicks
-- of local clients of modules/core/m_nick.c, report_messages and the handlers of src/parse.c, who
-- set a ban and when, the counts of servers by capabilities of src/channel_mode.c, and the topics,
-- names replies, bursts and the control of floods of joins of src/channel.c. The other files of src
-- and the modules, servlink and the copy of PCRE under lib are not modelled.
pub mod Prelude
pub mod Chars
pub mod Match
pub mod Dbuf
pub mod Packet
pub mod Channel
pub mod MsgTree
pub mod Event
pub mod Args
pub mod Receive
pub mod Hash
pub mod Directory
pub mod Dlink
pub mod Whowas
pub mod Modes
pub mod Parse
pub mod Sjoin
pub mod Nick
