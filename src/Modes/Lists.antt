-- ===== src/Modes/Lists.antt =====
-- `chm_ban`, `chm_except` and `chm_invex` of src/channel_mode.c. The three differ in the order of their
-- first tests, in their numerics, and in what is told to whom.
use unirc_ircd.Prelude.{
  ℕ, Bool, true, false, not, ◌&&◌, ◌||◌, none, List, [], ◌∷◌, ◌++◌, ◌==◌, ltb, if◌then◌else◌,
}
use unirc_ircd.Chars.{Bytes}
use unirc_ircd.Channel.Types.{Ban}
use unirc_ircd.Modes.Types.{
  Dir, query, add, del, Mems, all_members, only_chanops, only_servers, Caps, no_caps, cap_ex,
  cap_ie, Change, text, Env, Work, chaccess_halfop, err_chanoprivsneeded, add_change, deny, limited,
}
use unirc_ircd.Modes.Masks.{Kind, chfl_ban, chfl_exception, chfl_invex, list_of, add_id, del_id}

-- A list is told once: a numeric for each entry, and one for the end.
abbrev pub tell_each : ℕ → List Ban → List ℕ → List ℕ
tell_each numeric [] told = told
tell_each numeric (b ∷ bs) told = numeric ∷ tell_each numeric bs told

abbrev pub tell : Bool → ℕ → ℕ → Kind → Work → Work
tell before each end kind w =
    if before
    then w
    else record w { replies = w.replies ++ tell_each each (list_of kind w.chan) (end ∷ []) }

-- 367, 348 and 346 are RPL_BANLIST, RPL_EXCEPTLIST and RPL_INVITELIST, the ends one more.
unfoldable pub tell_bans : Work → Work
tell_bans w = record (tell w.errors.rpl_b 367 368 chfl_ban w) {
  errors = record (w.errors) { rpl_b = true };
}

unfoldable pub tell_excepts : Work → Work
tell_excepts w = record (tell w.errors.rpl_e 348 349 chfl_exception w) {
  errors = record (w.errors) { rpl_e = true };
}

unfoldable pub tell_invexes : Work → Work
tell_invexes w = record (tell w.errors.rpl_i 346 347 chfl_invex w) {
  errors = record (w.errors) { rpl_i = true };
}

unfoldable pub has_space : Bytes → Bool
has_space [] = false
has_space (c ∷ s) = if c == b' ' then true else has_space s

abbrev pub list_change : ℕ → Dir → Caps → Mems → Bytes → Change
list_change letter dir caps mems mask = record {
  letter = letter;
  arg = text mask;
  id = none;
  dir = dir;
  caps = caps;
  mems = mems;
}

-- What is recorded if the function on the list succeeds, or whether it does or not.
abbrev pub record_if : Bool → (Bytes → Change) → Bool × Bytes × Work → Work
record_if always change (done, mask, w) =
    if done then add_change (change mask) w else if always then add_change (change mask) w else w

unfoldable pub change_list : Env → Kind → ℕ → Caps → Mems → Bool → Dir → Bytes → Work → Work
change_list env kind letter caps mems cookie query mask w = w
change_list env kind letter caps mems cookie add mask w =
    record_if false (list_change letter add caps mems) (add_id env kind mask w)
change_list env kind letter caps mems cookie del mask w =
    record_if cookie (list_change letter del caps mems) (del_id env kind mask w)

-- From the count of modes on.
abbrev pub mask_param : Env → (Bytes → Work → Work) → List Bytes → Work → Work
mask_param env go [] w = w
mask_param env go (p ∷ ps) w =
    let taken = record w { params = ps } in
    if env.source.client_is_server && has_space p then taken else go p taken

abbrev pub no_params : List Bytes → Bool
no_params [] = true
no_params (p ∷ ps) = false

abbrev pub is_query : Dir → Bool
is_query query = true
is_query _ = false

abbrev pub is_adding : Dir → Bool
is_adding add = true
is_adding _ = false

-- Removing a ban is told whether it was there or not.
abbrev pub set_list : Env → Kind → ℕ → Caps → Mems → Bool → Dir → Work → Work
set_list env kind letter caps mems cookie dir w =
    limited env w
      (λ w1. mask_param env (change_list env kind letter caps mems cookie dir) w1.params w1)

unfoldable pub chm_ban : Env → ℕ → Dir → Work → Work
chm_ban env alev dir w =
    if is_query dir || no_params w.params
    then tell_bans w
    else if ltb alev chaccess_halfop
    then deny err_chanoprivsneeded alev w
    else set_list env chfl_ban b'b' no_caps all_members true dir w

-- Where exceptions are off, a local client adds none; the same for invitations.
unfoldable pub chm_except : Env → ℕ → Dir → Work → Work
chm_except env alev dir w =
    if not env.conf.use_except && env.source.my_client && is_adding dir && not (no_params w.params)
    then record w { errors = record (w.errors) { rpl_e = true } }
    else if ltb alev chaccess_halfop
    then deny err_chanoprivsneeded alev w
    else if is_query dir || no_params w.params
    then tell_excepts w
    else set_list env chfl_exception b'e' cap_ex
        (if env.conf.use_except then only_chanops else only_servers) false dir w

unfoldable pub chm_invex : Env → ℕ → Dir → Work → Work
chm_invex env alev dir w =
    if not env.conf.use_invex && env.source.my_client && is_adding dir && not (no_params w.params)
    then record w { errors = record (w.errors) { rpl_i = true } }
    else if ltb alev chaccess_halfop
    then deny err_chanoprivsneeded alev w
    else if is_query dir || no_params w.params
    then tell_invexes w
    else set_list env chfl_invex b'I' cap_ie
        (if env.conf.use_invex then only_chanops else only_servers) false dir w
