-- ===== src/Sjoin/Tests.antt =====
-- modules/core/m_sjoin.c: three servers' views of a channel, and the burst of an older channel with the operator 2.
use mathlib.Core.List.{Permᴰ}
use unirc_ircd.Modes.Show.{channel_modes}
use unirc_ircd.Sjoin.Relay.{IsSendable, channel_modes-sjoin_modes}
use unirc_ircd.Prelude.{
  ◌++◌, ◌&&◌, ◌≡◌, refl, true, false, some, [], ◌∷◌, arith, ◌==◌, if◌then◌else◌,
}
use unirc_ircd.Chars.{Bytes}
use unirc_ircd.Channel.Types.{hm_host, Config}
use unirc_ircd.Modes.Types.{moderated, secret, bit, owner, member_bit, ChannelMode, Flag}
use unirc_ircd.Sjoin.Letters.{sjoin_modes, sjoin_flags, no_modes}
use unirc_ircd.Sjoin.Settle.{Side}
use unirc_ircd.Sjoin.Agreement.{AllSent, after_bursts, after_bursts-perm}
use unirc_ircd.Sjoin.Final.{set_final_mode}
use unirc_ircd.Sjoin.Final.Told.{read_flags, in_table, set_final_mode-read}
use unirc_ircd.Sjoin.Members.{nick_words, Room, Burst}

abbrev quiet : ChannelMode
quiet = record no_modes { mode = λ f. bit f == bit moderated; limit = 7 }

abbrev hidden : ChannelMode
hidden = record no_modes { mode = λ f. bit f == bit secret; key = b'k' ∷ [] }

abbrev noisy : ChannelMode
noisy = record quiet { key = b'k' ∷ [] }

abbrev here : Side
here = record { ts = 900000007; modes = quiet }

abbrev there : Side
there = record { ts = 900000007; modes = hidden }

abbrev old_one : Side
old_one = record { ts = 900000005; modes = no_modes }

set_final_mode-read_example :
    read_flags true (set_final_mode hidden quiet).0 quiet.mode moderated
    ≡ (if in_table moderated sjoin_flags then hidden.mode moderated else quiet.mode moderated)
set_final_mode-read_example = set_final_mode-read hidden quiet moderated

-- No more is asked of modes with numbers and keys as these.
quiet-IsSendable : IsSendable quiet
quiet-IsSendable = record {
  limit = omega arith;
  key = tt;
  key_fits = omega arith;
  forward = tt;
  forward_fits = omega arith;
  msgs = omega arith;
  per = omega arith;
  both = refl;
  at_most_one = refl;
}

hidden-IsSendable : IsSendable hidden
hidden-IsSendable = record {
  limit = omega arith;
  key = (refl, tt);
  key_fits = omega arith;
  forward = tt;
  forward_fits = omega arith;
  msgs = omega arith;
  per = omega arith;
  both = refl;
  at_most_one = refl;
}

none-IsSendable : IsSendable no_modes
none-IsSendable = record {
  limit = omega arith;
  key = tt;
  key_fits = omega arith;
  forward = tt;
  forward_fits = omega arith;
  msgs = omega arith;
  per = omega arith;
  both = refl;
  at_most_one = refl;
}

quiet_letters : (f : Flag) → quiet.mode f ≡ true → in_table f sjoin_flags ≡ true
quiet_letters f h = ground (arith, h)

hidden_letters : (f : Flag) → hidden.mode f ≡ true → in_table f sjoin_flags ≡ true
hidden_letters f h = ground (arith, h)

three_sent : AllSent (here ∷ there ∷ old_one ∷ [])
three_sent = (
  quiet-IsSendable,
  quiet_letters,
  (hidden-IsSendable, hidden_letters, (none-IsSendable, λ f h. cc h, tt)),
)

after_bursts-perm_example :
    after_bursts (b'@' ∷ b'2' ∷ []) (here ∷ there ∷ old_one ∷ [])
    ≡ after_bursts (b'@' ∷ b'2' ∷ []) (there ∷ here ∷ old_one ∷ [])
after_bursts-perm_example =
    after_bursts-perm {xs = here ∷ there ∷ old_one ∷ []} {ys = there ∷ here ∷ old_one ∷ []}
      (b'@' ∷ b'2' ∷ []) (Permᴰ.swap refl refl) (omega arith, (omega arith, (omega arith, tt)))
      three_sent (three_sent.2.0, three_sent.2.1, (three_sent.0, three_sent.1, three_sent.2.2))

noisy-IsSendable : IsSendable noisy
noisy-IsSendable = record {
  limit = omega arith;
  key = (refl, tt);
  key_fits = omega arith;
  forward = tt;
  forward_fits = omega arith;
  msgs = omega arith;
  per = omega arith;
  both = refl;
  at_most_one = refl;
}

channel_modes-sjoin_modes_example :
    sjoin_modes
      (channel_modes true noisy).0
      (nick_words (channel_modes true noisy).1 ++ (b'@' ∷ b'2' ∷ []) ∷ [])
      no_modes
    ≡ some (
      record noisy { mode = λ f. noisy.mode f && in_table f sjoin_flags },
      (b'@' ∷ b'2' ∷ []) ∷ [],
    )
channel_modes-sjoin_modes_example =
    channel_modes-sjoin_modes noisy (b'@' ∷ b'2' ∷ []) noisy-IsSendable

abbrev conf : Config
conf = record {
  use_except = true;
  use_invex = true;
  quiet_on_ban = false;
  restrict_channels = false;
  disable_fake_channels = false;
  oper_pass_resv = false;
  current_time = 100;
}

abbrev burst : Burst
burst = record {
  atol = λ s. 900000003;
  is_client = false;
  has_id = true;
  id = b'4' ∷ b'2' ∷ b'X' ∷ [];
  ignore_bogus_ts = true;
  from_there = λ c. true;
  env = record {
    source = record {
      number = 9;
      my_client = false;
      is_oper = false;
      is_services = false;
      client_is_server = true;
    };
    find_chasing = λ s. some 2;
    parse_netmask = λ s. (hm_host, 0, 0);
    person = λ c. record {
      name = b'n' ∷ [];
      id = b'i' ∷ [];
      is_client = true;
      is_services = false;
      is_ssl = true;
      my_connect = true;
    };
    nicklen = 30;
    max_bans = 25;
    conf = conf;
  };
}

abbrev room : Room
room = record {
  ts = 900000007;
  chan = record {
    mode = quiet;
    members = 1 ∷ [];
    flags = λ c f. member_bit f == member_bit owner;
    banlist = [];
    exceptlist = [];
    invexlist = [];
  };
}

abbrev name : Bytes
name = b'#' ∷ b'a' ∷ []

abbrev op_two : Bytes
op_two = b'@' ∷ b'2' ∷ []
