-- ===== src/Channel/Registry/Tests.antt =====
-- src/channel.c: a channel is made, two clients join, another is invited, and both leave.
use unirc_ircd.Prelude.{ℕ, ◌≡◌, refl, Bool, true, false, some, [], ◌∷◌}
use unirc_ircd.Hash.Spec.{added, deleted}
use unirc_ircd.Channel.Invites.{add_invite, del_invite, put_invite}
use unirc_ircd.Channel.Types.{Ban, hm_host}
use unirc_ircd.Channel.Registry.{
  Registry, set_lists, add_lazylinkchannel, make_channel, add_user_to_channel, invite, invites_of,
  with_invites, remove_user_from_channel, take_member, destroy_channel, uninvite,
}
use unirc_ircd.Channel.Registry.Sound.{Sound}
use unirc_ircd.Channel.Registry.Reach.{
  Reach, none_yet, made, joined, asked, linked, listed, left, nothing, open_after, Reach-Sound,
}

abbrev ban : Ban
ban = record {
  name = [];
  username = b'*' ∷ [];
  host = b'*' ∷ [];
  addr = 0;
  bits = 0;
  kind = hm_host;
}

abbrev two : Registry
two =
    add_user_to_channel 2 4 20 0
      (add_user_to_channel 1 4 10 4 (make_channel 7 4 (b'#' ∷ b'c' ∷ []) nothing))

abbrev three : Registry
three = with_invites 30 two (put_invite 4 30 (del_invite 4 30 (invites_of 30 two)))

abbrev live : ℕ → Bool
live = added 2 (added 1 (λ m. false))

abbrev opened : ℕ → Bool
opened = added 4 (λ c. false)

two_reached : Reach 7 10 true live opened two
two_reached =
    joined 2 4 20 0 (joined 1 4 10 4 (made 4 (b'#' ∷ b'c' ∷ []) none_yet refl) refl refl) refl refl

thirty_asked : invite 10 4 30 two ≡ some three
unfolding invite add_invite del_invite add_user_to_channel make_channel
thirty_asked = refl

three_reached : Reach 7 10 true live opened three
three_reached = asked {s1 = three} 4 30 two_reached refl thirty_asked

-- The channel is noted for a lazy link, and has a ban.
abbrev four : Registry
four = set_lists 4 (ban ∷ []) [] [] (add_lazylinkchannel 4 three)

four_reached : Reach 7 10 true live opened four
unfolding add_user_to_channel make_channel put_invite del_invite
four_reached = listed 4 (ban ∷ []) [] [] (linked 4 three_reached refl refl) refl

abbrev one : Registry
one = remove_user_from_channel 7 true 1 four

abbrev still_open : ℕ → Bool
still_open = open_after 1 four opened

-- The last one leaves: the channel, and the invitation, are gone.
none_left : (remove_user_from_channel 7 true 2 one).invited 30 ≡ []
unfolding remove_user_from_channel take_member destroy_channel uninvite add_user_to_channel
    make_channel put_invite del_invite add_lazylinkchannel
none_left = refl

unlinked : (remove_user_from_channel 7 true 2 one).lazylink_channels ≡ []
unfolding remove_user_from_channel take_member destroy_channel uninvite add_user_to_channel
    make_channel put_invite del_invite add_lazylinkchannel
unlinked = refl

none_reached :
    Reach 7 10 true
      (deleted 2 (deleted 1 live))
      (open_after 2 one still_open)
      (remove_user_from_channel 7 true 2 one)
none_reached = left 2 (left 1 four_reached refl) refl

Reach-Sound_example :
    Sound 7 true
      (deleted 2 (deleted 1 live))
      (open_after 2 one still_open)
      (remove_user_from_channel 7 true 2 one)
Reach-Sound_example = Reach-Sound none_reached
