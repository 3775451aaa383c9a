-- ===== src/Receive/Tests.antt =====
-- `parse_client_queued` of src/packet.c on a concrete client.
use unirc_ircd.Prelude.{refl, inl, inr, false, [], ◌∷◌, arith, replicate, Bool-cases, if◌then◌else◌}
use unirc_ircd.Dbuf.{DbufQueue, DbufBlock, copy_to, dbuf_block_size}
use unirc_ircd.Dbuf.Contents.{IsValid, BlockIsValid}
use unirc_ircd.Receive.{
  Receiver, stat_client, FloodConfig, DoPacket, flood_endgrace, parse_client_queued,
}
use unirc_ircd.Receive.Flood.{IsTame, KeepsLimit, parse_client_queued-KeepsLimit}

-- Two lines of one byte.
abbrev block : DbufBlock
block = record {
  size = 4;
  array = copy_to (replicate dbuf_block_size 0) 0 (b'a' ∷ 10 ∷ b'b' ∷ 10 ∷ []);
}

block-BlockIsValid : BlockIsValid block
block-BlockIsValid = record { fits = omega arith; whole = refl }

abbrev queue : DbufQueue
queue = record { blocks = block ∷ []; total_size = 4 }

queue-IsValid : IsValid queue
queue-IsValid = record {
  blocks_valid = (block-BlockIsValid, tt);
  counted = refl;
  in_range = omega arith;
}

abbrev client : Receiver
client = record {
  buf_recvq = queue;
  status = stat_client;
  is_defunct = false;
  is_oper = false;
  can_flood = false;
  flood_done = false;
  sent_parsed = 3;
  allow_read = 40;
}

abbrev conf : FloodConfig
conf = record { no_oper_flood = false; true_no_oper_flood = false }

-- A handler that ends the grace period.
abbrev end_grace : DoPacket
end_grace line s = if s.flood_done then s else flood_endgrace s

end_grace-IsTame : IsTame end_grace
unfolding flood_endgrace
end_grace-IsTame line s c v = elim (Bool-cases s.flood_done) [
  | inl e ↦ simp e (c, v, inl (refl, refl, refl))
  | inr e ↦ simp e (c, v, inr (refl, (refl, refl, refl)))
]

parse_client_queued-KeepsLimit_example : KeepsLimit (parse_client_queued conf end_grace 44 client)
parse_client_queued-KeepsLimit_example =
    parse_client_queued-KeepsLimit conf end_grace 44 client end_grace-IsTame queue-IsValid
      (omega arith) refl refl (omega arith)
