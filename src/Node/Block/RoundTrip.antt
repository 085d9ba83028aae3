-- ===== src/Node/Block/RoundTrip.antt =====
-- Blocks as bytes and back (src/channel/node/block.py).
use mathlib.Core.List.{append_assoc, append-nil}
use bonded_subsat_channel.Base.{
  ◌<◌, ◌≡◌, refl, List, [], ◌++◌, length, arith, Result, ok, length-append,
}
use bonded_subsat_channel.Base.Bytes.{limit, take-append, drop-append}
use bonded_subsat_channel.Chain.{Bytes, Tx}
use bonded_subsat_channel.Node.Block.{serialise_block, parse_block}
use bonded_subsat_channel.Node.Headers.{header_size}
use bonded_subsat_channel.Node.P2p.Varints.{read_varint-encode_varint}
use bonded_subsat_channel.Node.P2p.Messages.{All, read_all-write_all}

module _ (tx_bytes : Tx → Bytes) (read_tx : Bytes → Result (Tx × Bytes)) where
  -- The transaction, written at the front of a buffer, is read back from it.
  abbrev pub ReadsBack : Tx → Type 0
  ReadsBack tx = (rest : Bytes) → read_tx (tx_bytes tx ++ rest) ≡ ok (tx, rest)

  -- A block of a header of 80 bytes and fewer than 2 ^ 64 transactions is written and read back,
  -- when each of its transactions, written at the front of a buffer, is read back from it.
  pub parse_block-serialise_block :
      (header : Bytes) (txs : List Tx)
      → All ReadsBack txs
      → length header ≡ header_size
      → length txs < limit 8
      → (bs : Bytes) × (serialise_block tx_bytes read_tx header txs ≡ ok bs)
        × (parse_block tx_bytes read_tx bs ≡ ok (header, txs))
  unfolding serialise_block parse_block
  parse_block-serialise_block header txs back sized few =
      let (body, eb, rb) =
        read_all-write_all ReadsBack (λ tx. ok (tx_bytes tx)) read_tx
          (λ tx rest reads. (tx_bytes tx, refl, reads rest)) txs [] back in
      let (n, en, rn) = read_varint-encode_varint (length txs) body few in
      let whole : header ++ n ++ body ≡ header ++ (n ++ body) = simp append_assoc in
      (
        header ++ n ++ body,
        ground (arith, sized, en, eb),
        rw
            (
              whole,
              take-append header (n ++ body) 80 sized,
              drop-append header (n ++ body) 80 sized,
              length-append header (n ++ body),
              rn,
              rw (append-nil body) at rb,
            )
            (ground (arith, sized)),
      )
