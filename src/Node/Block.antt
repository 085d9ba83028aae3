-- ===== src/Node/Block.antt =====
-- src/channel/node/block.py: the root of the tree of hashes over a block's transactions, and a block
-- as bytes. `Tx.to_bytes` and `Tx.read` of bitcoinx are the parameters `tx_bytes` and `read_tx`.
pub mod Merkle
pub mod RoundTrip
use bonded_subsat_channel.Base.{
  ℕ, zero, suc, not, Option, none, some, List, [], ◌∷◌, ◌++◌, length, take, drop, replicate, Result,
  ok, Error, ◌>>=◌, ◌>>◌, raise_if, ltb, ◌==◌, if◌then◌else◌,
}
use bonded_subsat_channel.Base.Int.{pos}
use bonded_subsat_channel.Chain.{Bytes, Tx}
use bonded_subsat_channel.Node.Headers.{header_size}
use bonded_subsat_channel.Node.P2p.{encode_varint, read_varint, read_all, write_all}

module _ (double_sha256 : Bytes → Bytes) where
  -- a round of `merkle_root`; the last of an odd number is paired with itself
  unfoldable pub pair_up : List Bytes → List Bytes
  pair_up [] = []
  pair_up (x ∷ []) = double_sha256 (x ++ x) ∷ []
  pair_up (x ∷ y ∷ rest) = double_sha256 (x ++ y) ∷ pair_up rest

  -- `while len(level) > 1`; `none` is a loop that has not ended when the fuel is out
  unfoldable pub merkle_level : ℕ → List Bytes → Option Bytes
  merkle_level fuel [] = none
  merkle_level fuel (x ∷ []) = some x
  merkle_level zero (x ∷ y ∷ rest) = none
  merkle_level (suc fuel) (x ∷ y ∷ rest) = merkle_level fuel (pair_up (x ∷ y ∷ rest))

  -- a level is shorter than the one before it, so their number is fuel enough
  unfoldable pub merkle_root : List Bytes → Option Bytes
  merkle_root [] = some (replicate 32 0)
  merkle_root (x ∷ rest) = merkle_level (length rest) (x ∷ rest)

module _ (tx_bytes : Tx → Bytes) (read_tx : Bytes → Result (Tx × Bytes)) where
  unfoldable pub serialise_block : Bytes → List Tx → Result Bytes
  serialise_block header txs = do
    raise_if (not (length header == header_size)) Error.value_error
    n ← encode_varint (pos (length txs))
    body ← write_all (λ tx. ok (tx_bytes tx)) txs
    ok (header ++ n ++ body)

  unfoldable pub parse_block : Bytes → Result (Bytes × List Tx)
  parse_block raw = do
    raise_if (ltb (length raw) header_size) Error.value_error
    let header = take header_size raw
    (n, buf) ← read_varint (drop header_size raw)
    (txs, _) ← read_all read_tx n buf
    ok (header, txs)
