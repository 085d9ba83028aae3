-- ===== src/Tests/Chains.antt =====
-- The theorems on blocks and the node at concrete inputs.
use bonded_subsat_channel.Base.{
  ℕ, ◌≡◌, refl, true, none, some, [], ◌∷◌, Result, ok, err, Error, arith,
}
use bonded_subsat_channel.Base.Int.{pos}
use bonded_subsat_channel.Base.Dict.{lookup, outpoint_eq}
use bonded_subsat_channel.Chain.{Bytes, Outpoint, Tx}
use bonded_subsat_channel.Node.Block.{serialise_block, parse_block}
use bonded_subsat_channel.Node.Block.RoundTrip.{parse_block-serialise_block}
use bonded_subsat_channel.Node.Mempool.{Mempool, Event}
use bonded_subsat_channel.Node.Network.{
  EmbeddedNode, created_of, created_outputs, connect_block_with_undo, disconnect_block,
}
use bonded_subsat_channel.Node.Network.Undo.{is_one, disconnect_block-connect_block_with_undo}
use bonded_subsat_channel.Node.Network.Forks.{accept_block}
use bonded_subsat_channel.Node.Network.Reorg.{accept_block_ends}
use bonded_subsat_channel.Tests.Fixtures.{toy, toy_lib}
use bonded_subsat_channel.Tests.Blocks.{nonce_sha, header, first_store, first_Inv}
use bonded_subsat_channel.Tests.Pool.{spending, store, empty_pool}

-- transactions that are told apart by their version and the locktime
abbrev blank : ℕ → Tx
blank v = record { version = v; inputs = []; outputs = []; locktime = 0 }

abbrev tx_bytes : Tx → Bytes
tx_bytes tx = tx.version ∷ []

abbrev read_tx : Bytes → Result (Tx × Bytes)
read_tx [] = err Error.value_error
read_tx (v ∷ rest) = ok (blank v, rest)

parse_block-serialise_block_example :
    (bs : Bytes) × (serialise_block tx_bytes read_tx (header 1 2) (blank 3 ∷ blank 4 ∷ []) ≡ ok bs)
    × (parse_block tx_bytes read_tx bs ≡ ok (header 1 2, blank 3 ∷ blank 4 ∷ []))
parse_block-serialise_block_example =
    parse_block-serialise_block tx_bytes read_tx (header 1 2) (blank 3 ∷ blank 4 ∷ [])
      (λ rest. refl, (λ rest. refl, tt)) refl (omega arith)

abbrev node : EmbeddedNode
node = record { headers = first_store; mempool = empty_pool; undo_log = []; created_log = [] }

fresh_outputs :
    (op : Outpoint)
    → is_one op (created_of toy_lib (spending 1 ∷ [])) ≡ true
    → lookup op store.utxos ≡ none
unfolding created_of created_outputs lookup
fresh_outputs (txid, vout) h = ground (arith, h)

disconnect_block-connect_block_with_undo_example :
    lookup
      (5, 0)
      (disconnect_block 7
        (connect_block_with_undo toy_lib 7 (pos 4) (spending 1 ∷ []) node)).mempool.store.utxos
    ≡ lookup (5, 0) store.utxos
disconnect_block-connect_block_with_undo_example =
    disconnect_block-connect_block_with_undo toy_lib 7 (pos 4) (spending 1 ∷ []) node fresh_outputs
      (5, 0)

-- nobody observes
abbrev silent : Event → Tx → Mempool × ℕ → Mempool × ℕ
silent ev tx x = x

accept_block_ends_example :
    (r : Result (Unit {0}) × (EmbeddedNode × ℕ)) × (accept_block toy nonce_sha tx_bytes read_tx
        silent 1
        (header 1 2)
        (blank 3 ∷ [])
        (node, 0)
      ≡ some r)
accept_block_ends_example =
    accept_block_ends toy nonce_sha tx_bytes read_tx silent 1 (header 1 2) (blank 3 ∷ []) node 0
      first_Inv
