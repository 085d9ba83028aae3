-- ===== src/Tests/Blocks.antt =====
-- The theorems on block headers at concrete inputs.
use bonded_subsat_channel.Base.{
  ℕ, ◌+◌, ◌≡◌, refl, none, some, false, Result, Error, err, List, [], ◌∷◌, ◌++◌, length, take, drop,
  replicate, ok,
}
use bonded_subsat_channel.Base.Int.{pos, ◌+ℤ◌}
use bonded_subsat_channel.Base.Bytes.{le, from_le, to_le, to_le_signed}
use bonded_subsat_channel.Node.Block.{merkle_root, merkle_level, serialise_block}
use bonded_subsat_channel.Node.P2p.{encode_varint, write_all}
use bonded_subsat_channel.Base.Dict.{lookup, insert, erase, nat_eq}
use bonded_subsat_channel.Node.Mempool.{Mempool, Event}
use bonded_subsat_channel.Node.Network.{EmbeddedNode}
use bonded_subsat_channel.Node.Network.Blocks.{
  make_coinbase, coinbase_reward, generate_block, mined_block, mine, fee_total, store_raw,
}
use bonded_subsat_channel.Node.Network.Mining.{Extended, generate_block-Extended}
use bonded_subsat_channel.Tests.Fixtures.{toy}
use bonded_subsat_channel.Chain.{Bytes, Tx}
use bonded_subsat_channel.Node.Headers.{
  Header, HeaderStore, connect, tip, with_genesis, build_raw_header, prev_hash, checked_header,
  add_header, header_hash, work_for_bits, bits_to_target, header_bits, chain_from_tip,
}
use bonded_subsat_channel.Node.Headers.Invariant.{Inv}
use bonded_subsat_channel.Node.Headers.Connect.{
  ConnectOutcome, connect-ConnectOutcome, with_genesis-Inv,
}
use bonded_subsat_channel.Node.Headers.Chains.{Descends, chain_from_tip-Descends}

-- a hash that is the last byte of a header
abbrev pub nonce_sha : Bytes → Bytes
nonce_sha b = take 1 (drop 76 b) ++ replicate 31 0

-- a header behind that of nonce `prev`, under the bits of regtest
abbrev pub header : ℕ → ℕ → Bytes
header prev nonce =
    replicate 4 0
    ++ (prev ∷ replicate 31 0)
    ++ replicate 32 0
    ++ replicate 4 0
    ++ (0xFF ∷ 0xFF ∷ 0x7F ∷ 0x20 ∷ [])
    ++ (nonce ∷ 0 ∷ 0 ∷ 0 ∷ [])

abbrev pub first_store : HeaderStore
first_store = record {
  by_hash = (1, record { raw = header 0 1; height = 0; cumulative_work = 2 }) ∷ [];
  tip_hash = 1;
}

first_store_is : with_genesis nonce_sha (header 0 1) ≡ ok first_store
unfolding with_genesis header_hash work_for_bits bits_to_target header_bits from_le
first_store_is = refl

pub first_Inv : Inv nonce_sha first_store
first_Inv =
    let (s, e, v) = with_genesis-Inv nonce_sha (header 0 1) refl in
    let same : s ≡ first_store = cc (e, first_store_is) in rw same at v

connect-ConnectOutcome_example :
    ConnectOutcome nonce_sha first_store first_Inv
      (header 1 2)
      (connect nonce_sha first_store (header 1 2))
connect-ConnectOutcome_example = connect-ConnectOutcome nonce_sha first_store first_Inv (header 1 2)

chain_from_tip-Descends_example :
    (hs : List Header) × (chain_from_tip nonce_sha first_store none ≡ ok (some hs))
    × Descends first_store first_Inv.top hs
    × (length hs ≡ first_Inv.top.height + 1)
chain_from_tip-Descends_example = chain_from_tip-Descends nonce_sha first_store first_Inv

abbrev pub miner : EmbeddedNode
miner = record {
  headers = first_store;
  mempool = record { store = record { blocks = []; utxos = [] }; entries = []; spent_by = [] };
  undo_log = [];
  created_log = [];
}

abbrev quiet : Event → Tx → Mempool × Unit {0} → Mempool × Unit {0}
quiet event tx s = s

abbrev pub nothing_read : Bytes → Result (Tx × Bytes)
nothing_read bs = err Error.value_error

abbrev block : List Tx
block = make_coinbase toy (pos coinbase_reward) [] 1 [] ∷ []

abbrev mining : Result (ℕ × List Tx) × (EmbeddedNode × Unit {0})
mining = generate_block toy nonce_sha (λ tx. []) nothing_read quiet [] false [] 9 (miner, tt)

mines : mining ≡ (ok (0, block), mining.1)
unfolding generate_block mined_block mine tip lookup merkle_root merkle_level build_raw_header le
    to_le_signed header_hash from_le bits_to_target connect prev_hash checked_header header_bits
    add_header insert store_raw serialise_block encode_varint to_le write_all fee_total ◌+ℤ◌ erase
mines = refl

unmined : lookup 0 first_store.by_hash ≡ none
unfolding lookup
unmined = refl

generate_block-Extended_example :
    Extended toy nonce_sha first_store first_Inv 0 block mining.1.0.headers
generate_block-Extended_example =
    generate_block-Extended toy nonce_sha (λ tx. []) nothing_read quiet [] false [] 9 miner tt
      first_Inv mines unmined
