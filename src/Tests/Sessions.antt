-- ===== src/Tests/Sessions.antt =====
-- The theorems on the command line, on seeds and on selections at concrete inputs.
use bonded_subsat_channel.Base.{
  Bool, ℕ, ◌+◌, ◌≡◌, ◌≢◌, refl, true, false, List, [], ◌∷◌, ◌++◌, length, replicate, arith, ok, err,
  Error,
}
use bonded_subsat_channel.Base.Int.{pos}
use bonded_subsat_channel.Chain.{Bytes, Tx}
use bonded_subsat_channel.Cli
use bonded_subsat_channel.Lifecycle
use bonded_subsat_channel.Scripts
use bonded_subsat_channel.Cli.{File, Files, Command, Flags}
use bonded_subsat_channel.Config.{ChannelConfig, default_l0, default_delta}
use bonded_subsat_channel.Hd.{Hashes, encrypt_seed, decrypt_seed}
use bonded_subsat_channel.Hd.Seeds.{IsSized, decrypt_seed-encrypt_seed}
use bonded_subsat_channel.Lifecycle.Payouts.{Sums}
use bonded_subsat_channel.Node.BlockStore.{UtxoEntry}
use bonded_subsat_channel.Tests.Stores.{Doc}
use bonded_subsat_channel.Wallet.{select_utxos}
use bonded_subsat_channel.Wallet.Selection.{SelectOutcome, select_utxos-SelectOutcome}

abbrev tx_size : Tx → ℕ
tx_size tx = 10

abbrev drawn : ℕ → ℕ
drawn j = 11 + j

abbrev quiet : Flags
quiet = record { no_banner = true; mainnet = false; confirmed = false }

abbrev uniform : ChannelConfig
uniform = record {
  n = 3;
  k = 10;
  s = 7;
  bonds = 5 ∷ 5 ∷ 5 ∷ [];
  l0 = default_l0;
  delta = default_delta;
}

abbrev path : List ℕ
path = 97 ∷ []

-- a file of transfers beside that of the channel
abbrev idle : Files Doc
idle = ((98 ∷ []), File.array ((pos 0 ∷ pos 1 ∷ pos 25 ∷ []) ∷ [])) ∷ []

abbrev runs : List (Bool × Flags × Command)
runs =
    (false, quiet, Command.transfer_command (98 ∷ []) path)
    ∷ (true, quiet, Command.contested_command (pos 4) path)
    ∷ []

-- hashes that only have the right size
abbrev flat : Hashes
flat = record {
  derive_key = λ passphrase salt. passphrase;
  sha256 = λ m. replicate 32 7;
  hmac = λ k m. replicate 32 (length k);
}

flat-IsSized : IsSized flat
flat-IsSized = record {
  sha256_width = λ m. refl;
  sha256_bytes = λ m. omega arith;
  hmac_width = λ k m. refl;
}

abbrev salt : Bytes
salt = replicate 16 1

abbrev nonce : Bytes
nonce = replicate 16 2

abbrev seed : Bytes
seed = 3 ∷ 200 ∷ 5 ∷ []

decrypt_seed-encrypt_seed_example :
    (ct : Bytes) × (let tag = flat.hmac (flat.derive_key (9 ∷ []) salt) (salt ++ (nonce ++ ct)) in
      let blob = salt ++ (nonce ++ (ct ++ tag)) in
      (encrypt_seed flat salt nonce seed (9 ∷ []) ≡ ok blob)
      × (length ct ≡ 3)
      × (decrypt_seed flat blob (9 ∷ []) ≡ ok seed)
      × ((other : Bytes)
          → flat.hmac (flat.derive_key other salt) (salt ++ (nonce ++ ct)) ≢ tag
          → decrypt_seed flat blob other ≡ err Error.wallet))
decrypt_seed-encrypt_seed_example =
    decrypt_seed-encrypt_seed flat flat-IsSized salt nonce seed (9 ∷ []) refl refl (omega arith)
      (omega arith)

abbrev coin : ℕ → ℕ → UtxoEntry
coin i v = record { txid = 4; vout = i; value = pos v; script_pubkey = []; height = pos 3 }

select_utxos-SelectOutcome_example :
    let coins = coin 0 20 ∷ coin 1 70 ∷ coin 2 40 ∷ [] in
    SelectOutcome coins (pos 100) (select_utxos coins (pos 100))
select_utxos-SelectOutcome_example =
    select_utxos-SelectOutcome (coin 0 20 ∷ coin 1 70 ∷ coin 2 40 ∷ []) 100 (omega arith)
