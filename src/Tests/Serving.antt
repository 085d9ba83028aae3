-- ===== src/Tests/Serving.antt =====
-- The theorem on the requests of a daemon at a concrete input.
use bonded_subsat_channel.Base.{ℕ, false, none, some, List, [], ◌∷◌, ok, err, Error, Option, Result}
use bonded_subsat_channel.Daemon.{Request, Server, serve}
use bonded_subsat_channel.Daemon.Serves.{Serves, serve-Serves, blocks_told, asks_shutdown}
use bonded_subsat_channel.Tests.Blocks.{nonce_sha, nothing_read, miner, first_Inv}
use bonded_subsat_channel.Tests.Fixtures.{toy}
use bonded_subsat_channel.Tests.Stores.{plain}

abbrev key_of : List ℕ → Result ℕ
key_of [] = err Error.value_error
key_of (d ∷ ds) = ok d

abbrev running : Server toy plain nonce_sha (λ tx. []) nothing_read key_of
running = record {
  service = record {
    node = miner;
    watchers = record { towers = []; observers = [] };
    manager = record {
      store = record { wallet_seed = none; channel_meta = []; channel_states = [] };
      channels = [];
      closed_channels = [];
    };
    metrics = [];
  };
  signalled = false;
}

-- the lines, and when they come
abbrev lines : List (ℕ × Option (Result Request))
lines =
    (9, some (ok Request.ping))
    ∷ (10, some (ok (Request.node_generate (some (104 ∷ [])))))
    ∷ (10, none)
    ∷ (12, some (err Error.value_error))
    ∷ (15, some (ok Request.shutdown))
    ∷ []

serve-Serves_example :
    let (answers, after) =
      serve toy plain nonce_sha (λ tx. []) nothing_read key_of 2 lines running in
    Serves toy plain nonce_sha
      (λ tx. [])
      nothing_read
      key_of
      running
      (blocks_told answers)
      (asks_shutdown lines)
      after
serve-Serves_example =
    serve-Serves toy plain nonce_sha (λ tx. []) nothing_read key_of 2 lines running first_Inv
