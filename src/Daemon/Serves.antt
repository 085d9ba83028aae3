-- ===== src/Daemon/Serves.antt =====
-- What the requests of src/channel/daemon.py leave of the service that answers them.
use bonded_subsat_channel.Base.{
  ℕ, ◌+◌, ◌≡◌, ◌∙◌, refl, ap, inl, inr, Bool, true, false, ◌||◌, Option, none, some, List, [], ◌∷◌,
  arith, get_elem?, Result, ok, err, Error, Result-cases, ◌>>=◌, or_raise,
}
use bonded_subsat_channel.Base.Int.{ℤ, pos, ◌+ℤ◌}
use bonded_subsat_channel.Base.Dict.{lookup-insert_self}
use bonded_subsat_channel.Base.Bytes.{bytes_eq}
use bonded_subsat_channel.Chain.{Bytes, Tx}
use bonded_subsat_channel.Crypto.{Crypto}
use bonded_subsat_channel.Daemon.{
  Request, Response, Server, generate, dispatch, handle, serve, blocks_generated,
}
use bonded_subsat_channel.Health.{Counters, counter, inc, collect}
use bonded_subsat_channel.Node.Headers.Invariant.{Inv}
use bonded_subsat_channel.Node.Headers.{store_height}
use bonded_subsat_channel.Node.Network.Kept.{generate_block-Inv}
use bonded_subsat_channel.Node.Network.Blocks.{generate_block}
use bonded_subsat_channel.Scripts.{p2pkh_script}
use bonded_subsat_channel.Store.{Codec}
use bonded_subsat_channel.Watchtower.{notify}

-- how many blocks an answer tells of
unfoldable pub told : Option Response → ℕ
told (some (Response.generated h txs)) = 1
told (some Response.pong) = 0
told (some Response.stopping) = 0
told (some Response.unknown) = 0
told (some (Response.status_of h)) = 0
told (some (Response.height_of h)) = 0
told (some (Response.failed e)) = 0
told none = 0

unfoldable pub blocks_told : List (Option Response) → ℕ
blocks_told [] = 0
blocks_told (answer ∷ answers) = told answer + blocks_told answers

-- whether a line asks to shut down
unfoldable pub asks : Option (Result Request) → Bool
asks (some (ok Request.shutdown)) = true
asks line = false

unfoldable pub asks_shutdown : List (ℕ × Option (Result Request)) → Bool
asks_shutdown [] = false
asks_shutdown ((now, line) ∷ lines) = asks line || asks_shutdown lines

counter-inc :
    (name : List ℕ) (v : ℤ) (d : Counters) → counter name (inc name v d) ≡ counter name d +ℤ v
unfolding counter inc
counter-inc name v d = rw (counter, lookup-insert_self name (counter name d +ℤ v) d) refl

+ℤ-zero : (z : ℤ) → z ≡ z +ℤ pos 0
unfolding ◌+ℤ◌
+ℤ-zero z = ground arith

+ℤ_assoc : (z : ℤ) (a b : ℕ) → (z +ℤ pos a) +ℤ pos b ≡ z +ℤ pos (a + b)
unfolding ◌+ℤ◌
+ℤ_assoc z a b = ground arith

||-false : (b : Bool) → b ≡ b || false
||-false false = refl
||-false true = refl

||-true : (b : Bool) → true ≡ b || true
||-true false = refl
||-true true = refl

||_assoc : (a b d : Bool) → (a || b) || d ≡ a || (b || d)
||_assoc false b d = refl
||_assoc true b d = refl

module _ (c : Crypto) (codec : Codec c) (double_sha256 : Bytes → Bytes) (tx_bytes : Tx → Bytes)
    (read_tx : Bytes → Result (Tx × Bytes))
    (public_key_from_hex : List ℕ → Result c.PublicKey) where
  open c use {PublicKey}

  abbrev Running : Type 0
  Running = Server c codec double_sha256 tx_bytes read_tx public_key_from_hex

  -- What answers with these blocks and this wish to shut down leave of the server.
  pub record Serves (before : Running) (blocks : ℕ) (shutdown : Bool) (after : Running)
      : Type 0 where
    pub linked : Inv double_sha256 after.service.node.headers
    pub counted :
        counter blocks_generated after.service.metrics
        ≡ counter blocks_generated before.service.metrics +ℤ pos blocks
    pub signalled : after.signalled ≡ before.signalled || shutdown
    pub managed : after.service.manager ≡ before.service.manager

  stays : (s : Running) → Inv double_sha256 s.service.node.headers → Serves s 0 false s
  stays s v = record {
    linked = v;
    counted = +ℤ-zero (counter blocks_generated s.service.metrics);
    signalled = ||-false s.signalled;
    managed = refl;
  }

  module _ (fuel : ℕ) where
    generate-Serves :
        (now : ℕ) (pk : PublicKey) (s : Running)
        → Inv double_sha256 s.service.node.headers
        → let (answer, after) =
            generate c codec double_sha256 tx_bytes read_tx public_key_from_hex fuel now pk s in
          Serves s (told (some (elim answer [ err e ↦ Response.failed e | ok r ↦ r ]))) false after
    unfolding generate told
    generate-Serves now pk s v =
        let srv = s.service in
        let run =
          generate_block c double_sha256 tx_bytes read_tx (notify c codec fuel) (p2pkh_script c pk)
            true [] now (srv.node, srv.watchers) in
        let keeps =
          generate_block-Inv c double_sha256 tx_bytes read_tx (notify c codec fuel)
            (p2pkh_script c pk) true [] now srv.node srv.watchers v in
        elim (Result-cases run.0) [
          | inr (raised, fails) ↦
              rw (generate, fails)
                (record {
                  linked = keeps;
                  counted = +ℤ-zero (counter blocks_generated srv.metrics);
                  signalled = ||-false s.signalled;
                  managed = refl;
                })
          | inl (block, finds) ↦
              rw (generate, finds)
                (record {
                  linked = keeps;
                  counted = counter-inc blocks_generated (pos 1) srv.metrics;
                  signalled = ||-false s.signalled;
                  managed = refl;
                })
        ]

    dispatch-Serves :
        (now : ℕ) (request : Request) (s : Running)
        → Inv double_sha256 s.service.node.headers
        → let (answer, after) =
            dispatch c codec double_sha256 tx_bytes read_tx public_key_from_hex fuel now request
              s in
          Serves s
            (told (some (elim answer [ err e ↦ Response.failed e | ok r ↦ r ])))
            (asks (some (ok request)))
            after
    unfolding dispatch told asks
    dispatch-Serves now Request.ping s v = stays s v
    dispatch-Serves now Request.status s v =
        elim (Result-cases (
          collect double_sha256 s.service.node s.service.manager
            (get_elem? s.service.watchers.towers 0))) [
              | inl (h, e) ↦ rw (dispatch, e) (stays s v)
              | inr (raised, e) ↦ rw (dispatch, e) (stays s v)
            ]
    dispatch-Serves now Request.shutdown s v = record {
      linked = v;
      counted = +ℤ-zero (counter blocks_generated s.service.metrics);
      signalled = ||-true s.signalled;
      managed = refl;
    }
    dispatch-Serves now Request.node_height s v =
        elim (Result-cases (store_height double_sha256 s.service.node.headers)) [
          | inl (h, e) ↦ rw (dispatch, e) (stays s v)
          | inr (raised, e) ↦ rw (dispatch, e) (stays s v)
        ]
    dispatch-Serves now Request.other s v = stays s v
    dispatch-Serves now (Request.node_generate text) s v =
        elim (Result-cases (or_raise text Error.index_error >>= public_key_from_hex)) [
          | inl (pk, e) ↦ rw (dispatch, e) (generate-Serves now pk s v)
          | inr (raised, e) ↦ rw (dispatch, e) (stays s v)
        ]

    handle-Serves :
        (now : ℕ) (line : Option (Result Request)) (s : Running)
        → Inv double_sha256 s.service.node.headers
        → let (answer, after) =
            handle c codec double_sha256 tx_bytes read_tx public_key_from_hex fuel now line s in
          Serves s (told answer) (asks line) after
    unfolding handle
    handle-Serves now none s v = unfold told asks in stays s v
    handle-Serves now (some (err e)) s v = unfold told asks in stays s v
    handle-Serves now (some (ok request)) s v = dispatch-Serves now request s v

    -- On a node whose headers are linked up, requests that come one after the other, each handled
    -- at a time of its own, keep them so and leave the manager alone, the counter of blocks rises by
    -- one for each answer that tells of a block, and the signal to shut down is set exactly if it was
    -- or a request asks for it.
    pub serve-Serves :
        (lines : List (ℕ × Option (Result Request))) (s : Running)
        → Inv double_sha256 s.service.node.headers
        → let (answers, after) =
            serve c codec double_sha256 tx_bytes read_tx public_key_from_hex fuel lines s in
          Serves s (blocks_told answers) (asks_shutdown lines) after
    unfolding serve blocks_told asks_shutdown
    serve-Serves [] s v = stays s v
    serve-Serves ((now, line) ∷ lines) s v =
        let (answer, middle) =
          handle c codec double_sha256 tx_bytes read_tx public_key_from_hex fuel now line s in
        let one = handle-Serves now line s v in
        let more = serve-Serves lines middle one.linked in
        let rest =
          (serve c codec double_sha256 tx_bytes read_tx public_key_from_hex fuel lines middle).0 in
        record {
          linked = more.linked;
          counted =
              more.counted ∙ ap (λ z. z +ℤ pos (blocks_told rest)) one.counted ∙ +ℤ_assoc _ _ _;
          signalled =
              more.signalled
              ∙ ap (λ b. b || asks_shutdown lines) one.signalled
              ∙ ||_assoc s.signalled (asks line) (asks_shutdown lines);
          managed = more.managed ∙ one.managed;
        }
