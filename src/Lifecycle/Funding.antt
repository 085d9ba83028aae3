-- ===== src/Lifecycle/Funding.antt =====
-- Opening a channel in src/channel/lifecycle.py, step by step.
use bonded_subsat_channel.Base.{
  ℕ, ◌+◌, ◌<◌, ◌≡◌, refl, sym, ◌∙◌, inl, inr, false, Option, some, List, [], ◌∷◌, length,
  length-map, get_elem?, get_elem?-lt, arith, ok, Result-cases,
}
use bonded_subsat_channel.Base.Int.{ℤ}
use bonded_subsat_channel.Base.Sums.{sum}
use bonded_subsat_channel.Config
use bonded_subsat_channel.Config.{ChannelConfig, final_sequence}
use bonded_subsat_channel.Accounting.{at, ensure_whole_satoshi}
use bonded_subsat_channel.Accounting.Winners.{get_elem?-at}
use bonded_subsat_channel.Accounting.Order.{range}
use bonded_subsat_channel.Accounting.Conserved.{IsConserved}
use bonded_subsat_channel.Bond.{BondOutput, make_bond_script_for}
use bonded_subsat_channel.Chain.{Bytes, Hash, Tx, TxOutput}
use bonded_subsat_channel.Crypto.{Crypto, op_true}
use bonded_subsat_channel.Keys.{KeyBook, public_keys}
use bonded_subsat_channel.Lifecycle.{
  Channel, all_but, pays, unsigned, bond_tx_output, build_channel_outputs, bond_output,
  wrap_funding, parent_or, open_channel,
}
use bonded_subsat_channel.Lifecycle.Forfeit.{length-all_but}
use bonded_subsat_channel.Lifecycle.Settlement.{IsFunded, range_from-AllBelow}
use bonded_subsat_channel.Scripts.{bond_script, channel_funding_script}
use bonded_subsat_channel.Lifecycle.Seeding.{
  seeded, seeded-IsConserved, initial_state-ok, map-at-range, traverse-ok,
}

module _ (c : Crypto) where
  open c use {PrivateKey, PublicKey}

  make_bond_script_for-ok :
      (owner : PublicKey) (cps : List PublicKey)
      → 0 < length cps
      → (script : Bytes) × (make_bond_script_for c owner cps ≡ ok script)
  unfolding make_bond_script_for bond_script
  make_bond_script_for-ok owner [] h = absurd (omega arith)
  make_bond_script_for-ok owner (p ∷ ps) h =
      elim (Result-cases (make_bond_script_for c owner (p ∷ ps))) [
        | inl built ↦ built
        | inr (x, e) ↦ ground (arith, e)
      ]

  channel_funding_script-ok :
      (pubs : List PublicKey)
      → 0 < length pubs
      → (script : Bytes) × (channel_funding_script c pubs ≡ ok script)
  unfolding channel_funding_script
  channel_funding_script-ok pubs h = elim (Result-cases (channel_funding_script c pubs)) [
    | inl built ↦ built
    | inr (x, e) ↦ ground (arith, e)
  ]

  module _ (cfg : ChannelConfig) (keybook : KeyBook c) (valid : Config.IsValid cfg)
      (keyed : length keybook ≡ cfg.n) where
    pubs_width : length (public_keys c keybook) ≡ cfg.n
    unfolding public_keys
    pubs_width = length-map keybook c.public_key ∙ keyed

    counterparties : (i : ℕ) → i < cfg.n → 0 < length (all_but i (public_keys c keybook))
    counterparties i lt =
        let pubs : List PublicKey = public_keys c keybook in
        omega
          (arith, pubs_width, valid.parties, length-all_but {0} i pubs (omega (arith, pubs_width)))

    bond_tx_output-ok :
        (i : ℕ)
        → i < cfg.n
        → (o : TxOutput) × (bond_tx_output c cfg (public_keys c keybook) i ≡ ok o)
    unfolding bond_tx_output
    bond_tx_output-ok i lt =
        let (pk, ek) = get_elem?-lt (public_keys c keybook) i (omega (arith, pubs_width)) in
        let (b, eb) = get_elem?-lt cfg.bonds i (omega (arith, valid.bonded)) in
        let (script, es) =
          make_bond_script_for-ok pk (all_but i (public_keys c keybook)) (counterparties i lt) in
        (pays b script, ground (arith, ek, eb, es))

    bond_output-ok :
        (txid : Hash) (i : ℕ)
        → i < cfg.n
        → (o : BondOutput) × (bond_output c cfg (public_keys c keybook) txid i ≡ ok o)
          × (o.value ≡ at cfg.bonds i)
    unfolding bond_output
    bond_output-ok txid i lt =
        let (pk, ek) = get_elem?-lt (public_keys c keybook) i (omega (arith, pubs_width)) in
        let (b, eb) = get_elem?-lt cfg.bonds i (omega (arith, valid.bonded)) in
        let (script, es) =
          make_bond_script_for-ok pk (all_but i (public_keys c keybook)) (counterparties i lt) in
        (
          record {
            owner_index = i;
            value = b;
            funding_txid = txid;
            vout = 1 + i;
            locking_script = script;
          },
          ground (arith, ek, eb, es),
          sym (get_elem?-at cfg.bonds i eb),
        )

    -- The outputs that fund the channel are built: the channel's output, then the bonds.
    pub build_channel_outputs-ok :
        (script : Bytes) × (bonds : List TxOutput) × (build_channel_outputs c cfg keybook
          ≡ ok (pays cfg.s script ∷ bonds))
    unfolding build_channel_outputs
    build_channel_outputs-ok =
        let (script, es) =
          channel_funding_script-ok (public_keys c keybook)
            (omega (arith, pubs_width, valid.parties)) in
        let (bonds, eb, _) =
          traverse-ok c (bond_tx_output c cfg (public_keys c keybook)) (λ o. 0) (λ i. 0) cfg.n
            (range cfg.n) (λ i lt. (let (o, e) = bond_tx_output-ok i lt in (o, e, refl)))
            (unfold range in range_from-AllBelow c 0 cfg.n cfg.n (omega arith)) in
        (script, bonds, ground (arith, keyed, es, eb))

    -- What wrapping a funding transaction with the right channel output establishes.
    pub wrap_funding-ok :
        (tx : Tx) (parents : List TxOutput) (script : Bytes)
        → get_elem? tx.outputs 0 ≡ some (pays cfg.s script)
        → (ch : Channel PrivateKey) × (wrap_funding c cfg keybook tx parents ≡ ok ch)
          × IsFunded c ch
          × (ch.state ≡ seeded cfg 0)
          × (ch.funding_confirmed ≡ false)
          × (ch.cfg ≡ cfg)
    unfolding wrap_funding
    wrap_funding-ok tx parents script first =
        let txid : Hash = c.lib.tx_hash tx in
        let (bonds, eb, vb) =
          traverse-ok c (bond_output c cfg (public_keys c keybook) txid) (λ o. o.value)
            (at cfg.bonds) cfg.n (range cfg.n) (bond_output-ok txid)
            (unfold range in range_from-AllBelow c 0 cfg.n cfg.n (omega arith)) in
        (
          record {
            cfg = cfg;
            keybook = keybook;
            funding_tx = tx;
            funding_utxos = parents;
            funding_confirmed = false;
            state = seeded cfg 0;
            bonds = bonds;
          },
          ground (arith, keyed, eb, initial_state-ok cfg 0 (omega (arith, valid.parties))),
          record {
            valid = valid;
            keyed = keyed;
            bonded = vb ∙ map-at-range cfg.bonds cfg.n valid.bonded;
            script = script;
            output = first;
          },
          refl,
          refl,
          refl,
        )

    pub open_channel-ok :
        (outpoint : Hash × ℕ) (parent_value : Option ℤ)
        → (ch : Channel PrivateKey) × (open_channel c cfg keybook outpoint parent_value ≡ ok ch)
          × IsFunded c ch
          × IsConserved ch.state ch.cfg
          × (ch.state ≡ seeded cfg 0)
          × (ch.funding_confirmed ≡ false)
          × (ch.cfg ≡ cfg)
    unfolding open_channel ensure_whole_satoshi
    open_channel-ok (h, i) parent_value =
        let (script, bonds, e) = build_channel_outputs-ok in
        let tx : Tx = record {
          version = 1;
          inputs = unsigned h i final_sequence ∷ [];
          outputs = pays cfg.s script ∷ bonds;
          locktime = 0;
        } in
        let spent : ℤ = parent_or c parent_value (cfg.s + sum cfg.bonds) in
        let parents : List TxOutput =
          record { value = spent; script_pubkey = c.push_op [] op_true } ∷ [] in
        let (ch, ew, funded, es, eu, ec) = wrap_funding-ok tx parents script refl in
        (
          ch,
          ground (arith, e, ew),
          funded,
          rw (es, ec) (seeded-IsConserved cfg 0 (omega (arith, valid.parties))),
          es,
          eu,
          ec,
        )
