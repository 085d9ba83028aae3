-- ===== src/Cli/Transfers.antt =====
-- What `cmd_transfer` of src/channel/cli.py keeps of the channel in its file.
use bonded_subsat_channel.Base.{ℕ, ◌+◌, ◌≡◌, ◌≢◌, ◌∙◌, refl, ap, List, length, ok, >>=-eq-ok}
use bonded_subsat_channel.Base.Int.{ℤ}
use bonded_subsat_channel.Base.Dict.{lookup, insert, lookup-insert_ne}
use bonded_subsat_channel.Base.Bytes.{bytes_eq}
use bonded_subsat_channel.Config.{ChannelConfig}
use bonded_subsat_channel.Accounting.{assert_conservation_over_sequence}
use bonded_subsat_channel.Accounting.Runs.{assert_conservation_over_sequence-RunOutcome}
use bonded_subsat_channel.Chain.{Tx}
use bonded_subsat_channel.Cli.{
  File, Files, Line, triples, save_channel, load_channel, load_script, cmd_transfer,
}
use bonded_subsat_channel.Cli.Documents.{Holds, load_channel-save_channel}
use bonded_subsat_channel.Crypto.{Crypto}
use bonded_subsat_channel.Lifecycle.{Channel, funding_txid, apply_sequence}
use bonded_subsat_channel.Lifecycle.Settlement.{IsFunded}
use bonded_subsat_channel.Persistence.{channel_to_dict}
use bonded_subsat_channel.Store.{Codec}
use bonded_subsat_channel.Store.Recovery.{IsFaithful, IsStored}

module _ (c : Crypto) (codec : Codec c) (tx_size : Tx → ℕ) (random_key : ℕ → c.PrivateKey)
    (faithful : IsFaithful c codec) where
  open c use {PrivateKey}
  open codec use {Text}

  abbrev At : ChannelConfig → List ℕ → Files Text → Type 0
  At = Holds c codec tx_size random_key faithful

  -- A channel after transfers is stored and funded as it was.
  apply_sequence-keeps :
      (ch : Channel PrivateKey) (ops : List (ℤ × ℤ × ℤ)) {next : Channel PrivateKey}
      → apply_sequence c ch ops ≡ ok next
      → IsStored c codec faithful ch
      → IsFunded c ch
      → IsStored c codec faithful next
        × IsFunded c next
        × (next.funding_confirmed ≡ ch.funding_confirmed)
        × (next.cfg ≡ ch.cfg)
        × (next.state.version ≡ ch.state.version + length ops)
  unfolding apply_sequence funding_txid
  apply_sequence-keeps ch ops {next} e w f =
      let (s, es, en) =
        >>=-eq-ok (assert_conservation_over_sequence ch.state ops ch.cfg)
          (λ s. ok (record ch { state = s })) e in
      let (conserved, counted) =
        rw es at (assert_conservation_over_sequence-RunOutcome ch.state ch.cfg ops w.conserved) in
      let same : record ch { state = s } ≡ next = cc en in
      rw (← same) (
        record {
          valid = w.valid;
          keyed = w.keyed;
          conserved = conserved;
          own_bonds = w.own_bonds;
          parent_value = w.parent_value;
          parent = w.parent;
        },
        record {
          valid = f.valid;
          keyed = f.keyed;
          bonded = f.bonded;
          script = f.script;
          output = f.output;
        },
        refl,
        refl,
        counted,
      )

  pub save_channel-others :
      (ch : Channel PrivateKey) (path : List ℕ) (files : Files Text) {saved : Files Text}
      → save_channel c codec tx_size random_key ch path files ≡ ok saved
      → (j : List ℕ) → j ≢ path
      → lookup j saved ≡ lookup j files
  unfolding save_channel
  save_channel-others ch path files {saved} e j ne =
      let (doc, _, e1) = >>=-eq-ok (channel_to_dict c codec ch) _ e in
      let (text, _, e2) = >>=-eq-ok (codec.dumps_channel doc) _ e1 in
      let same : insert path (File.document text) files ≡ saved = cc e2 in
      rw (← same) (lookup-insert_ne j path (File.document text) files ne)

  -- What a run of transfers that ends well goes through.
  pub cmd_transfer_parts :
      (script state : List ℕ) (files : Files Text) {saved : Files Text} {lines : List Line}
      → cmd_transfer c codec tx_size random_key script state files ≡ ok (saved, lines)
      → (ch : Channel PrivateKey) × (ops : List (ℤ × ℤ × ℤ)) × (next : Channel PrivateKey)
        × (load_channel c codec tx_size random_key state files ≡ ok ch)
        × (apply_sequence c ch ops ≡ ok next)
        × (save_channel c codec tx_size random_key next state files ≡ ok saved)
  unfolding cmd_transfer
  cmd_transfer_parts script state files {saved} e =
      let (ch, e0, e1) = >>=-eq-ok (load_channel c codec tx_size random_key state files) _ e in
      let (ops, _, e3) = >>=-eq-ok (load_script c codec tx_size random_key script files) _ e1 in
      let (seq, _, e5) = >>=-eq-ok (triples ops) _ e3 in
      let (next, e6, e7) = >>=-eq-ok (apply_sequence c ch seq) _ e5 in
      let (written, e8, e9) =
        >>=-eq-ok (save_channel c codec tx_size random_key next state files) _ e7 in
      let same : written ≡ saved = cc e9 in (ch, seq, next, e0, e6, e8 ∙ ap ok same)

  -- A run of transfers that ends well leaves the channel in its file.
  pub cmd_transfer-Holds :
      (script state : List ℕ) (files : Files Text) {cfg : ChannelConfig} {saved : Files Text}
      {lines : List Line}
      → cmd_transfer c codec tx_size random_key script state files ≡ ok (saved, lines)
      → At cfg state files
      → At cfg state saved
  cmd_transfer-Holds script state files {cfg} {saved} e h =
      let (ch, ops, next, loads, applies, saves) = cmd_transfer_parts script state files e in
      let same : h.channel ≡ ch = cc (h.loads, loads) in
      let (stored, is_funded, flag, kept, _) =
        apply_sequence-keeps h.channel ops (rw same applies) h.stored h.funded in
      let (reads, _) =
        load_channel-save_channel c codec tx_size random_key faithful next state files saves
          stored in
      record {
        channel = next;
        loads = reads;
        stored = stored;
        funded = is_funded;
        is_confirmed = flag ∙ h.is_confirmed;
        same_cfg = kept ∙ h.same_cfg;
      }
