-- ===== src/Cli/Session.antt =====
-- Runs of the program of src/channel/cli.py on the file of one channel: what the commands keep, and
-- what `close` settles in the end.
use bonded_subsat_channel.Base.{
  ℕ, ◌≡◌, ◌≢◌, ◌∙◌, ◌⊎◌, refl, sym, ap, inl, inr, none, List, map, length-map, arith, ok,
  Bool-cases, >>=-eq-ok,
}
use bonded_subsat_channel.Base.Int.{ℤ, pos}
use bonded_subsat_channel.Base.Dict.{lookup}
use bonded_subsat_channel.Base.Bytes.{bytes_eq, same_bytes, same_bytes-≡, same_bytes_refl}
use bonded_subsat_channel.Config
use bonded_subsat_channel.Config.{
  ChannelConfig, repeat_bond, uniform_bond, default_l0, default_delta,
}
use bonded_subsat_channel.Config.Validity.{make_config-IsValid}
use bonded_subsat_channel.Accounting.Order.{range}
use bonded_subsat_channel.Accounting.Order.Counts.{length-range}
use bonded_subsat_channel.Chain.{Tx}
use bonded_subsat_channel.Cli.{
  Files, Line, Command, random_keys, save_channel, load_channel, cmd_open, cmd_close, cmd_contested,
  run_command,
}
use bonded_subsat_channel.Cli.Documents.{Holds, load_channel-save_channel, open_channel-IsStored}
use bonded_subsat_channel.Cli.Transfers.{
  save_channel-others, cmd_transfer_parts, cmd_transfer-Holds,
}
use bonded_subsat_channel.Crypto.{Crypto}
use bonded_subsat_channel.Lifecycle.{mark_confirmed, open_channel}
use bonded_subsat_channel.Lifecycle.Funding.{open_channel-ok}
use bonded_subsat_channel.Store.{Codec}
use bonded_subsat_channel.Store.Recovery.{IsFaithful, IsStored}

module _ (c : Crypto) (codec : Codec c) (tx_size : Tx → ℕ) (random_key : ℕ → c.PrivateKey)
    (faithful : IsFaithful c codec) where
  open c use {PrivateKey}
  open codec use {Text}

  abbrev At : ChannelConfig → List ℕ → Files Text → Type 0
  At = Holds c codec tx_size random_key faithful

  Holds-lookup :
      {cfg : ChannelConfig} {path : List ℕ} {files saved : Files Text}
      → lookup path saved ≡ lookup path files
      → At cfg path files
      → At cfg path saved
  unfolding load_channel
  Holds-lookup same h = record {
    channel = h.channel;
    loads = rw same h.loads;
    stored = h.stored;
    funded = h.funded;
    is_confirmed = h.is_confirmed;
    same_cfg = h.same_cfg;
  }

  -- `open` that ends well makes a channel of the configuration in its file.
  pub cmd_open-Holds :
      (parties k funded bond : ℤ) (out : List ℕ) (files : Files Text) {cfg : ChannelConfig}
      {saved : Files Text} {lines : List Line}
      → uniform_bond parties k funded bond (pos default_l0) (pos default_delta) ≡ ok cfg
      → cmd_open c codec tx_size random_key parties k funded bond out files ≡ ok (saved, lines)
      → At cfg out saved
  unfolding cmd_open uniform_bond random_keys mark_confirmed
  cmd_open-Holds parties k funded bond out files {cfg} {saved} made e =
      let valid : Config.IsValid cfg =
        ((make_config-IsValid cfg parties k funded (repeat_bond bond parties) (pos default_l0)
            (pos default_delta)).0
          made).0 in
      let keys : List PrivateKey = map random_key (range cfg.n) in
      let (ch, opens, is_funded, conserved, _, _, same) =
        open_channel-ok c cfg keys valid (length-map (range cfg.n) random_key ∙ length-range cfg.n)
          (0, 0) none in
      let stored : IsStored c codec faithful (mark_confirmed c ch) =
        open_channel-IsStored c codec tx_size random_key faithful cfg keys (0, 0) none ch opens
          is_funded conserved in
      let (written, saves, e1) =
        >>=-eq-ok (save_channel c codec tx_size random_key (mark_confirmed c ch) out files) _
          (rw (made, opens) at e) in
      let is : written ≡ saved = cc e1 in
      record {
        channel = mark_confirmed c ch;
        loads =
            rw (← is)
              (load_channel-save_channel c codec tx_size random_key faithful (mark_confirmed c ch)
                out files saves stored).0;
        stored = stored;
        funded = record {
          valid = is_funded.valid;
          keyed = is_funded.keyed;
          bonded = is_funded.bonded;
          script = is_funded.script;
          output = is_funded.output;
        };
        is_confirmed = refl;
        same_cfg = same;
      }

  -- The command does not open another channel in the file at the path.
  abbrev pub Spares : List ℕ → Command → Type 0
  Spares path (Command.open_command parties k funded bond out) = path ≢ out
  Spares path (Command.transfer_command script state) = Unit {0}
  Spares path (Command.close_command state) = Unit {0}
  Spares path (Command.contested_command offender state) = Unit {0}

  same_path : (j path : List ℕ) → (j ≡ path) ⊎ (j ≢ path)
  same_path j path = elim (Bool-cases (same_bytes j path)) [
    | inl same ↦ inl (same_bytes-≡ j path same)
    | inr other ↦ inr (λ e. cc (other, ap (same_bytes j) (sym e), same_bytes_refl j))
  ]

  close_files :
      (state : List ℕ) (files : Files Text) {saved : Files Text} {lines : List Line}
      → cmd_close c codec tx_size random_key state files ≡ ok (saved, lines)
      → saved ≡ files
  unfolding cmd_close
  close_files state files e = ground arith

  contested_files :
      (offender : ℤ) (state : List ℕ) (files : Files Text) {saved : Files Text} {lines : List Line}
      → cmd_contested c codec tx_size random_key offender state files ≡ ok (saved, lines)
      → saved ≡ files
  unfolding cmd_contested
  contested_files offender state files e = ground arith

  -- What a command that ends well leaves in the files.
  pub run_command-Holds :
      (command : Command) (path : List ℕ) (files : Files Text) {cfg : ChannelConfig}
      {saved : Files Text} {lines : List Line}
      → run_command c codec tx_size random_key command files ≡ ok (saved, lines)
      → Spares path command
      → At cfg path files
      → At cfg path saved
  unfolding run_command cmd_open
  run_command-Holds (Command.open_command parties k funded bond out) path files {saved} e sp h =
      let (cfg', _, e1) =
        >>=-eq-ok (uniform_bond parties k funded bond (pos default_l0) (pos default_delta)) _ e in
      let (ch, _, e3) = >>=-eq-ok (open_channel c cfg' _ (0, 0) none) _ e1 in
      let (written, e4, e5) =
        >>=-eq-ok (save_channel c codec tx_size random_key (mark_confirmed c ch) out files) _ e3 in
      let same : written ≡ saved = cc e5 in
      Holds-lookup
        (ap (lookup path) (sym same)
          ∙ save_channel-others c codec tx_size random_key faithful (mark_confirmed c ch) out files
              e4 path sp)
        h
  run_command-Holds (Command.transfer_command script state) path files {saved} e sp h =
      elim (same_path path state) [
        | inl here ↦ rw here (
            cmd_transfer-Holds c codec tx_size random_key faithful script state files e
              (rw here at h))
        | inr there ↦
            let (_, _, next, _, _, saves) =
              cmd_transfer_parts c codec tx_size random_key faithful script state files e in
            Holds-lookup
              (save_channel-others c codec tx_size random_key faithful next state files saves path
                there)
              h
      ]
  run_command-Holds (Command.close_command state) path files e sp h =
      Holds-lookup (ap (lookup path) (close_files state files e)) h
  run_command-Holds (Command.contested_command offender state) path files e sp h =
      Holds-lookup (ap (lookup path) (contested_files offender state files e)) h
