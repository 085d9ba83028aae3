-- ===== src/Cli.antt =====
-- src/channel/cli.py: the commands on the files of channels, and the part of the program around
-- them. The parser of arguments and the commands that call a daemon are left out. A file is what
-- the commands read from one: the text of a JSON object, which `Codec` reads and writes, a JSON
-- array of arrays of whole numbers, or text that is no JSON. An exception that comes with a file
-- system or with JSON and not with the package is `value_error`. What is printed is a list of
-- lines, without the heading of the payouts.
pub mod Documents
pub mod Transfers
pub mod Session
pub mod Closes
pub mod Settles
use bonded_subsat_channel.Base.{
  ℕ, ◌+◌, ◌-◌, Bool, true, false, not, ◌&&◌, none, List, [], ◌∷◌, ◌++◌, map, length, get_elem?,
  Result, ok, err, Error, ◌>>=◌, or_raise, if◌then◌else◌, traverse,
}
use bonded_subsat_channel.Base.Int.{ℤ, pos, in_range}
use bonded_subsat_channel.Base.Dict.{Dict, lookup, insert}
use bonded_subsat_channel.Base.Bytes.{bytes_eq}
use bonded_subsat_channel.Config.{uniform_bond, default_l0, default_delta}
use bonded_subsat_channel.Accounting.{quantise}
use bonded_subsat_channel.Accounting.Order.{range}
use bonded_subsat_channel.Chain.{Tx}
use bonded_subsat_channel.Crypto.{Crypto}
use bonded_subsat_channel.Keys.{KeyBook}
use bonded_subsat_channel.Lifecycle.{Channel, open_channel, mark_confirmed, apply_sequence}
use bonded_subsat_channel.Lifecycle.Closing.{cooperative_close, forfeit_bond_tx}
use bonded_subsat_channel.Persistence.{channel_to_dict, dict_to_channel}
use bonded_subsat_channel.SafeMode.{Mode, SafetyState, initial_mode, set_mode}
use bonded_subsat_channel.Store.{Codec}
use bonded_subsat_channel.Verify.{verify_spend, verify_all_inputs}
use bonded_subsat_channel.Wallet.{sum_values}

pub data File (Text : Type 0) : Type 0 where
  document : Text → File Text
  array : List (List ℤ) → File Text
  no_json : File Text

-- a path is the list of its code points
abbrev pub Files : Type 0 → Type 0
Files Text = Dict (List ℕ) (File Text)

pub data Line : Type 0 where
  research_banner mainnet_banner needs_acknowledgement : Line
  opened : List ℕ → Line
  applied : (transfers version : ℕ) → Line
  party_payout : (party q bond total : ℕ) → Line
  settled : ℤ → Line
  sized : ℕ → Line
  bond_forfeited : (offender : ℤ) (bond : ℕ) → Line
  distributed : (counterparties : ℕ) (total : ℤ) → Line
  failed : Error → Line

-- `len(op) != 3` of each entry of the script
unfoldable pub triples : List (List ℤ) → Result (List (ℤ × ℤ × ℤ))
triples [] = ok []
triples ((a ∷ b ∷ d ∷ []) ∷ ops) = do rest ← triples ops; ok ((a, b, d) ∷ rest)
triples (op ∷ ops) = err Error.channel

-- `args`, for the commands on files
pub data Command : Type 0 where
  open_command : (parties k funded bond : ℤ) (out : List ℕ) → Command
  transfer_command : (script state : List ℕ) → Command
  close_command : (state : List ℕ) → Command
  contested_command : (offender : ℤ) (state : List ℕ) → Command

pub record Flags : Type 0 where
  pub no_banner : Bool
  pub mainnet : Bool
  pub confirmed : Bool

-- what a run of the program reads and changes besides its arguments
pub record Process (Text : Type 0) : Type 0 where
  pub files : Files Text
  pub safety : SafetyState
  pub banner_shown : Bool
  pub printed : List Line

abbrev pub prints : {Text : Type 0} → Line → Process Text → Process Text
prints line p = record p { printed = p.printed ++ (line ∷ []) }

-- src/channel/safety.py, which marks the environment of the process
unfoldable pub emit_banner_once : {Text : Type 0} → Process Text → Process Text
emit_banner_once p =
    if p.banner_shown
    then p
    else record p { banner_shown = true; printed = p.printed ++ (Line.research_banner ∷ []) }

-- `except ChannelError`
unfoldable pub is_channel_error : Error → Bool
is_channel_error Error.value_error = false
is_channel_error Error.index_error = false
is_channel_error Error.runtime_error = false
is_channel_error Error.overflow = false
is_channel_error e = true

module _ (c : Crypto) (codec : Codec c) (tx_size : Tx → ℕ) (random_key : ℕ → c.PrivateKey) where
  open c use {PrivateKey, PublicKey}
  open codec use {Text}

  -- `KeyBook.random`, where the keys drawn are numbered
  unfoldable pub random_keys : ℕ → KeyBook c
  random_keys n = map random_key (range n)

  -- src/channel/persistence.py
  unfoldable pub save_channel : Channel PrivateKey → List ℕ → Files Text → Result (Files Text)
  save_channel ch path files = do
    doc ← channel_to_dict c codec ch
    text ← codec.dumps_channel doc
    ok (insert path (File.document text) files)

  -- the file that is found, as a channel
  unfoldable pub parse_channel : File Text → Result (Channel PrivateKey)
  parse_channel (File.document text) = codec.loads_channel text >>= dict_to_channel c codec
  parse_channel (File.array items) = err Error.value_error
  parse_channel File.no_json = err Error.persistence

  unfoldable pub load_channel : List ℕ → Files Text → Result (Channel PrivateKey)
  load_channel path files = do
    file ← or_raise (lookup path files) Error.persistence
    parse_channel file

  -- a command returns the files and the lines that it prints
  abbrev pub Ran : Type 0
  Ran = Result (Files Text × List Line)

  unfoldable pub cmd_open : ℤ → ℤ → ℤ → ℤ → List ℕ → Files Text → Ran
  cmd_open parties k funded bond out files = do
    cfg ← uniform_bond parties k funded bond (pos default_l0) (pos default_delta)
    ch ← open_channel c cfg (random_keys cfg.n) (0, 0) none
    saved ← save_channel (mark_confirmed c ch) out files
    ok (saved, Line.opened out ∷ [])

  -- `json.load(fh)`, and whether it is a list
  unfoldable pub load_script : List ℕ → Files Text → Result (List (List ℤ))
  load_script path files = do
    file ← or_raise (lookup path files) Error.value_error
    elim file [
      | File.document text ↦ err Error.channel
      | File.array items ↦ ok items
      | File.no_json ↦ err Error.value_error
    ]

  unfoldable pub cmd_transfer : List ℕ → List ℕ → Files Text → Ran
  cmd_transfer script state files = do
    ch ← load_channel state files
    ops ← load_script script files
    seq ← triples ops
    next ← apply_sequence c ch seq
    saved ← save_channel next state files
    ok (saved, Line.applied (length seq) next.state.version ∷ [])

  -- the line of party `i`
  unfoldable pub payout_line : List ℕ → List ℕ → ℕ → Result Line
  payout_line q bonds i = do
    share ← or_raise (get_elem? q i) Error.index_error
    bond ← or_raise (get_elem? bonds i) Error.index_error
    ok (Line.party_payout i share bond (share + bond))

  unfoldable pub cmd_close : List ℕ → Files Text → Ran
  cmd_close state files = do
    ch ← load_channel state files
    (tx, utxos) ← cooperative_close c ch none
    _ ← verify_all_inputs c.lib tx utxos
    q ← quantise ch.state ch.cfg
    payouts ← traverse (payout_line q ch.cfg.bonds) (range ch.cfg.n)
    ok (files, payouts ++ Line.settled (sum_values tx.outputs) ∷ Line.sized (tx_size tx) ∷ [])

  -- the offender is the index of a party once the forfeiture has passed it
  unfoldable pub cmd_contested : ℤ → List ℕ → Files Text → Ran
  cmd_contested offender state files = do
    ch ← load_channel state files
    (tx, utxos) ← forfeit_bond_tx c ch offender none (pos 0)
    spent ← or_raise (get_elem? utxos 0) Error.index_error
    _ ← verify_spend c.lib tx 0 spent
    o ← in_range Error.index_error (length ch.cfg.bonds) offender
    bond ← or_raise (get_elem? ch.cfg.bonds o) Error.index_error
    ok (
      files,
      Line.bond_forfeited offender bond
          ∷ Line.distributed (ch.cfg.n - 1) (sum_values tx.outputs)
          ∷ [],
    )

  -- `args.func(args)`
  unfoldable pub run_command : Command → Files Text → Ran
  run_command (Command.open_command parties k funded bond out) files =
      cmd_open parties k funded bond out files
  run_command (Command.transfer_command script state) files = cmd_transfer script state files
  run_command (Command.close_command state) files = cmd_close state files
  run_command (Command.contested_command offender state) files = cmd_contested offender state files

  -- the last lines of `main`: the status that the program exits with, or the exception that ends it
  unfoldable pub finish : Command → Process Text → Result ℕ × Process Text
  finish command p = elim (run_command command p.files) [
    | ok (files, lines) ↦ (ok 0, record p { files = files; printed = p.printed ++ lines })
    | err e ↦ if is_channel_error e then (ok 2, prints (Line.failed e) p) else (err e, p)
  ]

  -- behind the call of `set_mode` for the main network
  unfoldable pub opted_in :
      Command → Result (Unit {0}) × SafetyState → Process Text → Result ℕ × Process Text
  opted_in command (err e, safety) p = (err e, record p { safety = safety })
  opted_in command (ok _, safety) p =
      finish command (prints Line.mainnet_banner (record p { safety = safety }))

  unfoldable pub main : Flags → Command → Process Text → Result ℕ × Process Text
  main flags command before =
      let p = if flags.no_banner then before else emit_banner_once before in
      if flags.mainnet && not flags.confirmed
      then (ok 2, prints Line.needs_acknowledgement p)
      else if flags.mainnet
      then opted_in command (set_mode Mode.mainnet true p.safety) p
      else finish command p

  -- A run of the program is a process of its own: it finds the files as they are and starts in the
  -- mode of a new process; `shown` tells whether the environment that it is given has the mark of
  -- the banner.
  unfoldable pub run_program : Bool → Flags → Command → Files Text → Result ℕ × Process Text
  run_program shown flags command files =
      main flags command
        (record { files = files; safety = initial_mode; banner_shown = shown; printed = [] })
