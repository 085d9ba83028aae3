-- ===== src/Cli/Settles.antt =====
-- What a session of the program of src/channel/cli.py comes to: a channel that is opened, used and
-- closed through its file.
use bonded_subsat_channel.Base.{Bool, ℕ, List, [], ◌∷◌}
use bonded_subsat_channel.Config.{ChannelConfig}
use bonded_subsat_channel.Chain.{Tx}
use bonded_subsat_channel.Cli.{Files, run_program, Command, Flags}
use bonded_subsat_channel.Cli.Documents.{Holds}
use bonded_subsat_channel.Cli.Session.{Spares}
use bonded_subsat_channel.Crypto.{Crypto}
use bonded_subsat_channel.Lifecycle.Payouts.{Sums}
use bonded_subsat_channel.Store.{Codec}
use bonded_subsat_channel.Store.Recovery.{IsFaithful}

module _ (c : Crypto) (codec : Codec c) (tx_size : Tx → ℕ) (random_key : ℕ → c.PrivateKey)
    (faithful : IsFaithful c codec) where
  open c use {PrivateKey}
  open codec use {Text}

  abbrev At : ChannelConfig → List ℕ → Files Text → Type 0
  At = Holds c codec tx_size random_key faithful

  abbrev pub Run : Type 0
  Run = Bool × Flags × Command

  -- runs of the program, one after the other
  unfoldable pub after_runs : List Run → Files Text → Files Text
  after_runs [] files = files
  after_runs ((shown, flags, command) ∷ runs) files =
      after_runs runs (run_program c codec tx_size random_key shown flags command files).1.files

  -- none of them opens another channel in the file at the path
  abbrev pub AllSpare : List ℕ → List Run → Type 0
  AllSpare path [] = Unit {0}
  AllSpare path ((shown, flags, command) ∷ runs) =
      Spares c codec tx_size random_key faithful path command × AllSpare path runs
