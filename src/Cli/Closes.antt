-- ===== src/Cli/Closes.antt =====
-- What `cmd_close` of src/channel/cli.py settles of the channel in its file.
use bonded_subsat_channel.Base.{
  ℕ, suc, ◌+◌, ◌≡◌, ◌∙◌, refl, ap, inl, inr, none, List, [], ◌∷◌, ◌++◌, length, get_elem?,
  get_elem?-lt, some, arith, ok, ◌>>=◌, traverse, Result-cases,
}
use bonded_subsat_channel.Base.Int.{pos}
use bonded_subsat_channel.Base.Sums.{sum}
use bonded_subsat_channel.Config.{ChannelConfig}
use bonded_subsat_channel.Accounting.{quantise}
use bonded_subsat_channel.Accounting.Netting.{quantise-ok}
use bonded_subsat_channel.Accounting.Order.{range}
use bonded_subsat_channel.Accounting.Order.Counts.{length-range}
use bonded_subsat_channel.Chain.{Tx, TxOutput}
use bonded_subsat_channel.Cli.{Files, Line, load_channel, payout_line, cmd_close}
use bonded_subsat_channel.Cli.Documents.{Holds}
use bonded_subsat_channel.Crypto.{Crypto}
use bonded_subsat_channel.Lifecycle.{Channel}
use bonded_subsat_channel.Lifecycle.Closing.{state_or, cooperative_close}
use bonded_subsat_channel.Lifecycle.Payouts.{Sums}
use bonded_subsat_channel.Lifecycle.Settlement.{AllBelow, range_from-AllBelow}
use bonded_subsat_channel.Lifecycle.Signatures.{SignedClose}
use bonded_subsat_channel.Lifecycle.Signed.{cooperative_close_pays}
use bonded_subsat_channel.Store.{Codec}
use bonded_subsat_channel.Store.Recovery.{IsFaithful}
use bonded_subsat_channel.Verify.{verify_all_inputs}
use bonded_subsat_channel.Wallet.{sum_values}
use bonded_subsat_channel.Wallet.Outputs.{sum_values-Sums}

module _ (c : Crypto) (codec : Codec c) (tx_size : Tx → ℕ) (random_key : ℕ → c.PrivateKey)
    (faithful : IsFaithful c codec) where
  open c use {PrivateKey}
  open codec use {Text}

  abbrev At : ChannelConfig → List ℕ → Files Text → Type 0
  At = Holds c codec tx_size random_key faithful

  -- The lines for the parties in the list: the payout of each, its bond, and their sum.
  abbrev pub PaysLines : List ℕ → List ℕ → List ℕ → List Line → Type 0
  PaysLines q bonds [] lines = lines ≡ []
  PaysLines q bonds (i ∷ is) lines =
      (p : ℕ) × (b : ℕ) × (rest : List Line) × (get_elem? q i ≡ some p)
      × (get_elem? bonds i ≡ some b)
      × (lines ≡ Line.party_payout i p b (p + b) ∷ rest)
      × PaysLines q bonds is rest

  payout_lines-ok :
      (q bonds : List ℕ) (n : ℕ) (is : List ℕ)
      → length q ≡ n
      → length bonds ≡ n
      → AllBelow c n is
      → (lines : List Line) × (traverse (payout_line c codec tx_size random_key q bonds) is
          ≡ ok lines)
        × (length lines ≡ length is)
        × PaysLines q bonds is lines
  unfolding traverse payout_line
  payout_lines-ok q bonds n [] wq wb h = ([], refl, refl, refl)
  payout_lines-ok q bonds n (i ∷ is) wq wb h =
      let (p, ep) = get_elem?-lt q i (omega (arith, wq, h.0)) in
      let (b, eb) = get_elem?-lt bonds i (omega (arith, wb, h.0)) in
      let (lines, e, w, all) = payout_lines-ok q bonds n is wq wb h.1 in
      (
        Line.party_payout i p b (p + b) ∷ lines,
        rw (ep, eb, e),
        ap suc w,
        (p, b, lines, ep, eb, refl, all),
      )

  close_lines :
      (path : List ℕ) (files : Files Text) (ch : Channel PrivateKey) (total : ℕ) (signed : Tx)
      (spent : List TxOutput) {q : List ℕ} {payouts : List Line}
      → load_channel c codec tx_size random_key path files ≡ ok ch
      → cooperative_close c ch none
        ≡ (verify_all_inputs c.lib signed spent >>= λ _. ok (signed, spent))
      → quantise ch.state ch.cfg ≡ ok q
      → traverse (payout_line c codec tx_size random_key q ch.cfg.bonds) (range ch.cfg.n)
        ≡ ok payouts
      → sum_values signed.outputs ≡ pos total
      → cmd_close c codec tx_size random_key path files ≡ (
          verify_all_inputs c.lib signed spent >>= λ _.
          ok (files, payouts ++ Line.settled (pos total) ∷ Line.sized (tx_size signed) ∷ []))
  unfolding cmd_close
  close_lines path files ch total signed spent loads closes nets pays worth =
      elim (Result-cases (verify_all_inputs c.lib signed spent)) [
        | inl (_, accepted) ↦
            rw (cmd_close, loads, closes, accepted) (rw (accepted, nets, pays, worth))
        | inr (_, refused) ↦ rw (cmd_close, loads, closes, refused)
      ]

  -- The close of a channel in its file.
  pub cmd_close-settles :
      (cfg : ChannelConfig) (path : List ℕ) (files : Files Text)
      → At cfg path files
      → (signed : Tx) × (spent : List TxOutput) × (payouts : List Line) × (cmd_close c codec tx_size
            random_key path files
          ≡ (verify_all_inputs c.lib signed spent >>= λ _. ok (
            files,
            payouts
                ++ Line.settled (pos (cfg.s + sum cfg.bonds)) ∷ Line.sized (tx_size signed) ∷ [],
          )))
        × Sums signed.outputs (cfg.s + sum cfg.bonds)
        × (length payouts ≡ cfg.n)
        × ((q : List ℕ) × (sum q ≡ cfg.s) × PaysLines q cfg.bonds (range cfg.n) payouts)
        × ((ch : Channel PrivateKey) × (load_channel c codec tx_size random_key path files ≡ ok ch)
            × (ch.cfg ≡ cfg)
            × SignedClose c ch ch.state signed spent)
  unfolding range state_or
  cmd_close-settles cfg path files h =
      let ch : Channel PrivateKey = h.channel in
      let (signed, spent, closes, sums, _, _, signs) =
        cooperative_close_pays c ch none h.funded h.stored.conserved h.is_confirmed in
      let (q, nets, _, whole, width) =
        quantise-ok ch.state ch.cfg h.funded.valid h.stored.conserved in
      let (payouts, made, all, each) =
        payout_lines-ok q ch.cfg.bonds ch.cfg.n (range ch.cfg.n) width h.funded.valid.bonded
          (range_from-AllBelow c 0 ch.cfg.n ch.cfg.n (omega arith)) in
      let total : ℕ = ch.cfg.s + sum ch.cfg.bonds in
      rw (← h.same_cfg) (
        signed,
        spent,
        payouts,
        close_lines path files ch total signed spent h.loads closes nets made
            (sum_values-Sums signed.outputs total sums),
        sums,
        all ∙ length-range ch.cfg.n,
        (q, whole, each),
        (ch, h.loads, refl, signs),
      )
