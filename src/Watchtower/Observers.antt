-- ===== src/Watchtower/Observers.antt =====
-- The watchtowers of src/channel/watchtower/tower.py as observers of the mempool: what they keep of
-- it when they submit transactions to it from within a notification.
use bonded_subsat_channel.Base.{
  ℕ, zero, suc, ◌≡◌, refl, inl, inr, List, [], ◌∷◌, get_elem?, Result, Option-cases, Result-cases,
}
use bonded_subsat_channel.Base.Dict.{nat_eq}
use bonded_subsat_channel.Chain.{Tx, TxInput}
use bonded_subsat_channel.Crypto.{Crypto}
use bonded_subsat_channel.Node.Validation.{ValidationResult}
use bonded_subsat_channel.Node.Mempool.{Event, admit}
use bonded_subsat_channel.Node.Mempool.Invariant.{Inv}
use bonded_subsat_channel.Node.Mempool.Admit.{IsTame}
use bonded_subsat_channel.Node.Mempool.Replace.{admit-AdmitOutcome}
use bonded_subsat_channel.Store.{Codec}
use bonded_subsat_channel.Watchtower.{
  Seen, to_rebroadcast, observe_inputs, observe, observe_all, notify,
}

module _ (c : Crypto) (codec : Codec c) where
  open c use {lib, PublicKey}
  open codec use {Text}

  abbrev S : Type 0
  S = Seen c codec

  module _ (submit_tx : Tx → S → Result ValidationResult × S)
      (safe : (tx : Tx) (s : S) → Inv lib s.0 → Inv lib (submit_tx tx s).1.0) where
    observe_inputs-Inv :
        (j : ℕ) (ts : List TxInput) (s : S)
        → Inv lib s.0
        → Inv lib (observe_inputs c codec submit_tx j ts s).0
    unfolding observe_inputs
    observe_inputs-Inv j [] s v = v
    observe_inputs-Inv j (t ∷ ts) s v = elim (Option-cases (get_elem? s.1.towers j)) [
      | inl missing ↦ rw (observe_inputs, missing) v
      | inr (tower, there) ↦ elim (Result-cases (to_rebroadcast c codec tower.registry t)) [
        | inr (e, raised) ↦ rw (observe_inputs, there, raised) v
        | inl (found, got) ↦ elim (Option-cases found) [
          | inl nothing ↦ rw (observe_inputs, there, got, nothing) (observe_inputs-Inv j ts s v)
          | inr (current, some_tx) ↦
              rw (observe_inputs, there, got, some_tx)
                (elim (Result-cases (submit_tx current s).0) [
                  | inr (e, refused) ↦ rw refused (safe current s v)
                  | inl (result, answered) ↦
                      rw answered (observe_inputs-Inv j ts _ (safe current s v))
                ])
        ]
      ]
    ]

    observe-Inv :
        (j : ℕ) (ev : Event) (tx : Tx) (s : S)
        → Inv lib s.0
        → Inv lib (observe c codec submit_tx j ev tx s).0
    unfolding observe
    observe-Inv j Event.admitted tx s v = observe_inputs-Inv j tx.inputs s v
    observe-Inv j Event.replaced tx s v = observe_inputs-Inv j tx.inputs s v
    observe-Inv j Event.evicted tx s v = v

    pub observe_all-Inv :
        (js : List ℕ) (ev : Event) (tx : Tx) (s : S)
        → Inv lib s.0
        → Inv lib (observe_all c codec submit_tx js ev tx s).0
    unfolding observe_all
    observe_all-Inv [] ev tx s v = v
    observe_all-Inv (j ∷ js) ev tx s v =
        observe_all-Inv js ev tx (observe c codec submit_tx j ev tx s) (observe-Inv j ev tx s v)

  quiet_all :
      (submit_tx : Tx → S → Result ValidationResult × S) (js : List ℕ) (tx : Tx) (s : S)
      → observe_all c codec submit_tx js Event.evicted tx s ≡ s
  unfolding observe_all observe
  quiet_all submit_tx [] tx s = refl
  quiet_all submit_tx (j ∷ js) tx s = quiet_all submit_tx js tx s

  -- Watchtowers that observe a mempool keep its index in step with its entries and do nothing on an
  -- eviction, however deep their own submissions notify them again.
  pub notify-IsTame : (fuel : ℕ) → IsTame lib (notify c codec fuel)
  unfolding notify
  notify-IsTame zero = record { keeps = λ ev tx m w v. v; quiet = λ tx m w. refl }
  notify-IsTame (suc fuel) = record {
    keeps = λ ev tx m w v.
        observe_all-Inv (admit lib (notify c codec fuel))
          (λ t s u.
            (admit-AdmitOutcome lib (notify c codec fuel) (notify-IsTame fuel) t s.0 s.1 u).2)
          w.observers ev tx (m, w) v;
    quiet = λ tx m w. quiet_all (admit lib (notify c codec fuel)) w.observers tx (m, w);
  }
