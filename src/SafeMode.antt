-- ===== src/SafeMode.antt =====
-- src/channel/safety.py: the network mode of the process. Its banners are lines that Cli prints.
use bonded_subsat_channel.Base.{
  ◌≡◌, ◌⊎◌, refl, inl, inr, Bool, true, false, not, ◌&&◌, ◌||◌, List, [], ◌∷◌, Result, ok, err,
  Error, raise_if, arith, Bool-cases,
}

pub data Mode : Type 0 where
  regtest mainnet : Mode

-- `_mode` and `_mainnet_confirmed`
pub record SafetyState : Type 0 where
  pub mode : Mode
  pub mainnet_confirmed : Bool

abbrev pub initial_mode : SafetyState
initial_mode = record { mode = Mode.regtest; mainnet_confirmed = false }

unfoldable pub is_mainnet : SafetyState → Bool
is_mainnet s = elim s.mode [ Mode.regtest ↦ false | Mode.mainnet ↦ true ]

-- the new mode and `i_understand_this_is_research_code`
unfoldable pub set_mode : Mode → Bool → SafetyState → Result (Unit {0}) × SafetyState
set_mode Mode.regtest understood s = (ok tt, record s { mode = Mode.regtest })
set_mode Mode.mainnet false s = (err Error.safety, s)
set_mode Mode.mainnet true s = (ok tt, record { mode = Mode.mainnet; mainnet_confirmed = true })

unfoldable pub require_safe_mode : SafetyState → Result (Unit {0})
require_safe_mode s = raise_if (is_mainnet s && not s.mainnet_confirmed) Error.safety

-- calls of `set_mode`, the refused ones too
unfoldable pub after_calls : List (Mode × Bool) → SafetyState → SafetyState
after_calls [] s = s
after_calls ((m, understood) ∷ calls) s = after_calls calls (set_mode m understood s).1

-- whether a call acknowledged the mode of the main network
abbrev pub acknowledged : List (Mode × Bool) → Bool
acknowledged [] = false
acknowledged ((Mode.regtest, understood) ∷ calls) = acknowledged calls
acknowledged ((Mode.mainnet, true) ∷ calls) = true
acknowledged ((Mode.mainnet, false) ∷ calls) = acknowledged calls

-- the main network only once it is confirmed, and confirmed only by an acknowledgement
abbrev IsSane : Bool → SafetyState → Type 0
IsSane said s =
    ((is_mainnet s ≡ false) ⊎ (s.mainnet_confirmed ≡ true))
    × ((s.mainnet_confirmed ≡ false) ⊎ (said ≡ true))

or_true : (b : Bool) → (b || true) ≡ true
or_true false = refl
or_true true = refl

calls-IsSane :
    (calls : List (Mode × Bool)) (said : Bool) (s : SafetyState)
    → IsSane said s
    → IsSane (said || acknowledged calls) (after_calls calls s)
unfolding after_calls set_mode is_mainnet
calls-IsSane [] said s h =
    (h.0, elim h.1 [ inl not_yet ↦ inl not_yet | inr yet ↦ inr (ground (arith, yet)) ])
calls-IsSane ((Mode.regtest, u) ∷ calls) said s h =
    calls-IsSane calls said (record s { mode = Mode.regtest }) (inl refl, h.1)
calls-IsSane ((Mode.mainnet, true) ∷ calls) said s h = rw (or_true said) (
    calls-IsSane calls true (record { mode = Mode.mainnet; mainnet_confirmed = true })
      (inr refl, inr refl))
calls-IsSane ((Mode.mainnet, false) ∷ calls) said s h = calls-IsSane calls said s h

-- After any calls of `set_mode`, those that raise included, `require_safe_mode` passes, and the
-- process is on the main network only if one of them asked for it with the acknowledgement.
pub require_safe_mode_passes :
    (calls : List (Mode × Bool))
    → (require_safe_mode (after_calls calls initial_mode) ≡ ok tt)
      × ((is_mainnet (after_calls calls initial_mode) ≡ false) ⊎ (acknowledged calls ≡ true))
unfolding require_safe_mode is_mainnet
require_safe_mode_passes calls =
    let s : SafetyState = after_calls calls initial_mode in
    let (sane, said) =
      calls-IsSane calls false initial_mode (unfold is_mainnet in inl refl, inl refl) in
    (
      elim sane [
        | inl off ↦ rw off
        | inr confirmed ↦
            rw confirmed (elim (Bool-cases (is_mainnet s)) [ inl on ↦ rw on | inr off ↦ rw off ])
      ],
      elim sane [
        | inl off ↦ inl off
        | inr confirmed ↦ elim said [
          | inl never ↦ absurd (cc (confirmed, never))
          | inr yes_said ↦ inr yes_said
        ]
      ],
    )
