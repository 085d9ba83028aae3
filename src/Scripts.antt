-- ===== src/Scripts.antt =====
-- src/channel/scripts.py: the builders of locking and unlocking scripts.
pub mod Numbers
use bonded_subsat_channel.Base.{
  ℕ, zero, suc, ◌+◌, ◌%◌, ◌/◌, Bool, true, false, List, [], ◌∷◌, length, Result, ok, err, Error,
  ◌>>=◌, ◌>>◌, raise_if, leb, ltb, not, ◌==◌, if◌then◌else◌,
}
use bonded_subsat_channel.Base.Int.{ℤ, pos, negsuc}
use bonded_subsat_channel.Chain.{Bytes}
use bonded_subsat_channel.Crypto.{
  Crypto, Op, op_0, op_if, op_else, op_endif, op_hash160, op_equalverify, op_checksig,
  op_checkmultisig, op_small,
}

-- `OP_0`, or `Ops(int(Ops.OP_1) + n - 1)` for 1 to 16
unfoldable pub op_n : ℤ → Result Op
op_n (pos n) =
    if n == 0 then ok op_0 else if leb n 16 then ok (op_small n) else err Error.script_build
op_n (negsuc _) = err Error.script_build

-- the `while abs_n` loop; a round leaves less than it found, so the number itself is fuel enough
unfoldable pub le_bytes : ℕ → ℕ → Bytes
le_bytes zero n = []
le_bytes (suc fuel) n =
    let rest = le_bytes fuel (n / 256) in if n == 0 then [] else (n % 256) ∷ rest

-- `out[-1] & 0x80` adds a byte for the sign; otherwise the sign is set in the last byte
unfoldable pub with_sign : Bool → Bytes → Bytes
with_sign negative [] = []
with_sign negative (b ∷ []) =
    if b / 128 % 2 == 1
    then b ∷ (if negative then 0x80 else 0) ∷ []
    else (if negative then b + 0x80 else b) ∷ []
with_sign negative (b ∷ c ∷ bs) = b ∷ with_sign negative (c ∷ bs)

unfoldable pub encode_script_num : ℤ → Bytes
unfolding le_bytes with_sign
encode_script_num (pos n) = if n == 0 then [] else with_sign false (le_bytes n n)
encode_script_num (negsuc n) = with_sign true (le_bytes (suc n) (suc n))

module _ (c : Crypto) where
  open c use {PublicKey, public_bytes, p2pkh, push_op, push_data}

  unfoldable pub push_count : Bytes → ℕ → Bytes
  unfolding op_n encode_script_num
  push_count s n = elim (op_n (pos n)) [
    | ok op ↦ push_op s op
    | err _ ↦ push_data s (encode_script_num (pos n))
  ]

  -- `for pk in pubkeys: s = s << pk.to_bytes()`
  unfoldable pub push_keys : Bytes → List PublicKey → Bytes
  push_keys s [] = s
  push_keys s (pk ∷ pks) = push_keys (push_data s (public_bytes pk)) pks

  -- `for sig in signatures: s = s << sig`
  unfoldable pub push_all : Bytes → List Bytes → Bytes
  push_all s [] = s
  push_all s (x ∷ xs) = push_all (push_data s x) xs

  unfoldable pub channel_funding_script : List PublicKey → Result Bytes
  unfolding push_count push_keys
  channel_funding_script pubkeys = do
    let n = length pubkeys
    raise_if (ltb n 1) Error.script_build
    ok (push_op (push_count (push_keys (push_count [] n) pubkeys) n) op_checkmultisig)

  unfoldable pub channel_funding_unlock : List Bytes → Result Bytes
  unfolding push_all
  channel_funding_unlock [] = err Error.script_build
  channel_funding_unlock (x ∷ xs) = ok (push_all (push_op [] op_0) (x ∷ xs))

  unfoldable pub hop_script : Bytes → PublicKey → PublicKey → Result Bytes
  hop_script image payee payer = do
    raise_if (not (length image == 20)) Error.script_build
    let claim =
        push_op
          (push_data
            (push_op (push_data (push_op (push_op [] op_if) op_hash160) image) op_equalverify)
            (public_bytes payee))
          op_checksig
    ok (
        push_op (push_op (push_data (push_op claim op_else) (public_bytes payer)) op_checksig)
          op_endif)

  unfoldable pub hop_claim_unlock : Bytes → Bytes → Bytes
  hop_claim_unlock payee_sig preimage =
      push_op (push_data (push_data [] payee_sig) preimage) (op_small 1)

  unfoldable pub hop_return_unlock : Bytes → Bytes
  hop_return_unlock payer_sig = push_op (push_data [] payer_sig) op_0

  unfoldable pub p2pkh_script : PublicKey → Bytes
  p2pkh_script pk = p2pkh pk

  unfoldable pub p2pkh_unlock : Bytes → PublicKey → Bytes
  p2pkh_unlock sig pk = push_data (push_data [] sig) (public_bytes pk)

  unfoldable pub bond_script : PublicKey → List PublicKey → Result Bytes
  unfolding push_count push_keys
  bond_script owner counterparties = do
    let m = length counterparties
    raise_if (ltb m 1) Error.script_build
    let head =
        push_op (push_op (push_data (push_op [] op_if) (public_bytes owner)) op_checksig) op_else
    ok (
        push_op
          (push_op (push_count (push_keys (push_count head m) counterparties) m) op_checkmultisig)
          op_endif)

  unfoldable pub bond_return_unlock : Bytes → Bytes
  bond_return_unlock owner_sig = push_op (push_data [] owner_sig) (op_small 1)

  unfoldable pub bond_forfeit_unlock : List Bytes → Result Bytes
  unfolding push_all
  bond_forfeit_unlock [] = err Error.script_build
  bond_forfeit_unlock (x ∷ xs) = ok (push_op (push_all (push_op [] op_0) (x ∷ xs)) op_0)
