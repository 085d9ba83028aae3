-- ===== src/Hd.antt =====
-- src/channel/wallet/hd.py: the encryption of a wallet's seed, and the tree of its keys. `hashlib`,
-- `hmac` and the keys of BIP32 are parameters; a passphrase is the bytes that `encode` makes of it,
-- and the bytes that `secrets` draws are arguments.
pub mod Seeds
use Prim.Native.Nat.{bit_xor}
use mathlib.Core.List.{reverse}
use bonded_subsat_channel.Base.{
  ℕ, zero, suc, ◌+◌, ◌-◌, not, Option, none, some, [], ◌∷◌, ◌++◌, length, take, drop, Result, ok,
  Error, ◌>>=◌, ◌>>◌, raise_if, leb, ltb, if◌then◌else◌,
}
use bonded_subsat_channel.Base.Bytes.{same_bytes, le, limit}
use bonded_subsat_channel.Chain.{Bytes}

pub record Hashes : Type 0 where
  -- `hashlib.pbkdf2_hmac("sha256", passphrase, salt, 600_000, dklen=32)`
  pub derive_key : Bytes → Bytes → Bytes
  pub sha256 : Bytes → Bytes
  -- `hmac.new(key, message, hashlib.sha256).digest()`
  pub hmac : Bytes → Bytes → Bytes

-- `n.to_bytes(8, "big")`
unfoldable pub counter_bytes : ℕ → Result Bytes
counter_bytes n = do raise_if (leb (limit 8) n) Error.overflow; ok (reverse (le 8 n))

-- `bytes(a ^ b for a, b in zip(xs, ys))`
unfoldable pub xor_bytes : Bytes → Bytes → Bytes
xor_bytes [] ys = []
xor_bytes (x ∷ xs) [] = []
xor_bytes (x ∷ xs) (y ∷ ys) = bit_xor x y ∷ xor_bytes xs ys

module _ (h : Hashes) where
  open h use {derive_key, sha256, hmac}

  -- the loop of `_stream`, with the rounds left; each adds a digest that is not empty
  unfoldable pub stream_from : ℕ → Bytes → Bytes → ℕ → ℕ → Bytes → Result Bytes
  stream_from zero nonce key n counter out = ok out
  stream_from (suc rounds) nonce key n counter out =
      let longer = counter_bytes counter >>= λ digits.
      stream_from rounds nonce key n (counter + 1) (out ++ sha256 (key ++ (nonce ++ digits))) in
      if ltb (length out) n then longer else ok out

  -- `_stream`
  unfoldable pub keystream : Bytes → Bytes → ℕ → Result Bytes
  keystream nonce key n = do out ← stream_from n nonce key n 0 []; ok (take n out)

  -- `salt` and `nonce` are drawn by `secrets.token_bytes(16)`
  unfoldable pub encrypt_seed : Bytes → Bytes → Bytes → Bytes → Result Bytes
  encrypt_seed salt nonce seed passphrase = do
    let key = derive_key passphrase salt
    stream ← keystream nonce key (length seed)
    let ct = xor_bytes seed stream
    ok (salt ++ (nonce ++ (ct ++ hmac key (salt ++ (nonce ++ ct)))))

  unfoldable pub decrypt_seed : Bytes → Bytes → Result Bytes
  decrypt_seed blob passphrase = do
    raise_if (ltb (length blob) 64) Error.wallet
    let salt = take 16 blob
    let nonce = take 16 (drop 16 blob)
    let ct_tag = drop 32 blob
    let ct = take (length ct_tag - 32) ct_tag
    let tag = drop (length ct_tag - 32) ct_tag
    let key = derive_key passphrase salt
    raise_if (not (same_bytes tag (hmac key (salt ++ (nonce ++ ct))))) Error.wallet
    stream ← keystream nonce key (length ct)
    ok (xor_bytes ct stream)

-- `BIP32PrivateKey`, a kind of private key
pub record Bip32 (PrivateKey : Type 0) : Type 1 where
  pub Node : Type 0
  pub from_seed : Bytes → Node
  pub child_safe : Node → ℕ → Node
  pub as_private : Node → PrivateKey

module _ {PrivateKey PublicKey : Type 0} (public_key : PrivateKey → PublicKey)
    (tree : Bip32 PrivateKey) where
  open tree use {Node, from_seed, child_safe, as_private}

  -- `HDWallet.from_seed`; the wallet is its master key
  unfoldable pub wallet_from_seed : Bytes → Result Node
  wallet_from_seed seed = do raise_if (ltb (length seed) 16) Error.wallet; ok (from_seed seed)

  -- `HDWallet.new`, where `drawn` are the 32 bytes of `secrets`
  unfoldable pub new_wallet : Option Bytes → Bytes → Result Node
  new_wallet none drawn = wallet_from_seed drawn
  new_wallet (some seed) drawn = wallet_from_seed seed

  unfoldable pub account : Node → ℕ → Node
  account master index = child_safe master index

  unfoldable pub derive : Node → ℕ → ℕ → PrivateKey
  derive master acct index = as_private (child_safe (account master acct) index)

  unfoldable pub public_at : Node → ℕ → ℕ → PublicKey
  public_at master acct index = public_key (derive master acct index)
