-- ===== src/Hd/Seeds.antt =====
-- The seeds that src/channel/wallet/hd.py encrypts and decrypts.
use Prim.Native.Nat.{bit_xor}
use mathlib.Core.List.{reverse, append_assoc}
use bonded_subsat_channel.Base.{
  ℕ, zero, suc, ◌+◌, ◌-◌, ◌≤◌, ◌<◌, ◌≡◌, ◌≢◌, ◌∙◌, refl, sym, ap, ap₂, inl, inr, Bool, true, false,
  not, [], ◌∷◌, ◌++◌, length, length-append, take, drop, length-take, arith, ok, err, Error, ◌>>=◌,
  ◌>>◌, raise_if, ltb, ◌==◌, ==_iff, Bool-cases, if◌then◌else◌,
}
use bonded_subsat_channel.Base.Bytes.{
  same_bytes, same_bytes_refl, same_bytes-≡, limit, IsBytes, le, take-append, drop-append,
}
use bonded_subsat_channel.Chain.{Bytes}
use bonded_subsat_channel.Hd.{
  Hashes, counter_bytes, xor_bytes, stream_from, keystream, encrypt_seed, decrypt_seed,
}

-- The masks below a bound take themselves off a byte again.
masks_undo : (byte bound : ℕ) → Bool
masks_undo byte zero = true
masks_undo byte (suc mask) =
    let rest = masks_undo byte mask in
    if bit_xor (bit_xor byte mask) mask == byte then rest else false

bytes_undo : (bound : ℕ) → Bool
bytes_undo zero = true
bytes_undo (suc byte) = let rest = bytes_undo byte in if masks_undo byte 256 then rest else false

masks_undo-lt :
    (bound byte mask : ℕ)
    → mask < bound
    → masks_undo byte bound ≡ true
    → bit_xor (bit_xor byte mask) mask ≡ byte
unfolding masks_undo
masks_undo-lt zero byte mask lt e = absurd (omega arith)
masks_undo-lt (suc bound) byte mask lt e = elim (Bool-cases (mask == bound)) [
  | inl last ↦ let at : mask ≡ bound = (==_iff mask bound).0 last in rw at (ground (arith, e))
  | inr earlier ↦ masks_undo-lt bound byte mask (ground (arith, earlier)) (ground (arith, e))
]

bytes_undo-lt :
    (bound byte : ℕ) → byte < bound → bytes_undo bound ≡ true → masks_undo byte 256 ≡ true
unfolding bytes_undo
bytes_undo-lt zero byte lt e = absurd (omega arith)
bytes_undo-lt (suc bound) byte lt e = elim (Bool-cases (byte == bound)) [
  | inl last ↦ let at : byte ≡ bound = (==_iff byte bound).0 last in rw at (ground (arith, e))
  | inr earlier ↦ bytes_undo-lt bound byte (ground (arith, earlier)) (ground (arith, e))
]

undone : bytes_undo 256 ≡ true
unfolding bytes_undo masks_undo
undone = refl

xor_twice : (x y : ℕ) → x < 256 → y < 256 → bit_xor (bit_xor x y) y ≡ x
xor_twice x y hx hy = masks_undo-lt 256 x y hy (bytes_undo-lt 256 x hx undone)

-- A stream that is long enough takes its own mask off again.
xor_bytes_twice :
    (xs ys : Bytes)
    → IsBytes xs
    → IsBytes ys
    → length xs ≤ length ys
    → (xor_bytes (xor_bytes xs ys) ys ≡ xs) × (length (xor_bytes xs ys) ≡ length xs)
unfolding xor_bytes
xor_bytes_twice [] ys hx hy w = (refl, refl)
xor_bytes_twice (x ∷ xs) [] hx hy w = absurd (omega arith)
xor_bytes_twice (x ∷ xs) (y ∷ ys) hx hy w =
    let (back, width) = xor_bytes_twice xs ys hx.1 hy.1 (omega arith) in
    (ap₂ ◌∷◌ (xor_twice x y hx.0 hy.0) back, ap suc width)

IsBytes-append : (xs ys : Bytes) → IsBytes xs → IsBytes ys → IsBytes (xs ++ ys)
IsBytes-append [] ys hx hy = hy
IsBytes-append (x ∷ xs) ys hx hy = (hx.0, IsBytes-append xs ys hx.1 hy)

IsBytes-take : (n : ℕ) (xs : Bytes) → IsBytes xs → IsBytes (take n xs)
IsBytes-take zero xs h = tt
IsBytes-take (suc n) [] h = tt
IsBytes-take (suc n) (x ∷ xs) h = (h.0, IsBytes-take n xs h.1)

differs : (xs ys : Bytes) → xs ≢ ys → same_bytes xs ys ≡ false
differs xs ys ne = elim (Bool-cases (same_bytes xs ys)) [
  | inl same ↦ absurd (ne (same_bytes-≡ xs ys same))
  | inr other ↦ other
]

-- What is documented of SHA-256 and of the HMAC over it: 32 bytes.
pub record IsSized (h : Hashes) : Type 0 where
  pub sha256_width : (m : Bytes) → length (h.sha256 m) ≡ 32
  pub sha256_bytes : (m : Bytes) → IsBytes (h.sha256 m)
  pub hmac_width : (k m : Bytes) → length (h.hmac k m) ≡ 32

module _ (h : Hashes) (sized : IsSized h) where
  open h use {derive_key, hmac, sha256}

  counter_bytes-ok : (n : ℕ) → n < limit 8 → (digits : Bytes) × (counter_bytes n ≡ ok digits)
  unfolding counter_bytes
  counter_bytes-ok n lt = (reverse (le 8 n), ground arith)

  -- With a round for each byte that is missing, the loop ends with bytes enough.
  stream_from-ok :
      (rounds : ℕ) (nonce key : Bytes) (n counter : ℕ) (out : Bytes)
      → n ≤ length out + rounds
      → counter + rounds ≤ limit 8
      → IsBytes out
      → (stream : Bytes) × (stream_from h rounds nonce key n counter out ≡ ok stream)
        × (n ≤ length stream)
        × IsBytes stream
  unfolding stream_from
  stream_from-ok zero nonce key n counter out enough few bytes =
      (out, refl, omega (arith, enough), bytes)
  stream_from-ok (suc rounds) nonce key n counter out enough few bytes =
      elim (Bool-cases (ltb (length out) n)) [
        | inl short ↦
            let (digits, ed) = counter_bytes-ok counter (omega (arith, few)) in
            let digest : Bytes = sha256 (key ++ (nonce ++ digits)) in
            let (stream, e, long, good) =
              stream_from-ok rounds nonce key n (counter + 1) (out ++ digest)
                (rw (length-append out digest, sized.sha256_width (key ++ (nonce ++ digits)))
                  (omega (arith, enough)))
                (omega (arith, few))
                (IsBytes-append out digest bytes (sized.sha256_bytes (key ++ (nonce ++ digits)))) in
            (stream, rw (short, ed) e, long, good)
        | inr long ↦ (out, rw long, ground (arith, long), bytes)
      ]

  keystream-ok :
      (nonce key : Bytes) (n : ℕ)
      → n ≤ limit 8
      → (stream : Bytes) × (keystream h nonce key n ≡ ok stream)
        × (length stream ≡ n)
        × IsBytes stream
  unfolding keystream
  keystream-ok nonce key n few =
      let (out, e, long, good) =
        stream_from-ok n nonce key n 0 [] (omega arith) (omega (arith, few)) tt in
      (take n out, rw e, omega (arith, length-take n out, long), IsBytes-take n out good)

  -- What `decrypt_seed` does with a salt, a nonce, a ciphertext and a tag.
  decrypt_parts :
      (salt nonce ct tag passphrase : Bytes)
      → length salt ≡ 16
      → length nonce ≡ 16
      → length tag ≡ 32
      → let key = derive_key passphrase salt in
        decrypt_seed h (salt ++ (nonce ++ (ct ++ tag))) passphrase ≡ (
          raise_if (not (same_bytes tag (hmac key (salt ++ (nonce ++ ct))))) Error.wallet
          >> (keystream h nonce key (length ct) >>= λ stream. ok (xor_bytes ct stream)))
  unfolding decrypt_seed
  decrypt_parts salt nonce ct tag passphrase ws wn wt =
      let blob : Bytes = salt ++ (nonce ++ (ct ++ tag)) in
      let tail : Bytes = nonce ++ (ct ++ tag) in
      let w : length (ct ++ tag) - 32 ≡ length ct = omega (arith, length-append ct tag, wt) in
      let long : ltb (length blob) 64 ≡ false = ground (
        arith,
        length-append salt tail,
        length-append nonce (ct ++ tag),
        length-append ct tag,
        ws,
        wn,
        wt,
      ) in
      let second : drop 32 blob ≡ ct ++ tag =
        ap (drop 32) (sym (append_assoc salt nonce (ct ++ tag)))
        ∙ drop-append (salt ++ nonce) (ct ++ tag) 32
            (omega (arith, length-append salt nonce, ws, wn)) in
      rw (
        decrypt_seed,
        long,
        second,
        take-append salt tail 16 ws,
        drop-append salt tail 16 ws,
        take-append nonce (ct ++ tag) 16 wn,
        w,
        take-append ct tag (length ct) refl,
        drop-append ct tag (length ct) refl,
      )

  -- A seed of bytes, at most 2 ^ 64 of them, is encrypted under any salt and nonce of 16 bytes, and
  -- decrypted with the same passphrase; with another passphrase `decrypt_seed` raises `WalletError`,
  -- unless the key that it derives makes the same tag.
  pub decrypt_seed-encrypt_seed :
      (salt nonce seed passphrase : Bytes)
      → length salt ≡ 16
      → length nonce ≡ 16
      → IsBytes seed
      → length seed ≤ limit 8
      → (ct : Bytes) × (let tag = hmac (derive_key passphrase salt) (salt ++ (nonce ++ ct)) in
          let blob = salt ++ (nonce ++ (ct ++ tag)) in
          (encrypt_seed h salt nonce seed passphrase ≡ ok blob)
          × (length ct ≡ length seed)
          × (decrypt_seed h blob passphrase ≡ ok seed)
          × ((other : Bytes)
              → hmac (derive_key other salt) (salt ++ (nonce ++ ct)) ≢ tag
              → decrypt_seed h blob other ≡ err Error.wallet))
  unfolding encrypt_seed
  decrypt_seed-encrypt_seed salt nonce seed passphrase ws wn bytes few =
      let key : Bytes = derive_key passphrase salt in
      let (stream, es, wide, good) = keystream-ok nonce key (length seed) few in
      let ct : Bytes = xor_bytes seed stream in
      let (back, width) = xor_bytes_twice seed stream bytes good (omega (arith, wide)) in
      let message : Bytes = salt ++ (nonce ++ ct) in
      let tag : Bytes = hmac key message in
      (
        ct,
        (
          rw es,
          width,
          decrypt_parts salt nonce ct tag passphrase ws wn (sized.hmac_width key message)
              ∙ rw (same_bytes_refl tag, width, es, back),
          λ other ne.
              decrypt_parts salt nonce ct tag other ws wn (sized.hmac_width key message)
              ∙ rw (differs tag (hmac (derive_key other salt) message) (λ e. ne (sym e))),
        ),
      )
