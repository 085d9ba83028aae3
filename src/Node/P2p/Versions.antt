-- ===== src/Node/P2p/Versions.antt =====
-- Addresses and version messages of src/channel/node/p2p.py, written and read back.
use mathlib.Core.List.{append_assoc}
use bonded_subsat_channel.Base.{
  ℕ, ◌+◌, ◌-◌, ◌*◌, ◌/◌, ◌%◌, ◌≤◌, ◌<◌, ◌≡◌, sym, ap, inl, inr, true, false, none, [], ◌∷◌, ◌++◌,
  length, take, replicate, Result, ok, err, leb, ltb, ◌==◌, arith, Bool-cases, if◌then◌else◌,
}
use bonded_subsat_channel.Base.Int.{ℤ, pos, negsuc}
use bonded_subsat_channel.Base.Bytes.{
  limit, le, to_le_signed, from_le_signed, length-le, from_le-le, take-append, drop-append,
}
use bonded_subsat_channel.Chain.{Bytes}
use bonded_subsat_channel.Node.P2p.{max_message_size}
use bonded_subsat_channel.Node.P2p.Varints.{to_le-ok, read_var_bytes-encode_var_bytes}
use bonded_subsat_channel.Node.P2p.Handshake.{
  NetAddr, VersionMessage, port_bytes, from_be, time_bytes, skip_time, serialise_addr, parse_addr,
  serialise_version, parse_version,
}

abbrev bytes_of : Result Bytes → Bytes
bytes_of (err e) = []
bytes_of (ok bs) = bs

-- An integer that fits its bytes in two's complement is read back.
signed_back :
    (w : ℕ) (z : ℤ) {bs : Bytes}
    → to_le_signed w z ≡ ok bs
    → (from_le_signed bs ≡ z) × (length bs ≡ w)
unfolding to_le_signed from_le_signed
signed_back w (pos n) h = elim (Bool-cases (leb (limit w) (2 * n))) [
  | inl over ↦ let never = rw over at h in absurd (cc never)
  | inr fits ↦
      let low : 2 * n < limit w = ground (arith, fits) in
      let positive : ltb (2 * n) (limit w) ≡ true = ground arith in
      rw (sym (ap bytes_of (rw fits at h)))
        (rw (from_le-le w n (omega (arith, low)), length-le w n, positive), length-le w n)
]
signed_back w (negsuc n) h = elim (Bool-cases (ltb (limit w) (2 * (n + 1)))) [
  | inl over ↦ let never = rw over at h in absurd (cc never)
  | inr fits ↦
      let low : 2 * (n + 1) ≤ limit w = ground (arith, fits) in
      let m : ℕ = limit w - (n + 1) in
      let negative : ltb (2 * m) (limit w) ≡ false = ground (arith, low) in
      rw (sym (ap bytes_of (rw fits at h))) (
        rw (from_le-le w m (omega (arith, low)), length-le w m, negative)
            (ap negsuc (omega (arith, low))),
        length-le w m,
      )
]

-- An address of 16 bytes whose services and port fit theirs.
pub record IsAddr (a : NetAddr) : Type 0 where
  pub sized : length a.ip ≡ 16
  pub few_services : a.services < limit 8
  pub small_port : a.port < limit 2

addr_back :
    (a : NetAddr) (rest : Bytes)
    → IsAddr a
    → (bs : Bytes) × (serialise_addr none a ≡ ok bs)
      × (parse_addr false (bs ++ rest) ≡ ok (a, rest))
unfolding serialise_addr parse_addr time_bytes skip_time port_bytes from_be
addr_back a rest h =
    let s : Bytes = le 8 a.services in
    let p : Bytes = (a.port / 256) ∷ (a.port % 256) ∷ [] in
    let ip : take 16 (a.ip ++ replicate 16 0) ≡ a.ip =
      take-append a.ip (replicate 16 0) 16 h.sized in
    let right : (length a.ip == 16) ≡ true = ground (arith, h.sized) in
    let port : 256 * (256 * 0 + a.port / 256) + a.port % 256 ≡ a.port = omega arith in
    let whole : s ++ a.ip ++ p ++ rest ≡ s ++ (a.ip ++ (p ++ rest)) = simp append_assoc in
    (
      s ++ a.ip ++ p,
      rw ip (ground (arith, to_le-ok 8 a.services h.few_services, h.small_port)),
      rw
          (
            whole,
            take-append s (a.ip ++ (p ++ rest)) 8 (length-le 8 a.services),
            drop-append s (a.ip ++ (p ++ rest)) 8 (length-le 8 a.services),
            take-append a.ip (p ++ rest) 16 h.sized,
            drop-append a.ip (p ++ rest) 16 h.sized,
            from_le-le 8 a.services h.few_services,
          )
          (rw (right, port)),
    )

-- The message has addresses, numbers and a user agent that fit their fields.
pub record IsVersion (m : VersionMessage) : Type 0 where
  pub v : Bytes
  pub version_fits : to_le_signed 4 m.version ≡ ok v
  pub few_services : m.services < limit 8
  pub t : Bytes
  pub timestamp_fits : to_le_signed 8 m.timestamp ≡ ok t
  pub recv : IsAddr m.addr_recv
  pub from : IsAddr m.addr_from
  pub small_nonce : m.nonce < limit 8
  pub short_agent : length m.user_agent ≤ max_message_size
  pub h : Bytes
  pub height_fits : to_le_signed 4 m.start_height ≡ ok h

-- A version message whose fields fit is written and read back.
pub parse_version-serialise_version :
    (m : VersionMessage)
    → IsVersion m
    → (bs : Bytes) × (serialise_version m ≡ ok bs) × (parse_version bs ≡ ok m)
unfolding serialise_version parse_version
parse_version-serialise_version m k =
    let (vz, vn) = signed_back 4 m.version k.version_fits in
    let (tz, tn) = signed_back 8 m.timestamp k.timestamp_fits in
    let (hz, hn) = signed_back 4 m.start_height k.height_fits in
    let r : Bytes = if m.relay then 1 ∷ [] else 0 ∷ [] in
    let s : Bytes = le 8 m.services in
    let n : Bytes = le 8 m.nonce in
    let end : Bytes = k.h ++ r in
    let (ua, eu, ru) =
      read_var_bytes-encode_var_bytes max_message_size m.user_agent end
        (omega (arith, k.short_agent)) k.short_agent in
    let (f, ef, rf) = addr_back m.addr_from (n ++ (ua ++ end)) k.from in
    let (a, ea, ra) = addr_back m.addr_recv (f ++ (n ++ (ua ++ end))) k.recv in
    let tail : Bytes = a ++ (f ++ (n ++ (ua ++ end))) in
    let whole : k.v ++ s ++ k.t ++ a ++ f ++ n ++ ua ++ k.h ++ r ≡ k.v ++ (s ++ (k.t ++ tail)) =
      simp append_assoc in
    (
      k.v ++ s ++ k.t ++ a ++ f ++ n ++ ua ++ k.h ++ r,
      rw (
        k.version_fits,
        to_le-ok 8 m.services k.few_services,
        k.timestamp_fits,
        ea,
        ef,
        to_le-ok 8 m.nonce k.small_nonce,
        eu,
        k.height_fits,
      ),
      rw
          (
            whole,
            take-append k.v (s ++ (k.t ++ tail)) 4 vn,
            drop-append k.v (s ++ (k.t ++ tail)) 4 vn,
            take-append s (k.t ++ tail) 8 (length-le 8 m.services),
            drop-append s (k.t ++ tail) 8 (length-le 8 m.services),
            take-append k.t tail 8 tn,
            drop-append k.t tail 8 tn,
            ra,
            rf,
            take-append n (ua ++ end) 8 (length-le 8 m.nonce),
            drop-append n (ua ++ end) 8 (length-le 8 m.nonce),
            ru,
            take-append k.h r 4 hn,
            drop-append k.h r 4 hn,
            vz,
            tz,
            hz,
            from_le-le 8 m.services k.few_services,
            from_le-le 8 m.nonce k.small_nonce,
          )
          (elim (Bool-cases m.relay) [ inl relays ↦ rw relays | inr silent ↦ rw silent ]),
    )
