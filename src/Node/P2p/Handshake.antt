-- ===== src/Node/P2p/Handshake.antt =====
-- src/channel/node/p2p.py: network addresses, and the version message that holds two of them. The
-- time of an address is an argument where it is written.
use bonded_subsat_channel.Base.{
  ℕ, ◌+◌, ◌*◌, ◌/◌, ◌%◌, Bool, true, false, not, Option, none, some, [], ◌∷◌, ◌++◌, length, take,
  drop, replicate, Result, ok, Error, ◌>>=◌, ◌>>◌, raise_if, leb, ◌==◌, if◌then◌else◌,
}
use bonded_subsat_channel.Base.Int.{ℤ}
use bonded_subsat_channel.Base.Bytes.{from_le, to_le, to_le_signed, from_le_signed, read, limit}
use bonded_subsat_channel.Chain.{Bytes}
use bonded_subsat_channel.Node.P2p.{encode_var_bytes, read_var_bytes, max_message_size}

pub record NetAddr : Type 0 where
  pub services : ℕ
  pub ip : Bytes
  pub port : ℕ

-- `port.to_bytes(2, "big")` and `int.from_bytes(…, "big")`
unfoldable pub port_bytes : ℕ → Result Bytes
port_bytes port = do
  raise_if (leb (limit 2) port) Error.overflow
  ok ((port / 256) ∷ (port % 256) ∷ [])

unfoldable pub from_be : ℕ → Bytes → ℕ
from_be acc [] = acc
from_be acc (b ∷ bs) = from_be (256 * acc + b) bs

-- the time that goes before an address, if one does
unfoldable pub time_bytes : Option ℕ → Result Bytes
time_bytes none = ok []
time_bytes (some ts) = to_le 4 ts

unfoldable pub serialise_addr : Option ℕ → NetAddr → Result Bytes
serialise_addr timestamp a = do
  t ← time_bytes timestamp
  s ← to_le 8 a.services
  p ← port_bytes a.port
  ok (t ++ s ++ take 16 (a.ip ++ replicate 16 0) ++ p)

unfoldable pub skip_time : Bool → Bytes → Result Bytes
skip_time false buf = ok buf
skip_time true buf = do raise_if (not (length (take 4 buf) == 4)) Error.p2p; ok (drop 4 buf)

unfoldable pub parse_addr : Bool → Bytes → Result (NetAddr × Bytes)
parse_addr include_time buf = do
  behind ← skip_time include_time buf
  let (s, more) = read 8 behind
  let (ip, left) = read 16 more
  raise_if (not (length ip == 16)) Error.p2p
  let (p, rest) = read 2 left
  let a : NetAddr = record { services = from_le s; ip = ip; port = from_be 0 p }
  ok (a, rest)

pub record VersionMessage : Type 0 where
  pub version : ℤ
  pub services : ℕ
  pub timestamp : ℤ
  pub addr_recv : NetAddr
  pub addr_from : NetAddr
  pub nonce : ℕ
  pub user_agent : Bytes
  pub start_height : ℤ
  pub relay : Bool

unfoldable pub serialise_version : VersionMessage → Result Bytes
serialise_version m = do
  v ← to_le_signed 4 m.version
  s ← to_le 8 m.services
  t ← to_le_signed 8 m.timestamp
  recv ← serialise_addr none m.addr_recv
  from ← serialise_addr none m.addr_from
  n ← to_le 8 m.nonce
  ua ← encode_var_bytes m.user_agent
  h ← to_le_signed 4 m.start_height
  ok (v ++ s ++ t ++ recv ++ from ++ n ++ ua ++ h ++ (if m.relay then 1 ∷ [] else 0 ∷ []))

unfoldable pub parse_version : Bytes → Result VersionMessage
parse_version payload = do
  let (v, b1) = read 4 payload
  let (s, b2) = read 8 b1
  let (t, b3) = read 8 b2
  (recv, b4) ← parse_addr false b3
  (from, b5) ← parse_addr false b4
  let (n, b6) = read 8 b5
  (ua, b7) ← read_var_bytes max_message_size b6
  let (h, b8) = read 4 b7
  let relay_byte = take 1 b8
  ok (record {
    version = from_le_signed v;
    services = from_le s;
    timestamp = from_le_signed t;
    addr_recv = recv;
    addr_from = from;
    nonce = from_le n;
    user_agent = ua;
    start_height = from_le_signed h;
    relay = elim relay_byte [ [] ↦ false | b ∷ _ ↦ not (b == 0) ];
  })
