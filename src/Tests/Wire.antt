-- ===== src/Tests/Wire.antt =====
-- The theorems on messages of peers at concrete inputs.
use bonded_subsat_channel.Base.{
  ◌+◌, ◌≡◌, refl, true, false, some, [], ◌∷◌, ◌++◌, length, replicate, arith, ok,
}
use bonded_subsat_channel.Base.Int.{pos, negsuc}
use bonded_subsat_channel.Base.Bytes.{same_bytes, to_le_signed, le}
use bonded_subsat_channel.Chain.{Bytes}
use bonded_subsat_channel.Node.P2p.{Frame, wrong_magic, serialise, parse_frame}
use bonded_subsat_channel.Node.P2p.Handshake.{NetAddr, VersionMessage}
use bonded_subsat_channel.Node.P2p.Versions.{IsAddr, IsVersion}
use bonded_subsat_channel.Node.P2p.Frames.{parse_frame-serialise}

abbrev pub toy_sha : Bytes → Bytes
toy_sha b = length b ∷ replicate 31 9

-- the command `tx` under the magic of regtest
abbrev frame : Frame
frame = record {
  magic = 0xDA ∷ 0xB5 ∷ 0xBF ∷ 0xFA ∷ [];
  command = 116 ∷ 120 ∷ [];
  payload = 1 ∷ 2 ∷ 3 ∷ [];
}

shows : wrong_magic toy_sha (some (0xDA ∷ 0xB5 ∷ 0xBF ∷ 0xFA ∷ [])) frame.magic ≡ false
unfolding wrong_magic same_bytes
shows = refl

parse_frame-serialise_example :
    (bs : Bytes) × (serialise toy_sha frame ≡ ok bs)
    × (parse_frame toy_sha (bs ++ 5 ∷ []) (some (0xDA ∷ 0xB5 ∷ 0xBF ∷ 0xFA ∷ []))
        ≡ ok (frame, 24 + 3))
parse_frame-serialise_example =
    parse_frame-serialise toy_sha (λ b. refl) frame (5 ∷ []) refl
      ((omega arith, omega arith), ((omega arith, omega arith), tt)) (omega arith) (omega arith)
      (some (0xDA ∷ 0xB5 ∷ 0xBF ∷ 0xFA ∷ [])) shows

abbrev address : NetAddr
address = record { services = 1; ip = replicate 16 0; port = 8333 }

abbrev hello : VersionMessage
hello = record {
  version = pos 70016;
  services = 0;
  timestamp = negsuc 4;
  addr_recv = address;
  addr_from = address;
  nonce = 12;
  user_agent = 47 ∷ 99 ∷ [];
  start_height = pos 0;
  relay = true;
}

address-IsAddr : IsAddr address
address-IsAddr = record { sized = refl; few_services = omega arith; small_port = omega arith }

hello-IsVersion : IsVersion hello
unfolding to_le_signed le
hello-IsVersion = record {
  v = _;
  version_fits = refl;
  few_services = omega arith;
  t = _;
  timestamp_fits = refl;
  recv = address-IsAddr;
  from = address-IsAddr;
  small_nonce = omega arith;
  short_agent = omega arith;
  h = _;
  height_fits = refl;
}
