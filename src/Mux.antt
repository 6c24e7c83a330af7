-- ===== src/Mux.antt =====
-- mux.py: the frames of the data channel. `MuxPacket` builds a frame of chained tags, `package`
-- wraps a packet of the tunnel, and `read_mux` takes the packets out of a frame.
pub mod Frame
pub mod Read
pub mod Loop
use xmm7360_mvp.Prelude.{
  ℕ, zero, suc, ◌+◌, ◌-◌, ◌*◌, ◌/◌, ◌%◌, ◌^◌, ◌==◌, bit_and, Bool, true, false, Option, none, some,
  List, [], ◌∷◌, ◌++◌, take, drop, replicate, length, codes, if◌then◌else◌,
}
use xmm7360_mvp.Result.{Result, ok, err, ◌>>=◌, ◌>>◌, type}
use xmm7360_mvp.Bytes.{Bytes, le_bytes, pack_le, from_le, unpack_le, starts_with}

pub record MuxPacket : Type 0 where
  pub seq : ℕ
  pub packet : Bytes
  pub fwd_pointer : Option ℕ

-- `MuxPacket(seq)`
abbrev pub mux_packet : ℕ → MuxPacket
mux_packet seq = record { seq = seq; packet = []; fwd_pointer = none }

-- Puts the final length in.
unfoldable pub get_packet : MuxPacket → Result MuxPacket
unfolding pack_le
get_packet p = do
  total ← pack_le 4 (length p.packet)
  ok (record p { packet = take 8 p.packet ++ (total ++ drop 12 p.packet) })

-- `while len(self.packet) & 3: self.packet += b'\0'`, with fuel; three rounds are enough.
unfoldable pub pad_loop : ℕ → Bytes → Bytes
pad_loop zero packet = packet
pad_loop (suc fuel) packet =
    let rest = pad_loop fuel (packet ++ (0 ∷ [])) in
    if bit_and (length packet) 3 == 0 then packet else rest

abbrev pub pad : Bytes → Bytes
pad packet = pad_loop 3 packet

-- `self.packet[:fwd] + struct.pack('<L', len(self.packet)) + self.packet[fwd + 4:]`
unfoldable pub set_pointer : Option ℕ → Bytes → Result Bytes
unfolding pack_le
set_pointer none packet = do len ← pack_le 4 (length packet); err type
set_pointer (some fwd) packet = do
  len ← pack_le 4 (length packet)
  ok (take fwd packet ++ (len ++ drop (fwd + 4) packet))

-- The header so far and the packet so far: the first tag has the sequence number, a later one is
-- put on a multiple of four and the tag in front of it is made to point there.
unfoldable pub begin_tag : MuxPacket → Bytes → Bytes → Result (Bytes × Bytes)
unfolding pack_le set_pointer
begin_tag p tag [] = do a ← pack_le 2 0; b ← pack_le 2 p.seq; ok (tag ++ (a ++ b), [])
begin_tag p tag (x ∷ xs) = do packet ← set_pointer p.fwd_pointer (pad (x ∷ xs)); ok (tag, packet)

unfoldable pub append_tag : MuxPacket → Bytes → Bytes → ℕ → Result MuxPacket
unfolding begin_tag pack_le
append_tag p tag payload extra = do
  (hdr, packet) ← begin_tag p tag p.packet
  let hdr_len = length hdr + 8
  a ← pack_le 2 (hdr_len + length payload)
  b ← pack_le 2 extra
  c ← pack_le 4 0
  let hdr' = hdr ++ (a ++ (b ++ c))
  ok (record p {
    fwd_pointer = some (length packet + length hdr' - 4);
    packet = packet ++ (hdr' ++ payload);
  })

abbrev pub adbh : Bytes
adbh = codes "ADBH"

abbrev pub adth : Bytes
adth = codes "ADTH"

-- `struct.pack('<LLL', 0, 0x10, n)`
unfoldable pub bounds : ℕ → Result Bytes
unfolding pack_le
bounds n = do a ← pack_le 4 0; b ← pack_le 4 0x10; c ← pack_le 4 n; ok (a ++ (b ++ c))

-- The frame of `package` for the sequence number `seq`.
unfoldable pub build : ℕ → Bytes → Result Bytes
build seq packet_data = do
  let padded = replicate 16 0 ++ packet_data
  p₁ ← append_tag (mux_packet seq) adbh padded 0
  tail ← bounds (length padded)
  p₂ ← append_tag p₁ adth tail 0
  p₃ ← get_packet p₂
  ok p₃.packet

-- The method `package`, with the sequence number of the object.
unfoldable pub package_data : ℕ → Bytes → Result Bytes × ℕ
unfolding build
package_data seq packet_data = let seq' = bit_and (seq + 1) 0xff in (build seq' packet_data, seq')

-- `while len(tail) >= 8`: the slices of the frame that are written to the tunnel.
unfoldable pub read_loop : Bytes → Bytes → List Bytes
unfolding from_le
read_loop frame (a ∷ b ∷ c ∷ d ∷ e ∷ f ∷ g ∷ h ∷ tail) =
    let offset = from_le (a ∷ b ∷ c ∷ d ∷ []) in
    let len = from_le (e ∷ f ∷ g ∷ h ∷ []) in take len (drop offset frame) ∷ read_loop frame tail
read_loop frame _ = []

-- The second tag, from the place that the first one points to.
unfoldable pub read_bounds : Bytes → Bytes → Result (List Bytes)
unfolding unpack_le read_loop starts_with
read_bounds frame tail =
    if starts_with adth tail
    then (do
      len ← unpack_le 2 (take 2 (take 4 (drop 4 tail)))
      unk ← unpack_le 2 (drop 2 (take 4 (drop 4 tail)))
      ok (read_loop frame (drop 16 tail)))
    else ok []

-- `read_mux` on what was read: the packets that it writes to the tunnel.
unfoldable pub read_mux : Bytes → Result (List Bytes)
unfolding unpack_le read_bounds starts_with
read_mux frame =
    let fields = take 12 (drop 4 frame) in
    if starts_with adbh frame
    then (do
      unq ← unpack_le 2 (take 2 fields)
      seq ← unpack_le 2 (take 2 (drop 2 fields))
      len ← unpack_le 4 (take 4 (drop 4 fields))
      sublen ← unpack_le 4 (drop 8 fields)
      read_bounds frame (drop sublen frame))
    else ok []

-- The self-check of `__init__`: the bytes `pkd`, the payload, and the frame built from it.
abbrev pub pkd : Bytes
pkd =
    0x41 ∷ 0x44 ∷ 0x42 ∷ 0x48 ∷ 0x00 ∷ 0x00 ∷ 0x01 ∷ 0x00 ∷ 0x88 ∷ 0x00 ∷ 0x00 ∷ 0x00 ∷ 0x70 ∷ 0x00
    ∷ 0x00 ∷ 0x00 ∷ 0x60 ∷ 0x00 ∷ 0x00 ∷ 0x00 ∷ 0x00 ∷ 0x38 ∷ 0x3a ∷ 0xff ∷ 0xfe ∷ 0x80 ∷ 0x00
    ∷ 0x00 ∷ 0x00 ∷ 0x00 ∷ 0x00 ∷ 0x00 ∷ 0x00 ∷ 0x00 ∷ 0x00 ∷ 0x00 ∷ 0x00 ∷ 0x00 ∷ 0x00 ∷ 0x01
    ∷ 0xfe ∷ 0x80 ∷ 0x00 ∷ 0x00 ∷ 0x00 ∷ 0x00 ∷ 0x00 ∷ 0x00 ∷ 0xd4 ∷ 0x38 ∷ 0xc1 ∷ 0xfd ∷ 0x07
    ∷ 0x7c ∷ 0x00 ∷ 0xc3 ∷ 0x86 ∷ 0x00 ∷ 0x24 ∷ 0x88 ∷ 0x40 ∷ 0x00 ∷ 0x55 ∷ 0x50 ∷ 0x00 ∷ 0x00
    ∷ 0x00 ∷ 0x00 ∷ 0x00 ∷ 0x00 ∷ 0x00 ∷ 0x00 ∷ 0x05 ∷ 0x01 ∷ 0x00 ∷ 0x00 ∷ 0x00 ∷ 0x00 ∷ 0x05
    ∷ 0xdc ∷ 0x03 ∷ 0x04 ∷ 0x40 ∷ 0x40 ∷ 0xff ∷ 0xff ∷ 0xff ∷ 0xff ∷ 0xff ∷ 0xff ∷ 0xff ∷ 0xff
    ∷ 0x00 ∷ 0x00 ∷ 0x00 ∷ 0x00 ∷ 0x20 ∷ 0x01 ∷ 0x80 ∷ 0x04 ∷ 0x14 ∷ 0x20 ∷ 0x21 ∷ 0xf5 ∷ 0x00
    ∷ 0x00 ∷ 0x00 ∷ 0x00 ∷ 0x00 ∷ 0x00 ∷ 0x00 ∷ 0x00 ∷ 0x41 ∷ 0x44 ∷ 0x54 ∷ 0x48 ∷ 0x18 ∷ 0x00
    ∷ 0x00 ∷ 0x00 ∷ 0x00 ∷ 0x00 ∷ 0x00 ∷ 0x00 ∷ 0x00 ∷ 0x00 ∷ 0x00 ∷ 0x00 ∷ 0x10 ∷ 0x00 ∷ 0x00
    ∷ 0x00 ∷ 0x60 ∷ 0x00 ∷ 0x00 ∷ 0x00 ∷ []

abbrev pub check_payload : Bytes
check_payload =
    0x60 ∷ 0x00 ∷ 0x00 ∷ 0x00 ∷ 0x00 ∷ 0x38 ∷ 0x3a ∷ 0xff ∷ 0xfe ∷ 0x80 ∷ 0x00 ∷ 0x00 ∷ 0x00 ∷ 0x00
    ∷ 0x00 ∷ 0x00 ∷ 0x00 ∷ 0x00 ∷ 0x00 ∷ 0x00 ∷ 0x00 ∷ 0x00 ∷ 0x00 ∷ 0x01 ∷ 0xfe ∷ 0x80 ∷ 0x00
    ∷ 0x00 ∷ 0x00 ∷ 0x00 ∷ 0x00 ∷ 0x00 ∷ 0xd4 ∷ 0x38 ∷ 0xc1 ∷ 0xfd ∷ 0x07 ∷ 0x7c ∷ 0x00 ∷ 0xc3
    ∷ 0x86 ∷ 0x00 ∷ 0x24 ∷ 0x88 ∷ 0x40 ∷ 0x00 ∷ 0x55 ∷ 0x50 ∷ 0x00 ∷ 0x00 ∷ 0x00 ∷ 0x00 ∷ 0x00
    ∷ 0x00 ∷ 0x00 ∷ 0x00 ∷ 0x05 ∷ 0x01 ∷ 0x00 ∷ 0x00 ∷ 0x00 ∷ 0x00 ∷ 0x05 ∷ 0xdc ∷ 0x03 ∷ 0x04
    ∷ 0x40 ∷ 0x40 ∷ 0xff ∷ 0xff ∷ 0xff ∷ 0xff ∷ 0xff ∷ 0xff ∷ 0xff ∷ 0xff ∷ 0x00 ∷ 0x00 ∷ 0x00
    ∷ 0x00 ∷ 0x20 ∷ 0x01 ∷ 0x80 ∷ 0x04 ∷ 0x14 ∷ 0x20 ∷ 0x21 ∷ 0xf5 ∷ 0x00 ∷ 0x00 ∷ 0x00 ∷ 0x00
    ∷ 0x00 ∷ 0x00 ∷ 0x00 ∷ 0x00 ∷ []

unfoldable pub check_frame : Result Bytes
check_frame = do
  p₁ ← append_tag (mux_packet 1) adbh check_payload 0
  tail ← bounds 0x60
  p₂ ← append_tag p₁ adth tail 0
  p₃ ← get_packet p₂
  ok p₃.packet

-- The command that `__init__` writes to the device.
unfoldable pub open_command : Result Bytes
open_command = do
  p₁ ← append_tag (mux_packet 0) (codes "ACBH") [] 0
  a ← pack_le 4 1
  b ← pack_le 4 0
  p₂ ← append_tag p₁ (codes "CMDH") (a ++ (b ++ (b ++ b))) 0
  p₃ ← get_packet p₂
  ok p₃.packet
