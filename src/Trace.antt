-- ===== src/Trace.antt =====
-- trace.py: the reader of the modem's trace. Packets stand between flag bytes 0x7e and are escaped;
-- what `os.read` returns is a list of chunks, cut anywhere.
pub mod Scan
pub mod Framing
pub mod Escape
pub mod Packet
pub mod Printf
pub mod Log
use xmm7360_mvp.Prelude.{
  ℕ, zero, suc, ◌+◌, ◌-◌, ◌==◌, bit_or, Bool, true, false, not, ◌||◌, ◌&&◌, Option, none, some,
  List, [], ◌∷◌, ◌++◌, take, drop, length, leb, ltb, if◌then◌else◌,
}
use xmm7360_mvp.Result.{Result, Error, ok, err, ◌>>=◌, index, struct, stop}
use xmm7360_mvp.Bytes.{Bytes}

abbrev pub flag : ℕ
flag = 0x7e

-- `next(packet)` at the end is a StopIteration.
unfoldable pub unescape : Bytes → Result Bytes
unescape [] = ok []
unescape (ch ∷ []) = if ch == 0x7d then err stop else ok (ch ∷ [])
unescape (ch ∷ next ∷ packet) = elim (ch == 0x7d) [
  | true ↦ (do out ← unescape packet; ok (bit_or next 32 ∷ out))
  | false ↦ (do out ← unescape (next ∷ packet); ok (ch ∷ out))
]

abbrev pub behind : ℕ → Option (Bytes × Bytes) → Option (Bytes × Bytes)
behind b none = none
behind b (some (before, found)) = some (b ∷ before, found)

-- `buf.find(b'\x7e')`: what stands in front of the first flag, and the rest from the flag on.
unfoldable pub find_flag : Bytes → Option (Bytes × Bytes)
find_flag [] = none
find_flag (b ∷ buf) =
    let rest = find_flag buf in if b == flag then some ([], b ∷ buf) else behind b rest

-- `if not len(packet): continue`
abbrev pub keep : Bytes → List Bytes → List Bytes
keep [] packets = packets
keep (b ∷ packet) packets = (b ∷ packet) ∷ packets

-- `packet = buf[1:end]` and `buf = buf[end:]`, and then the next rounds; without a flag, `break`.
abbrev pub cut_packet :
    Bytes → Option (Bytes × Bytes) → (Bytes → List Bytes × Bytes) → List Bytes × Bytes
cut_packet buf none rounds = ([], buf)
cut_packet buf (some (packet, buf')) rounds =
    let (packets, left) = rounds buf' in (keep packet packets, left)

-- The inner loop on a buffer that begins with a flag: the packets, and the buffer that is left.
unfoldable pub packets_loop : ℕ → Bytes → List Bytes × Bytes
unfolding find_flag
packets_loop fuel [] = ([], [])
packets_loop zero (b ∷ buf) = ([], b ∷ buf)
packets_loop (suc fuel) (b ∷ buf) =
    cut_packet (b ∷ buf) (find_flag buf) (λ buf'. packets_loop fuel buf')

-- One round of the outer loop, on the buffer and what was read.
unfoldable pub feed : Bytes → Bytes → List Bytes × Bytes
unfolding find_flag packets_loop
feed buf new = elim (find_flag (buf ++ new)) [
  | none ↦ ([], [])
  | some (_, buf') ↦ packets_loop (length buf') buf'
]

-- The packets of all reads. An empty read ends the loop.
unfoldable pub read_all : List Bytes → Bytes → List Bytes
unfolding feed
read_all [] buf = []
read_all ([] ∷ reads) buf = []
read_all ((b ∷ new) ∷ reads) buf =
    let (packets, buf') = feed buf (b ∷ new) in packets ++ read_all reads buf'

-- The payload that `handle_packet` hands to `log`, as it is or through `decode_printf`.
pub data Entry : Type 0 where
  printed formatted : Bytes → Entry

-- `packet[i]`
unfoldable pub byte_at : ℕ → Bytes → Result ℕ
byte_at i [] = err index
byte_at zero (b ∷ bs) = ok b
byte_at (suc i) (b ∷ bs) = byte_at i bs

abbrev pub entry_for : ℕ → Bytes → Option Entry
entry_for typ payload =
    if typ == 0x10
    then some (printed payload)
    else if typ == 0x11
    then some (formatted payload)
    else none

-- Where the payload begins depends on the byte behind the type.
abbrev pub payload_of : ℕ → ℕ → Bytes → Option Entry
payload_of typ val packet =
    if val == 0
    then entry_for typ (drop 9 packet)
    else if val == 3
    then entry_for typ (drop 13 packet)
    else none

-- `handle_packet` behind the checksum's removal.
unfoldable pub entry_of : ℕ → Bytes → Result (Option Entry)
unfolding byte_at
entry_of stream packet =
    if stream == 0 && ltb 8 (length packet)
    then (do typ ← byte_at 7 packet; val ← byte_at 8 packet; ok (payload_of typ val packet))
    else ok none

unfoldable pub handle_packet : Bytes → Result (Option Entry)
unfolding byte_at entry_of
handle_packet (stream ∷ seq ∷ rest) =
    let packet = stream ∷ seq ∷ rest in
    if ltb (length packet) 13 then ok none else (do
      typ ← byte_at 7 packet
      if not (stream == 0) || not (typ == 0x10 || typ == 0x11)
          then ok none
          else entry_of stream (take (length packet - 5) packet))
handle_packet _ = err struct

-- `handle_packet(unescape(packet))`
unfoldable pub process : Bytes → Result (Option Entry)
unfolding unescape handle_packet
process packet = do plain ← unescape packet; handle_packet plain

-- An exception ends the program; what was logged before it stays.
abbrev pub and_then : Result (Option Entry) → List Entry × Option Error → List Entry × Option Error
and_then (err e) later = ([], some e)
and_then (ok none) later = later
and_then (ok (some entry)) later = (entry ∷ later.0, later.1)

unfoldable pub process_all : List Bytes → List Entry × Option Error
unfolding process
process_all [] = ([], none)
process_all (packet ∷ packets) = and_then (process packet) (process_all packets)

-- The program on what its reads return: what it logs, and the exception that ended it.
unfoldable pub run : List Bytes → List Entry × Option Error
unfolding read_all process_all
run reads = process_all (read_all reads [])
