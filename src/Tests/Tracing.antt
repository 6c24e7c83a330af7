-- ===== src/Tests/Tracing.antt =====
-- Runs of the trace reader, and the theorems on it.
use xmm7360_mvp.Prelude.{◌≡◌, refl, arith, Option, none, some, List, [], ◌∷◌, map, codes}
use xmm7360_mvp.Result.{ok, struct, stop}
use xmm7360_mvp.Bytes.{Bytes}
use xmm7360_mvp.Trace.{
  flag, unescape, find_flag, packets_loop, feed, read_all, Entry, printed, formatted, handle_packet,
  byte_at, entry_of, process, process_all, run,
}
use xmm7360_mvp.Trace.Framing.{joined}
use xmm7360_mvp.Trace.Escape.{escape, framed, unescape-read_all, run-joined}
use xmm7360_mvp.Trace.Packet.{
  Header, wire_packet, trace_packet, handle_packet-Returns, handle_packet-wire_packet,
}

-- Two packets with bytes that are escaped, cut inside an escape.
abbrev two : List Bytes
two = (0x7d ∷ 1 ∷ []) ∷ (flag ∷ []) ∷ []

abbrev cut : List Bytes
cut = (0x7e ∷ 0x7d ∷ []) ∷ (0x5d ∷ 1 ∷ 0x7e ∷ 0x7d ∷ []) ∷ (0x5e ∷ 0x7e ∷ []) ∷ []

abbrev whole : List Bytes
whole = joined cut ∷ []

cut-joined : joined cut ≡ flag ∷ framed two
unfolding framed escape
cut-joined = refl

unescape-read_all_example : map unescape (read_all cut []) ≡ map ok two
unescape-read_all_example =
    unescape-read_all two cut ((λ e. cc), ((λ e. cc), tt)) ((λ e. cc), ((λ e. cc), ((λ e. cc), tt)))
      cut-joined

run-joined_example : run cut ≡ run whole
run-joined_example =
    run-joined cut whole ((λ e. cc), ((λ e. cc), ((λ e. cc), tt))) ((λ e. cc), tt) refl

handle_packet-Returns_example : (r : Option Entry) × (handle_packet (0 ∷ 1 ∷ 2 ∷ []) ≡ ok r)
handle_packet-Returns_example = handle_packet-Returns (0 ∷ 1 ∷ 2 ∷ []) (omega arith)

abbrev sum : Bytes
sum = 1 ∷ 2 ∷ 3 ∷ 4 ∷ 5 ∷ []

abbrev some_header : Header
some_header = record { seq = 7; b2 = 1; b3 = 2; b4 = 3; b5 = 4; b6 = 5 }

abbrev hello : Bytes
hello = codes "hello"

handle_packet-wire_packet_example :
    let marked = 9 ∷ 8 ∷ 7 ∷ 6 ∷ hello in
    (handle_packet (wire_packet 0 some_header 0x10 0 hello sum) ≡ ok (some (printed hello)))
    × (handle_packet (wire_packet 0 some_header 0x11 0 hello sum) ≡ ok (some (formatted hello)))
    × (handle_packet (wire_packet 0 some_header 0x10 3 marked sum) ≡ ok (some (printed hello)))
    × (handle_packet (wire_packet 0 some_header 0x11 3 marked sum) ≡ ok (some (formatted hello)))
    × (handle_packet (wire_packet 0 some_header 0x10 1 hello sum) ≡ ok none)
    × (handle_packet (wire_packet 0 some_header 0x11 1 hello sum) ≡ ok none)
    × (handle_packet (wire_packet 0 some_header 0x12 3 hello sum) ≡ ok none)
    × (handle_packet (wire_packet 1 some_header 0x10 3 hello sum) ≡ ok none)
handle_packet-wire_packet_example =
    handle_packet-wire_packet some_header hello sum 9 8 7 6 0x12 1 1 3 0x10 refl (omega arith)
      (omega arith) (omega arith) (omega arith) (omega arith)

-- A message in two reads, behind bytes that no flag precedes; the packet that is not finished waits.
logged :
    run ((5 ∷ flag ∷ trace_packet 7 1 0x10 (codes "hello") sum) ∷ (flag ∷ 9 ∷ []) ∷ [])
    ≡ (printed (codes "hello") ∷ [], none)
unfolding run unescape find_flag packets_loop feed read_all handle_packet byte_at entry_of process
    process_all
logged = refl

-- A packet of one byte ends the program, and so does one that ends in the escape byte.
one_byte : run ((flag ∷ 9 ∷ flag ∷ []) ∷ []) ≡ ([], some struct)
unfolding run unescape find_flag packets_loop feed read_all handle_packet process process_all
one_byte = refl

escape_at_end : run ((flag ∷ 9 ∷ 0x7d ∷ flag ∷ []) ∷ []) ≡ ([], some stop)
unfolding run unescape find_flag packets_loop feed read_all process process_all
escape_at_end = refl
