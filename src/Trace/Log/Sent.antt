-- ===== src/Trace/Log/Sent.antt =====
-- The whole program on the stream of a sender: from the reads to the lines that are printed.
use xmm7360_mvp.Prelude.{
  ℕ, ◌≡◌, ◌≢◌, refl, ap, ◌∙◌, Option, none, some, List, [], ◌∷◌, ◌++◌, map, All, length,
}
use xmm7360_mvp.Result.{Error, ok}
use xmm7360_mvp.Bytes.{Bytes}
use xmm7360_mvp.Trace.{
  flag, Entry, printed, formatted, unescape, handle_packet, process, process_all, read_all, run,
}
use xmm7360_mvp.Trace.Framing.{IsRead, joined}
use xmm7360_mvp.Trace.Escape.{framed, unescape-read_all}
use xmm7360_mvp.Trace.Packet.{trace_packet, handle_packet-trace_packet}
use xmm7360_mvp.Trace.Printf.{Argument, Tried, replace_p, formatted_or_bad}
use xmm7360_mvp.Trace.Printf.Collect.{
  Conversion, IsConversion, IsLiteral, IsChar, format_of, arguments_of, argument, decode_ascii_lem,
  decode_printf-format_of,
}
use xmm7360_mvp.Trace.Log.{log, line, entry_text, print_all, output}

-- A message as the modem sends it: a text, or a format with its conversions and its last literal text.
pub data Message : Type 0 where
  plain : List ℕ → Message
  printf : List Conversion → List ℕ → Message

abbrev pub payload : Message → Bytes
payload (plain txt) = txt
payload (printf cs end) = format_of cs end ++ (0 ∷ (arguments_of cs ++ []))

abbrev type_of : Message → ℕ
type_of (plain txt) = 0x10
type_of (printf cs end) = 0x11

abbrev entry : Message → Entry
entry (plain txt) = printed txt
entry (printf cs end) = formatted (payload (printf cs end))

abbrev pub IsMessage : Message → Type 0
IsMessage (plain txt) = All IsChar txt
IsMessage (printf cs end) = All IsConversion cs × IsLiteral end × All IsChar (format_of cs end)

-- A message on the wire, with its sequence number, a number that the program ignores, and a checksum.
pub record Sent : Type 0 where
  pub message : Message
  pub seq : ℕ
  pub unknown : ℕ
  pub checksum : Bytes

abbrev pub packet_of : Sent → Bytes
packet_of s = trace_packet s.seq s.unknown (type_of s.message) (payload s.message) s.checksum

abbrev pub IsSent : Sent → Type 0
IsSent s = IsMessage s.message × (length s.checksum ≡ 5)

trace_packet-handle :
    (m : Message) (seq unknown : ℕ) (sum : Bytes)
    → length sum ≡ 5
    → handle_packet (trace_packet seq unknown (type_of m) (payload m) sum) ≡ ok (some (entry m))
trace_packet-handle (plain txt) seq unknown sum h =
    (handle_packet-trace_packet seq unknown txt sum h).0
trace_packet-handle (printf cs end) seq unknown sum h =
    (handle_packet-trace_packet seq unknown (payload (printf cs end)) sum h).1

process_all-sent :
    (ss : List Sent) (packets : List Bytes)
    → All IsSent ss
    → map unescape packets ≡ map ok (map packet_of ss)
    → process_all packets ≡ (map (λ s. entry s.message) ss, none)
unfolding process_all process
process_all-sent [] [] h e = refl
process_all-sent [] (p ∷ packets) h e = cc
process_all-sent (s ∷ ss) [] h e = cc
process_all-sent (s ∷ ss) (p ∷ packets) (hs, h) e =
    let first : unescape p ≡ ok (packet_of s) = cc in
    let later : map unescape packets ≡ map ok (map packet_of ss) = cc in
    rw
      (
        first,
        trace_packet-handle s.message s.seq s.unknown s.checksum hs.1,
        process_all-sent ss packets h later,
      )
      refl

module _ (percent : List ℕ → List Argument → Tried (List ℕ)) where
  -- The text of a message, with the formatting left to `percent`.
  abbrev pub text_of : Message → List ℕ
  text_of (plain txt) = txt
  text_of (printf cs end) =
      let fmt = replace_p (format_of cs end) in formatted_or_bad fmt (percent fmt (map argument cs))

  -- The lines of the messages, without those that `log` leaves out.
  abbrev pub lines_of : List Sent → List (List ℕ)
  lines_of [] = []
  lines_of (s ∷ ss) = line (log (text_of s.message)) (lines_of ss)

  entry_text-entry : (m : Message) → IsMessage m → entry_text percent (entry m) ≡ text_of m
  unfolding entry_text
  entry_text-entry (plain txt) h = decode_ascii_lem txt h
  entry_text-entry (printf cs end) (hs, he, hc) = decode_printf-format_of percent cs end [] hs he hc

  print_all-entries :
      (ss : List Sent)
      → All IsSent ss
      → print_all percent (map (λ s. entry s.message) ss) ≡ lines_of ss
  unfolding print_all
  print_all-entries [] h = refl
  print_all-entries (s ∷ ss) ((hm, _), h) =
      ap
        (λ (txt : List ℕ).
          line (log txt) (print_all percent (map (λ (s : Sent). entry s.message) ss)))
        (entry_text-entry s.message hm)
      ∙ ap (line (log (text_of s.message))) (print_all-entries ss h)

packets_apart : (ss : List Sent) → All (λ (p : Bytes). p ≢ []) (map packet_of ss)
packets_apart [] = tt
packets_apart (s ∷ ss) = (λ e. cc, packets_apart ss)

-- For messages in ASCII, each a text or a format with its arguments, that are escaped and put between
-- flags, and a stream that is cut into reads that are not empty: the program prints the line of each
-- message in the order they were sent, without those that `log` leaves out, and no exception ends it.
pub output-framed :
    (percent : List ℕ → List Argument → Tried (List ℕ)) (ss : List Sent) (reads : List Bytes)
    → All IsSent ss
    → All IsRead reads
    → joined reads ≡ flag ∷ framed (map packet_of ss)
    → output percent reads ≡ (lines_of percent ss, none)
unfolding output run
output-framed percent ss reads hs hr e =
    let read = unescape-read_all (map packet_of ss) reads (packets_apart ss) hr e in
    ap (λ (r : List Entry × Option Error). (print_all percent r.0, r.1))
      (process_all-sent ss (read_all reads []) hs read)
    ∙ ap (λ (lines : List (List ℕ)). (lines, none)) (print_all-entries percent ss hs)
