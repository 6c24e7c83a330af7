-- ===== src/Trace/Framing.antt =====
-- About the buffer loops of the trace reader, against the scanner.
use xmm7360_mvp.Prelude.{
  ℕ, zero, suc, ◌<◌, ◌==◌, ==_iff, ◌≡◌, ◌≢◌, refl, ap, ◌∙◌, sym, arith, List, [], ◌∷◌, ◌++◌,
  append-nil, length, length-append, All, inl, inr, Bool-cases,
}
use xmm7360_mvp.Bytes.{Bytes}
use xmm7360_mvp.Trace.{flag, keep, packets_loop, feed, read_all}
use xmm7360_mvp.Trace.Scan.{
  Scanner, searching, inside, see, scan, NoFlag, scan-append, scan-inside, scan-searching,
  find_flag-cases,
}

-- The buffer that stands for a scanner's state, and the states that occur.
abbrev pub held : Scanner → Bytes
held searching = []
held (inside acc) = flag ∷ acc

abbrev pub IsHeld : Scanner → Type 0
IsHeld searching = Unit
IsHeld (inside acc) = NoFlag acc

abbrev pub buffered : List Bytes × Scanner → List Bytes × Bytes
buffered (packets, st) = (packets, held st)

keep-append : (p : Bytes) (out more : List Bytes) → keep p out ++ more ≡ keep p (out ++ more)
keep-append [] out more = refl
keep-append (b ∷ p) out more = refl

at_flag :
    (p r : Bytes)
    → scan (inside p) (flag ∷ r) ≡ (keep p (scan (inside []) r).0, (scan (inside []) r).1)
unfolding scan
at_flag p r = rw (keep-append p [] (scan (inside []) r).0) refl

-- The scanner in front of a run without a flag, and then a flag.
pub scan_packet :
    (p r : Bytes)
    → NoFlag p
    → scan (inside []) (p ++ (flag ∷ r)) ≡ (keep p (scan (inside []) r).0, (scan (inside []) r).1)
scan_packet p r hp = scan-inside [] p (flag ∷ r) hp ∙ at_flag p r

scan_rest : (acc p : Bytes) → NoFlag p → scan (inside acc) p ≡ ([], inside (acc ++ p))
unfolding scan
scan_rest acc p hp = rw (append-nil p) at (scan-inside acc p [] hp)

packets_loop-scan :
    (fuel : ℕ) (buf : Bytes)
    → length buf < fuel
    → packets_loop fuel (flag ∷ buf) ≡ buffered (scan (inside []) buf)
unfolding packets_loop
packets_loop-scan zero buf h = absurd (omega arith)
packets_loop-scan (suc fuel) buf h = elim (find_flag-cases buf) [
  | inl (none_in, e) ↦ rw (e, scan_rest [] buf none_in) refl
  | inr (p, r, hp, parts, e) ↦
      (let shorter : length r < fuel = omega (arith, ap length parts, length-append p (flag ∷ r)) in
        rw (e, packets_loop-scan fuel r shorter, parts, scan_packet p r hp) refl)
]

scan_none : (bs : Bytes) → NoFlag bs → scan searching bs ≡ ([], searching)
unfolding scan
scan_none bs h = rw (append-nil bs) at (scan-searching bs [] h)

pub from_flag : (r : Bytes) → scan searching (flag ∷ r) ≡ scan (inside []) r
unfolding scan
from_flag r = refl

-- One round of the outer loop is the scanner on what was read.
feed-scan : (st : Scanner) (new : Bytes) → IsHeld st → feed (held st) new ≡ buffered (scan st new)
unfolding feed
feed-scan searching new h = elim (find_flag-cases new) [
  | inl (none_in, e) ↦ rw (e, scan_none new none_in) refl
  | inr (p, r, hp, parts, e) ↦
      (rw (e, packets_loop-scan (suc (length r)) r (omega arith), parts)
        (rw (scan-searching p (flag ∷ r) hp) (ap buffered (sym (from_flag r)))))
]
feed-scan (inside acc) new h =
    packets_loop-scan (suc (length (acc ++ new))) (acc ++ new) (omega arith)
    ∙ ap buffered (scan-inside [] acc new h)

NoFlag-snoc : (acc : Bytes) (b : ℕ) → NoFlag acc → b ≢ flag → NoFlag (acc ++ (b ∷ []))
NoFlag-snoc [] b h hb = (hb, tt)
NoFlag-snoc (a ∷ acc) b (ha, h) hb = (ha, NoFlag-snoc acc b h hb)

see-IsHeld : (st : Scanner) (b : ℕ) → IsHeld st → IsHeld (see st b).1
see-IsHeld searching b h = elim (Bool-cases (b == flag)) [
  | inl here ↦ rw here tt
  | inr other ↦ rw other tt
]
see-IsHeld (inside acc) b h = elim (Bool-cases (b == flag)) [
  | inl here ↦ rw here tt
  | inr other ↦ rw other (NoFlag-snoc acc b h (λ e. cc (sym ((==_iff b flag).1 e) ∙ other)))
]

scan-IsHeld : (st : Scanner) (bs : Bytes) → IsHeld st → IsHeld (scan st bs).1
unfolding scan
scan-IsHeld st [] h = h
scan-IsHeld st (b ∷ bs) h = scan-IsHeld (see st b).1 bs (see-IsHeld st b h)

abbrev pub IsRead : Bytes → Type 0
IsRead new = new ≢ []

abbrev pub joined : List Bytes → Bytes
joined [] = []
joined (new ∷ reads) = new ++ joined reads

scan_end : (st : Scanner) → (scan st []).0 ≡ []
unfolding scan
scan_end st = refl

read_all-scan :
    (reads : List Bytes) (st : Scanner)
    → All IsRead reads
    → IsHeld st
    → read_all reads (held st) ≡ (scan st (joined reads)).0
unfolding read_all
read_all-scan [] st hr h = sym (scan_end st)
read_all-scan ([] ∷ reads) st (hb, hr) h = absurd (hb refl)
read_all-scan ((b ∷ new) ∷ reads) st (hb, hr) h = rw (feed-scan st (b ∷ new) h) (
    rw (read_all-scan reads (scan st (b ∷ new)).1 hr (scan-IsHeld st (b ∷ new) h))
      (sym (ap (λ (p : List Bytes × Scanner). p.0) (scan-append st (b ∷ new) (joined reads)))))

-- However the stream is cut into reads that are not empty, the same packets come out: those of the
-- scanner that sees one byte after another.
pub read_all-eq-scan :
    (reads : List Bytes) → All IsRead reads → read_all reads [] ≡ (scan searching (joined reads)).0
read_all-eq-scan reads h = read_all-scan reads searching h tt
