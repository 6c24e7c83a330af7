-- ===== src/Trace/Escape.antt =====
-- A sender's side of the trace as a specification, packets escaped and put between flags, and the
-- reader on what it sends.
use xmm7360_mvp.Prelude.{
  ℕ, ◌-◌, ◌==◌, ==_iff, ◌≡◌, ◌≢◌, refl, ap, ◌∙◌, sym, false, ◌||◌, arith, List, [], ◌∷◌, ◌++◌, map,
  All, if◌then◌else◌, ◌⊎◌, inl, inr, Bool-cases,
}
use xmm7360_mvp.Result.{Result, ok, ◌>>=◌}
use xmm7360_mvp.Bytes.{Bytes}
use xmm7360_mvp.Trace.{flag, unescape, keep, read_all, run, process_all}
use xmm7360_mvp.Trace.Scan.{searching, inside, scan, NoFlag}
use xmm7360_mvp.Trace.Framing.{IsRead, joined, scan_packet, from_flag, read_all-eq-scan}

-- The flag and the escape byte itself are sent as the escape byte and the byte without its sixth bit.
unfoldable pub escape : Bytes → Bytes
escape [] = []
escape (b ∷ bs) =
    let rest = escape bs in if b == 0x7d || b == flag then 0x7d ∷ (b - 32) ∷ rest else b ∷ rest

-- The packets of a stream behind its first flag.
unfoldable pub framed : List Bytes → Bytes
unfolding escape
framed [] = []
framed (p ∷ ps) = escape p ++ (flag ∷ framed ps)

unescape_plain :
    (b : ℕ) (rest : Bytes) {out : Bytes}
    → (b == 0x7d) ≡ false
    → unescape rest ≡ ok out
    → unescape (b ∷ rest) ≡ ok (b ∷ out)
unfolding unescape
unescape_plain b [] hb e = rw hb (ap (λ (r : Result Bytes). r >>= λ out. ok (b ∷ out)) e)
unescape_plain b (c ∷ rest) hb e = rw (hb, unescape) (rw e refl)

-- A byte is the escape byte, the flag, or neither.
kinds : (b : ℕ) → (b ≡ 0x7d) ⊎ ((b ≡ flag) ⊎ (((b == 0x7d) ≡ false) × ((b == flag) ≡ false)))
kinds b = elim (Bool-cases (b == 0x7d)) [
  | inl here ↦ inl ((==_iff b 0x7d).0 here)
  | inr other ↦ (elim (Bool-cases (b == flag)) [
    | inl here ↦ inr (inl ((==_iff b flag).0 here))
    | inr another ↦ inr (inr (other, another))
  ])
]

pub unescape-escape : (bs : Bytes) → unescape (escape bs) ≡ ok bs
unfolding unescape escape
unescape-escape [] = refl
unescape-escape (b ∷ bs) = elim (kinds b) [
  | inl e ↦ rw (e, unescape-escape bs) refl
  | inr (inl e) ↦ rw (e, unescape-escape bs) refl
  | inr (inr (e, e')) ↦ rw (e, e') (unescape_plain b (escape bs) e (unescape-escape bs))
]

escape-NoFlag : (bs : Bytes) → NoFlag (escape bs)
unfolding escape
escape-NoFlag [] = tt
escape-NoFlag (b ∷ bs) = elim (kinds b) [
  | inl e ↦ rw e ((λ h. omega arith), ((λ h. omega arith), escape-NoFlag bs))
  | inr (inl e) ↦ rw e ((λ h. omega arith), ((λ h. omega arith), escape-NoFlag bs))
  | inr (inr (e, e')) ↦ rw (e, e') ((λ h. cc (sym ((==_iff b flag).1 h) ∙ e')), escape-NoFlag bs)
]

-- What the scanner makes of a stream whose packets are not empty.
keep-escape :
    (p : Bytes) (packets : List Bytes) → p ≢ [] → keep (escape p) packets ≡ escape p ∷ packets
unfolding escape
keep-escape [] packets h = absurd (h refl)
keep-escape (b ∷ p) packets h = elim (kinds b) [
  | inl e ↦ rw e refl
  | inr (inl e) ↦ rw e refl
  | inr (inr (e, e')) ↦ rw (e, e') refl
]

scan-framed :
    (ps : List Bytes)
    → All (λ p. p ≢ []) ps
    → scan (inside []) (framed ps) ≡ (map escape ps, inside [])
unfolding framed scan
scan-framed [] h = refl
scan-framed (p ∷ ps) (hp, h) =
    scan_packet (escape p) (framed ps) (escape-NoFlag p)
    ∙ rw (scan-framed ps h, keep-escape p (map escape ps) hp) refl

unescape-all : (ps : List Bytes) → map unescape (map escape ps) ≡ map ok ps
unescape-all [] = refl
unescape-all (p ∷ ps) = rw (unescape-escape p, unescape-all ps) refl

-- However a stream of packets, none of them empty, is cut into reads that are not empty, the reader
-- finds as many packets, and `unescape` turns them into the ones that were sent.
pub unescape-read_all :
    (ps : List Bytes) (reads : List Bytes)
    → All (λ p. p ≢ []) ps
    → All IsRead reads
    → joined reads ≡ flag ∷ framed ps
    → map unescape (read_all reads []) ≡ map ok ps
unescape-read_all ps reads hp hr e =
    ap (map unescape)
      (read_all-eq-scan reads hr ∙ rw (e, from_flag (framed ps), scan-framed ps hp) refl)
    ∙ unescape-all ps

-- What the program logs, and how it ends, depends on the bytes of the stream alone and not on how
-- they are cut into reads, as long as no read is empty.
pub run-joined :
    (reads reads' : List Bytes)
    → All IsRead reads
    → All IsRead reads'
    → joined reads ≡ joined reads'
    → run reads ≡ run reads'
unfolding run
run-joined reads reads' h h' e = ap process_all (
    read_all-eq-scan reads h
    ∙ ap (λ bs. (scan searching bs).0) e
    ∙ sym (read_all-eq-scan reads' h'))
