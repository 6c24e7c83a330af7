-- ===== src/Trace/Packet.antt =====
-- What `handle_packet` makes of a packet that is not escaped any more.
use xmm7360_mvp.Prelude.{
  ℕ, zero, suc, ◌-◌, ◌≤◌, ◌<◌, ◌==◌, ◌≡◌, ◌≢◌, refl, ap, sym, append-nil, ◌∙◌, Bool, true, false,
  ◌||◌, ◌&&◌, not, arith, List, [], ◌∷◌, ◌++◌, Option, none, some, length, length-append,
  length-take, take, take-append, if◌then◌else◌, ltb, lt→ltb, le→not-ltb, Bool-cases, inl, inr,
}
use xmm7360_mvp.Result.{Result, ok, ◌>>=◌}
use xmm7360_mvp.Bytes.{Bytes}
use xmm7360_mvp.Trace.{Entry, printed, formatted, byte_at, entry_of, handle_packet, payload_of}

-- A call that returns.
abbrev Returns {ℓ} : {A : Type ℓ} → Result A → Type ℓ
Returns {A} r = (a : A) × (r ≡ ok a)

byte_at-Returns : (i : ℕ) (bs : Bytes) → i < length bs → Returns (byte_at i bs)
unfolding byte_at
byte_at-Returns i [] h = absurd (omega arith)
byte_at-Returns zero (b ∷ bs) h = (b, refl)
byte_at-Returns (suc i) (b ∷ bs) h = byte_at-Returns i bs (omega arith)

Returns-if {ℓ} :
    {A : Type ℓ} (b : Bool) {x y : Result A}
    → Returns x
    → (b ≡ false → Returns y)
    → Returns (if b then x else y)
Returns-if true hx hy = hx
Returns-if false hx hy = hy refl

Returns-bind {ℓ κ} :
    {A : Type ℓ} {B : Type κ} {r : Result A} {f : A → Result B}
    → Returns r
    → ((a : A) → Returns (f a))
    → Returns (r >>= f)
Returns-bind (a, e) k = let (b, e') = k a in (b, rw e e')

entry_of-Returns :
    (stream : ℕ) (packet : Bytes) → 8 ≤ length packet → Returns (entry_of stream packet)
unfolding entry_of
entry_of-Returns stream packet h = elim (Bool-cases (stream == 0 && ltb 8 (length packet))) [
  | inl long ↦ rw long (
      Returns-bind (byte_at-Returns 7 packet (omega arith)) λ typ.
        Returns-bind (byte_at-Returns 8 packet (ground arith))
          λ val. (payload_of typ val packet, refl))
  | inr short ↦ rw short (none, refl)
]

-- On every packet of two bytes or more `handle_packet` returns.
pub handle_packet-Returns :
    (packet : Bytes) → 2 ≤ length packet → (r : Option Entry) × (handle_packet packet ≡ ok r)
unfolding handle_packet
handle_packet-Returns [] h = absurd (omega arith)
handle_packet-Returns (stream ∷ []) h = absurd (omega arith)
handle_packet-Returns (stream ∷ seq ∷ rest) h =
    let packet = stream ∷ seq ∷ rest in
    elim (Bool-cases (ltb (length packet) 13)) [
      | inl short ↦ rw short (none, refl)
      | inr long ↦
          (let big : 13 ≤ length packet = ground arith in
            let size : length (take (length packet - 5) packet) ≡ length packet - 5 =
              omega (arith, length-take (length packet - 5) packet) in
            rw long (
              Returns-bind (byte_at-Returns 5 rest (omega arith)) λ typ.
                Returns-if (not (stream == 0) || not (typ == 0x10 || typ == 0x11)) (none, refl)
                  λ _.
                    entry_of-Returns stream (take (length packet - 5) packet)
                      (omega (arith, size))))
    ]

-- Five bytes of the header that are not looked at, behind the sequence number.
pub record Header : Type 0 where
  pub seq : ℕ
  pub b2 : ℕ
  pub b3 : ℕ
  pub b4 : ℕ
  pub b5 : ℕ
  pub b6 : ℕ

-- A packet on the wire: the byte behind the type, what it is followed by, and the checksum.
abbrev pub wire_packet : ℕ → Header → ℕ → ℕ → Bytes → Bytes → Bytes
wire_packet stream h typ val content sum =
    stream ∷ h.seq ∷ h.b2 ∷ h.b3 ∷ h.b4 ∷ h.b5 ∷ h.b6 ∷ typ ∷ val ∷ (content ++ sum)

stripped :
    (stream : ℕ) (h : Header) (typ val : ℕ) (content sum : Bytes)
    → length sum ≡ 5
    → let P = wire_packet stream h typ val content sum in
      take (length P - 5) P ≡ wire_packet stream h typ val content []
stripped stream h typ val content sum e =
    let P = wire_packet stream h typ val content sum in
    let nine : List ℕ → List ℕ =
      λ bs. stream ∷ h.seq ∷ h.b2 ∷ h.b3 ∷ h.b4 ∷ h.b5 ∷ h.b6 ∷ typ ∷ val ∷ bs in
    let size : length P - 5 ≡ length (nine content) = omega (arith, length-append content sum, e) in
    ap (λ n. take n P) size ∙ ap nine (take-append content sum) ∙ ap nine (sym (append-nil content))

handle_known :
    (h : Header) (typ val : ℕ) (content sum : Bytes)
    → length sum ≡ 5
    → (typ == 0x10 || typ == 0x11) ≡ true
    → handle_packet (wire_packet 0 h typ val content sum)
      ≡ ok (payload_of typ val (wire_packet 0 h typ val content []))
unfolding handle_packet byte_at entry_of
handle_known h typ val content sum e known =
    let P = wire_packet 0 h typ val content sum in
    let Q = wire_packet 0 h typ val content [] in
    let long : ltb (length P) 13 ≡ false =
      le→not-ltb (length P) 13 (omega (arith, length-append content sum, e)) in
    rw (long, known, stripped 0 h typ val content sum e)
      (rw (lt→ltb 8 (length Q) (omega arith)) refl)

handle_other :
    (stream : ℕ) (h : Header) (typ val : ℕ) (content sum : Bytes)
    → length sum ≡ 5
    → (not (stream == 0) || not (typ == 0x10 || typ == 0x11)) ≡ true
    → handle_packet (wire_packet stream h typ val content sum) ≡ ok none
unfolding handle_packet byte_at
handle_other stream h typ val content sum e other =
    let P = wire_packet stream h typ val content sum in
    let long : ltb (length P) 13 ≡ false =
      le→not-ltb (length P) 13 (omega (arith, length-append content sum, e)) in
    rw (long, other) refl

-- A byte behind the type that is neither 0 nor 3.
payload_of_other :
    (typ val : ℕ) (packet : Bytes) → val ≢ 0 → val ≢ 3 → payload_of typ val packet ≡ none
payload_of_other typ val packet h h' =
    let not_zero : (val == 0) ≡ false = ground arith in
    let not_three : (val == 3) ≡ false = ground arith in rw (not_zero, not_three) refl

-- On a packet of a header of nine bytes, a content and a checksum of five bytes, whatever the header
-- has besides the stream, the type and the byte behind the type. For the stream 0: behind a byte 0 stands the payload, and behind a byte 3
-- four bytes more and then the payload, which is handed on as a text for the type 0x10, and as a
-- format with its arguments for the type 0x11. A packet with another byte there, of another type, or
-- of another stream is passed over.
pub handle_packet-wire_packet :
    (h : Header) (payload sum : Bytes) (e1 e2 e3 e4 typ val stream any any_type : ℕ)
    → length sum ≡ 5
    → val ≢ 0
    → val ≢ 3
    → typ ≢ 0x10
    → typ ≢ 0x11
    → stream ≢ 0
    → let marked = e1 ∷ e2 ∷ e3 ∷ e4 ∷ payload in
      (handle_packet (wire_packet 0 h 0x10 0 payload sum) ≡ ok (some (printed payload)))
      × (handle_packet (wire_packet 0 h 0x11 0 payload sum) ≡ ok (some (formatted payload)))
      × (handle_packet (wire_packet 0 h 0x10 3 marked sum) ≡ ok (some (printed payload)))
      × (handle_packet (wire_packet 0 h 0x11 3 marked sum) ≡ ok (some (formatted payload)))
      × (handle_packet (wire_packet 0 h 0x10 val payload sum) ≡ ok none)
      × (handle_packet (wire_packet 0 h 0x11 val payload sum) ≡ ok none)
      × (handle_packet (wire_packet 0 h typ any payload sum) ≡ ok none)
      × (handle_packet (wire_packet stream h any_type any payload sum) ≡ ok none)
handle_packet-wire_packet h payload sum e1 e2 e3 e4 typ val stream any any_type e h0 h3 h10 h11 hs =
    let marked = e1 ∷ e2 ∷ e3 ∷ e4 ∷ payload in
    let whole : payload ++ [] ≡ payload = append-nil payload in
    let other_type : (not (0 == 0) || not (typ == 0x10 || typ == 0x11)) ≡ true = ground arith in
    let other_stream : (stream == 0) ≡ false = ground arith in
    (
      handle_known h 0x10 0 payload sum e refl ∙ ap (λ bs. ok (some (printed bs))) whole,
      handle_known h 0x11 0 payload sum e refl ∙ ap (λ bs. ok (some (formatted bs))) whole,
      handle_known h 0x10 3 marked sum e refl ∙ ap (λ bs. ok (some (printed bs))) whole,
      handle_known h 0x11 3 marked sum e refl ∙ ap (λ bs. ok (some (formatted bs))) whole,
      handle_known h 0x10 val payload sum e refl
          ∙ ap ok (payload_of_other 0x10 val (wire_packet 0 h 0x10 val payload []) h0 h3),
      handle_known h 0x11 val payload sum e refl
          ∙ ap ok (payload_of_other 0x11 val (wire_packet 0 h 0x11 val payload []) h0 h3),
      handle_other 0 h typ any payload sum e other_type,
      handle_other stream h any_type any payload sum e (rw other_stream refl),
    )

-- A message of the trace, with its header and five bytes of checksum.
abbrev pub trace_packet : ℕ → ℕ → ℕ → Bytes → Bytes → Bytes
trace_packet seq unknown typ payload sum =
    0 ∷ seq ∷ unknown ∷ 0 ∷ 0 ∷ 0 ∷ 0 ∷ typ ∷ 0 ∷ (payload ++ sum)

-- Such a message is handed on as a text or as a format.
pub handle_packet-trace_packet :
    (seq unknown : ℕ) (payload sum : Bytes)
    → length sum ≡ 5
    → (handle_packet (trace_packet seq unknown 0x10 payload sum) ≡ ok (some (printed payload)))
      × (handle_packet (trace_packet seq unknown 0x11 payload sum) ≡ ok (some (formatted payload)))
handle_packet-trace_packet seq unknown payload sum e =
    let h : Header = record { seq = seq; b2 = unknown; b3 = 0; b4 = 0; b5 = 0; b6 = 0 } in
    let whole : payload ++ [] ≡ payload = append-nil payload in
    (
      handle_known h 0x10 0 payload sum e refl ∙ ap (λ bs. ok (some (printed bs))) whole,
      handle_known h 0x11 0 payload sum e refl ∙ ap (λ bs. ok (some (formatted bs))) whole,
    )
