-- ===== src/Mux/Frame.antt =====
-- The frame that `package` builds, byte by byte.
use xmm7360_mvp.Prelude.{
  ℕ, zero, suc, ◌+◌, ◌-◌, ◌%◌, ◌^◌, ◌≤◌, ◌<◌, ◌≡◌, refl, ◌∙◌, sym, ◌==◌, ==_iff, bit_and, Option,
  some, [], ◌∷◌, ◌++◌, append-nil, append_assoc, replicate, length, length-append, length-replicate,
  arith, Bool-cases, inl, inr, lt→ltb,
}
use xmm7360_mvp.Prelude.Bits.{bit_and_low_two}
use xmm7360_mvp.Result.{ok}
use xmm7360_mvp.Bytes.{Bytes, le_bytes}
use xmm7360_mvp.Bytes.Laws.{pack_le-eq-ok}
use xmm7360_mvp.Mux.{
  MuxPacket, mux_packet, get_packet, pad_loop, pad, begin_tag, append_tag, adbh, adth, bounds,
  build,
}

-- The zeros that bring a length to a multiple of four.
abbrev pub padding : ℕ → ℕ
padding n = (4 - n % 4) % 4

snoc_zeros : (k : ℕ) (p : Bytes) → (p ++ (0 ∷ [])) ++ replicate k 0 ≡ p ++ replicate (suc k) 0
snoc_zeros k p = append_assoc p (0 ∷ []) (replicate k 0)

pad_loop-eq :
    (fuel : ℕ) (p : Bytes)
    → padding (length p) ≤ fuel
    → pad_loop fuel p ≡ p ++ replicate (padding (length p)) 0
unfolding pad_loop
pad_loop-eq zero p h =
    let none_left : padding (length p) ≡ 0 = omega arith in rw none_left (sym (append-nil p))
pad_loop-eq (suc fuel) p h = elim (Bool-cases (bit_and (length p) 3 == 0)) [
  | inl aligned ↦
      let rem : length p % 4 ≡ 0 = sym (bit_and_low_two (length p)) ∙ (==_iff _ _).0 aligned in
      let none_left : padding (length p) ≡ 0 = omega arith in
      rw aligned (rw none_left (sym (append-nil p)))
  | inr more ↦
      let longer = length-append p (0 ∷ []) in
      let one_more : padding (length p) ≡ suc (padding (length (p ++ (0 ∷ [])))) =
        ground (arith, longer, bit_and_low_two (length p)) in
      rw more (
        rw one_more (
          pad_loop-eq fuel (p ++ (0 ∷ [])) (omega arith)
          ∙ snoc_zeros (padding (length (p ++ (0 ∷ [])))) p))
]

-- `pad` appends up to three zeros.
pub pad-eq : (p : Bytes) → pad p ≡ p ++ replicate (padding (length p)) 0
pad-eq p = pad_loop-eq 3 p (omega arith)

-- The bytes of a frame over a payload, by its five numbers.
abbrev pub frame_of : ℕ → ℕ → ℕ → Bytes → ℕ → Bytes
frame_of seq total next payload n =
    adbh
    ++ (le_bytes 2 0
        ++ (le_bytes 2 seq
            ++ (le_bytes 4 total
                ++ (le_bytes 4 next
                    ++ (payload
                        ++ (adth
                            ++ (le_bytes 2 24
                                ++ (le_bytes 2 0
                                    ++ (le_bytes 4 0
                                        ++ (le_bytes 4 0
                                            ++ (le_bytes 4 0x10 ++ le_bytes 4 n)))))))))))

-- The datagram as it stands in the frame: sixteen zeros, the packet, the zeros that align it.
abbrev pub padded : Bytes → Bytes
padded xs = replicate 16 0 ++ xs

abbrev pub aligned : Bytes → Bytes
aligned xs = padded xs ++ replicate (padding (length xs)) 0

abbrev pub next_of : Bytes → ℕ
next_of xs = 32 + length xs + padding (length xs)

first_tag :
    (seq : ℕ) (xs : Bytes)
    → seq < 256
    → length xs + 32 < 65536
    → append_tag (mux_packet seq) adbh (padded xs) 0
      ≡ ok (record {
        seq = seq;
        packet =
            adbh
            ++ (le_bytes 2 0
                ++ (le_bytes 2 seq
                    ++ (le_bytes 2 (length xs + 32)
                        ++ (le_bytes 2 0 ++ (le_bytes 4 0 ++ padded xs)))));
        fwd_pointer = some 12;
      })
unfolding append_tag le_bytes
first_tag seq xs hs hx =
    let size : 16 + length (padded xs) ≡ length xs + 32 = omega arith in
    rw (lt→ltb seq 65536 (omega arith)) (rw size (rw (lt→ltb (length xs + 32) 65536 hx) refl))

abbrev front : ℕ → Bytes → Bytes
front seq xs =
    adbh
    ++ (le_bytes 2 0
        ++ (le_bytes 2 seq
            ++ (le_bytes 2 (length xs + 32) ++ (le_bytes 2 0 ++ (le_bytes 4 0 ++ padded xs)))))

front-aligned :
    (seq : ℕ) (xs : Bytes) → pad (front seq xs) ≡ front seq xs ++ replicate (padding (length xs)) 0
unfolding le_bytes
front-aligned seq xs =
    let same : padding (length (front seq xs)) ≡ padding (length xs) = omega arith in
    pad-eq (front seq xs) ∙ rw same refl

second_begin :
    (seq : ℕ) (xs : Bytes)
    → length xs + 32 < 65536
    → begin_tag
        (record { seq = seq; packet = front seq xs; fwd_pointer = some 12 })
        adth
        (front seq xs)
      ≡ ok (
        adth,
        adbh
            ++ (le_bytes 2 0
                ++ (le_bytes 2 seq
                    ++ (le_bytes 2 (length xs + 32)
                        ++ (le_bytes 2 0 ++ (le_bytes 4 (next_of xs) ++ aligned xs))))),
      )
unfolding begin_tag le_bytes
second_begin seq xs hx =
    let zeros : Bytes = replicate (padding (length xs)) 0 in
    let size : length (front seq xs ++ zeros) ≡ next_of xs =
      omega (arith, length-append xs zeros, length-replicate {A = ℕ} (padding (length xs)) 0) in
    rw (front-aligned seq xs) (rw size (rw (lt→ltb (next_of xs) 4294967296 (omega arith)) refl))

bounds-eq :
    (n : ℕ) → n < 256 ^ 4 → bounds n ≡ ok (le_bytes 4 0 ++ (le_bytes 4 0x10 ++ le_bytes 4 n))
unfolding bounds
bounds-eq n h = rw (pack_le-eq-ok 4 n h) refl

-- Everything in front of the second tag, its pointer set.
abbrev linked : ℕ → Bytes → Bytes
linked seq xs =
    adbh
    ++ (le_bytes 2 0
        ++ (le_bytes 2 seq
            ++ (le_bytes 2 (length xs + 32)
                ++ (le_bytes 2 0 ++ (le_bytes 4 (next_of xs) ++ aligned xs)))))

abbrev pub second : ℕ → Bytes
second n =
    (adth ++ (le_bytes 2 24 ++ (le_bytes 2 0 ++ le_bytes 4 0)))
    ++ (le_bytes 4 0 ++ (le_bytes 4 0x10 ++ le_bytes 4 n))

abbrev tagged : ℕ → Bytes → MuxPacket
tagged seq xs = record { seq = seq; packet = front seq xs; fwd_pointer = some 12 }

second_tag :
    (seq : ℕ) (xs : Bytes) (n : ℕ)
    → length xs + 32 < 65536
    → append_tag (tagged seq xs) adth (le_bytes 4 0 ++ (le_bytes 4 0x10 ++ le_bytes 4 n)) 0
      ≡ ok (record {
        seq = seq;
        packet = linked seq xs ++ second n;
        fwd_pointer = some (length (linked seq xs) + 12 - 4);
      })
unfolding append_tag le_bytes
second_tag seq xs n hx = rw (second_begin seq xs hx) refl

length-linked :
    (seq : ℕ) (xs : Bytes) (n : ℕ) → length (linked seq xs ++ second n) ≡ next_of xs + 24
length-linked seq xs n =
    let zeros : Bytes = replicate (padding (length xs)) 0 in
    unfold le_bytes in
    omega (
      arith,
      length-append (aligned xs) (second n),
      length-append (padded xs) zeros,
      length-replicate {A = ℕ} (padding (length xs)) 0,
    )

-- The whole frame, with its length put in.
frame_length :
    (seq : ℕ) (xs : Bytes) (fwd : Option ℕ)
    → length xs + 32 < 65536
    → get_packet
        (record { seq = seq; packet = linked seq xs ++ second (length xs + 16); fwd_pointer = fwd })
      ≡ ok (record {
        seq = seq;
        packet = frame_of seq (next_of xs + 24) (next_of xs) (aligned xs) (length xs + 16);
        fwd_pointer = fwd;
      })
unfolding get_packet le_bytes
frame_length seq xs fwd hx =
    rw (length-linked seq xs (length xs + 16))
      (rw (lt→ltb (next_of xs + 24) 4294967296 (omega arith)) refl)

pub length-frame_of :
    (seq total : ℕ) (xs : Bytes) (n : ℕ)
    → length (frame_of seq total (next_of xs) (aligned xs) n) ≡ next_of xs + 24
length-frame_of seq total xs n =
    let zeros : Bytes = replicate (padding (length xs)) 0 in
    unfold le_bytes in
    omega (
      arith,
      length-append (aligned xs) (second n),
      length-append (padded xs) zeros,
      length-replicate {A = ℕ} (padding (length xs)) 0,
    )

-- On every packet that fits, `package` writes this frame.
pub build-eq-frame_of :
    (seq : ℕ) (xs : Bytes)
    → seq < 256
    → length xs + 32 < 65536
    → build seq xs ≡ ok (frame_of seq (next_of xs + 24) (next_of xs) (aligned xs) (length xs + 16))
unfolding build
build-eq-frame_of seq xs hs hx =
    let size : length (padded xs) ≡ length xs + 16 = omega arith in
    rw (first_tag seq xs hs hx) (
      rw size (
        rw (bounds-eq (length xs + 16) (omega arith)) (
          rw (second_tag seq xs (length xs + 16) hx)
            (rw (frame_length seq xs (some (length (linked seq xs) + 12 - 4)) hx) refl))))
