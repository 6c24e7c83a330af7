-- ===== src/Mux/Read.antt =====
-- What `read_mux` takes out of a frame of `package`, and the packets that `package` refuses.
use xmm7360_mvp.Prelude.{
  ℕ, ◌+◌, ◌%◌, ◌^◌, ◌≤◌, ◌<◌, ◌≡◌, refl, ap, ◌∙◌, [], ◌∷◌, ◌++◌, append_assoc, take, drop,
  replicate, length, length-append, length-replicate, arith, lt→ltb, le→not-ltb, drop-append,
  take-append,
}
use xmm7360_mvp.Prelude.Bits.{bit_and_byte}
use xmm7360_mvp.Result.{ok, err, struct}
use xmm7360_mvp.Bytes.{Bytes, le_bytes, from_le}
use xmm7360_mvp.Bytes.Laws.{from_le-le_bytes}
use xmm7360_mvp.Mux.{append_tag, adbh, build, package_data, read_bounds, read_mux}
use xmm7360_mvp.Mux.Frame.{
  padding, padded, aligned, next_of, frame_of, second, build-eq-frame_of, length-frame_of,
}

read_second :
    (frame : Bytes) (n : ℕ)
    → n < 256 ^ 4
    → read_bounds frame (second n) ≡ ok (take n (drop 16 frame) ∷ [])
unfolding read_bounds le_bytes
read_second frame n h = rw (from_le-le_bytes 4 n h) refl

-- The second tag of a frame stands where the first one points.
drop_first_tag :
    (seq total : ℕ) (xs : Bytes) (n : ℕ)
    → drop (next_of xs) (frame_of seq total (next_of xs) (aligned xs) n) ≡ second n
unfolding le_bytes
drop_first_tag seq total xs n = rw (← size) (drop-append head (second n))
  where
    head : Bytes
    head =
        (adbh
          ++ (le_bytes 2 0 ++ (le_bytes 2 seq ++ (le_bytes 4 total ++ le_bytes 4 (next_of xs)))))
        ++ aligned xs

    size : length head ≡ next_of xs
    size = omega (
      arith,
      length-append xs (replicate (padding (length xs)) 0),
      length-replicate {A = ℕ} (padding (length xs)) 0,
    )

follow_pointer :
    (seq total : ℕ) (xs : Bytes) (n : ℕ)
    → next_of xs < 256 ^ 4
    → n < 256 ^ 4
    → let frame = frame_of seq total (next_of xs) (aligned xs) n in
      read_bounds frame (drop (from_le (le_bytes 4 (next_of xs))) frame)
      ≡ ok (take n (drop 16 frame) ∷ [])
follow_pointer seq total xs n hp hn = rw (from_le-le_bytes 4 (next_of xs) hp) (
    rw (drop_first_tag seq total xs n)
      (read_second (frame_of seq total (next_of xs) (aligned xs) n) n hn))

-- `read_mux` follows the pointer of a frame to its second tag.
read_mux-frame_of :
    (seq total : ℕ) (xs : Bytes) (n : ℕ)
    → next_of xs < 256 ^ 4
    → n < 256 ^ 4
    → read_mux (frame_of seq total (next_of xs) (aligned xs) n)
      ≡ ok (take n (aligned xs ++ second n) ∷ [])
unfolding read_mux le_bytes
read_mux-frame_of seq total xs n hp hn = follow_pointer seq total xs n hp hn

-- The slice between the bounds is the zeros of the front and the packet.
cut_packet : (xs rest : Bytes) → take (length xs + 16) (aligned xs ++ rest) ≡ padded xs
cut_packet xs rest =
    let size : length xs + 16 ≡ length (padded xs) = omega arith in
    rw size (
      ap (take (length (padded xs)))
        (append_assoc (padded xs) (replicate (padding (length xs)) 0) rest)
      ∙ take-append (padded xs) (replicate (padding (length xs)) 0 ++ rest))

-- The frame that `package` writes for a packet.
abbrev pub sent_frame : ℕ → Bytes → Bytes
sent_frame seq xs =
    frame_of ((seq + 1) % 256) (next_of xs + 24) (next_of xs) (aligned xs) (length xs + 16)

pub package_data-eq-sent_frame :
    (seq : ℕ) (xs : Bytes)
    → length xs + 32 < 65536
    → package_data seq xs ≡ (ok (sent_frame seq xs), (seq + 1) % 256)
unfolding package_data
package_data-eq-sent_frame seq xs hx =
    rw (bit_and_byte (seq + 1)) (rw (build-eq-frame_of ((seq + 1) % 256) xs (omega arith) hx) refl)

-- The frame is at most 59 bytes longer than its packet.
pub length-sent_frame : (seq : ℕ) (xs : Bytes) → length (sent_frame seq xs) ≤ length xs + 59
length-sent_frame seq xs =
    omega (arith, length-frame_of ((seq + 1) % 256) (next_of xs + 24) xs (length xs + 16))

-- `read_mux` accepts what `package` writes for a packet of fewer than 65504 bytes, and hands on
-- exactly one packet: the one given, behind sixteen zeros. The sequence number goes up by one and
-- wraps at 256.
pub read_mux-package_data :
    (seq : ℕ) (xs : Bytes)
    → length xs + 32 < 65536
    → (frame : Bytes) × (package_data seq xs ≡ (ok frame, (seq + 1) % 256))
      × (read_mux frame ≡ ok ((replicate 16 0 ++ xs) ∷ []))
read_mux-package_data seq xs hx = (
  sent_frame seq xs,
  package_data-eq-sent_frame seq xs hx,
  read_mux-frame_of ((seq + 1) % 256) (next_of xs + 24) xs (length xs + 16) (omega arith)
        (omega arith)
      ∙ ap (λ ys. ok (ys ∷ [])) (cut_packet xs (second (length xs + 16))),
)

-- A packet that does not fit the 16-bit length of its tag is refused with struct.error, and the
-- sequence number goes up all the same.
pub package_data_refused :
    (seq : ℕ) (xs : Bytes)
    → 65536 ≤ length xs + 32
    → package_data seq xs ≡ (err struct, (seq + 1) % 256)
unfolding package_data build append_tag
package_data_refused seq xs hx =
    let size : 16 + length (padded xs) ≡ length xs + 32 = omega arith in
    rw (bit_and_byte (seq + 1)) (
      rw (lt→ltb ((seq + 1) % 256) 65536 (omega arith))
        (rw size (rw (le→not-ltb (length xs + 32) 65536 hx) refl)))
