-- ===== src/Rpc/Pack/Long.antt =====
-- The number of elements of a long string: `_pack_string` writes its highest byte first, and
-- `take_string` reads its lowest byte first.
use xmm7360_mvp.Prelude.{
  ℕ, ◌+◌, ◌-◌, ◌*◌, ◌/◌, ◌%◌, ◌^◌, ◌≤◌, ◌<◌, ◌≡◌, ◌≢◌, refl, ◌∙◌, List, [], ◌∷◌, ◌++◌, append_assoc,
  arith, length, leb, leb→le, ◌==◌, ◌||◌, false,
}
use xmm7360_mvp.Result.{
  ok, err, assertion, Ensures, returned, Ensures-ok, Ensures-check, Ensures-bind, Ensures-after,
}
use xmm7360_mvp.Bytes.{Bytes}
use xmm7360_mvp.Rpc.Take.{take_string}
use xmm7360_mvp.Rpc.Take.Laws.{asn, take_valid_two, take_string_head}
use xmm7360_mvp.Rpc.Pack.{bytes, int_of_digits, take_digits, pack_items, pack_string}
use xmm7360_mvp.Rpc.Pack.Laws.{pack_counts-Ensures, valid_field_two}

-- The element count as the decoder sees it: the two bytes swapped.
abbrev swapped : ℕ → ℕ
swapped n = n / 256 + 256 * (n % 256)

counts_differ :
    (n len : ℕ)
    → 256 ≤ n
    → n < 256 * 256
    → n ≤ len
    → n / 256 ≢ n % 256
    → (len == 0 || len == swapped n + (len - n)) ≡ false
counts_differ n len h h' fits ne = ground arith

module _ (xs : Bytes) (long : 256 ≤ length xs) (small : length xs < 256 * 256)
    (differ : length xs / 256 ≢ length xs % 256) where
  take_string_refuses :
      (len : ℕ) (tail : Bytes)
      → length xs ≤ len
      → len < 256 ^ 4
      → take_string (
          0x55
          ∷ ((0x82 ∷ (length xs / 256) ∷ (length xs % 256) ∷ [])
              ++ (asn len ++ (asn (len - length xs) ++ tail))))
        ≡ err assertion
  take_string_refuses len tail fits hl =
      take_string_head 0x55 (swapped (length xs))
        (0x82 ∷ (length xs / 256) ∷ (length xs % 256) ∷ []) xs len (len - length xs) tail []
        (λ more. take_valid_two (length xs / 256) (length xs % 256) more (omega arith)) hl
        (omega arith) refl
      ∙ rw (counts_differ (length xs) len long small fits differ) refl

  string_refused :
      (fmt : List ℕ)
      → Ensures
          (λ (piece, fmt'). (rest : Bytes) → take_string (piece ++ rest) ≡ err assertion)
          (pack_string (bytes xs) fmt b'B')
  unfolding pack_string
  string_refused fmt = Ensures-after (int_of_digits (take_digits fmt).0) λ len.
      Ensures-check (leb (length xs) len) assertion λ fits.
        Ensures-after (pack_items 1 xs) λ payload. rw (valid_field_two (length xs) long small) (
          Ensures-bind (pack_counts-Ensures (len * 1) ((len - length xs) * 1)) λ counts (e, hl, _).
            let one : len * 1 ≡ len = omega arith in
            let rest_one : (len - length xs) * 1 ≡ len - length xs = omega arith in
            returned (λ rest.
              rw (e, one, rest_one)
                (simp append_assoc
                  (rw (take_string_refuses len _ (leb→le _ _ fits) (omega arith)) refl))))

-- A string of 256 to 65535 bytes whose length has two different bytes is not read back: whatever
-- `_pack_string` writes for it with elements of one byte, `take_string` stops at its assertion on the
-- counts.
pub take_string-pack_long :
    (xs : Bytes) (fmt : List ℕ) {piece : Bytes} {fmt' : List ℕ} (rest : Bytes)
    → 256 ≤ length xs
    → length xs < 256 * 256
    → length xs / 256 ≢ length xs % 256
    → pack_string (bytes xs) fmt b'B' ≡ ok (piece, fmt')
    → take_string (piece ++ rest) ≡ err assertion
take_string-pack_long xs fmt rest long small differ e =
    Ensures-ok (string_refused xs long small differ fmt) e rest
