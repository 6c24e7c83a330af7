-- ===== src/Bytes/Laws.antt =====
-- About packing and unpacking together.
use xmm7360_mvp.Prelude.{
  ℕ, zero, suc, ◌+◌, ◌*◌, ◌/◌, ◌%◌, ◌^◌, ◌<◌, ◌≡◌, refl, ap, ◌∙◌, [], ◌∷◌, ◌++◌, arith, Bool,
  length, length-append, All, All-append, lt→ltb, ==_iff,
}
use xmm7360_mvp.Result.{ok}
use xmm7360_mvp.Bytes.{
  Bytes, IsByte, le_bytes, be_bytes, pack_le, pack_be, from_le, from_be_acc, unpack_le, starts_with,
}
use native.Mathlib.Nat.{pow-suc}

pub length-le_bytes : (w n : ℕ) → length (le_bytes w n) ≡ w
unfolding le_bytes
length-le_bytes zero n = refl
length-le_bytes (suc w) n = ap suc (length-le_bytes w (n / 256))

pub length-be_bytes : (w n : ℕ) → length (be_bytes w n) ≡ w
unfolding be_bytes
length-be_bytes zero n = refl
length-be_bytes (suc w) n =
    omega
      (arith, length-append (be_bytes w (n / 256)) ((n % 256) ∷ []), length-be_bytes w (n / 256))

pub le_bytes-IsByte : (w n : ℕ) → All IsByte (le_bytes w n)
unfolding le_bytes
le_bytes-IsByte zero n = tt
le_bytes-IsByte (suc w) n = (omega arith, le_bytes-IsByte w (n / 256))

pub be_bytes-IsByte : (w n : ℕ) → All IsByte (be_bytes w n)
unfolding be_bytes
be_bytes-IsByte zero n = tt
be_bytes-IsByte (suc w) n =
    All-append IsByte (be_bytes w (n / 256)) _ (be_bytes-IsByte w (n / 256)) (omega arith)

pub from_le-le_bytes : (w n : ℕ) → n < 256 ^ w → from_le (le_bytes w n) ≡ n
unfolding le_bytes from_le
from_le-le_bytes zero n h = omega arith
from_le-le_bytes (suc w) n h =
    omega (arith, pow-suc 256 w, from_le-le_bytes w (n / 256) (omega (arith, pow-suc 256 w)))

pub le_bytes-from_le : (bs : Bytes) → All IsByte bs → le_bytes (length bs) (from_le bs) ≡ bs
unfolding le_bytes from_le
le_bytes-from_le [] h = refl
le_bytes-from_le (b ∷ bs) (h, hs) =
    let low : (b + 256 * from_le bs) % 256 ≡ b = omega arith in
    let high : (b + 256 * from_le bs) / 256 ≡ from_le bs = omega arith in
    rw (low, high) (ap (λ (t : Bytes). b ∷ t) (le_bytes-from_le bs hs))

pub from_be_acc-append :
    (acc : ℕ) (xs ys : Bytes) → from_be_acc acc (xs ++ ys) ≡ from_be_acc (from_be_acc acc xs) ys
unfolding from_be_acc
from_be_acc-append acc [] ys = refl
from_be_acc-append acc (x ∷ xs) ys = from_be_acc-append (acc * 256 + x) xs ys

pub from_be_acc-be_bytes :
    (w acc n : ℕ) → n < 256 ^ w → from_be_acc acc (be_bytes w n) ≡ acc * 256 ^ w + n
unfolding be_bytes from_be_acc
from_be_acc-be_bytes zero acc n h = omega arith
from_be_acc-be_bytes (suc w) acc n h =
    from_be_acc-append acc (be_bytes w (n / 256)) ((n % 256) ∷ [])
    ∙ omega (
      arith,
      pow-suc 256 w,
      ap (λ (t : ℕ). acc * t) (pow-suc 256 w),
      from_be_acc-be_bytes w acc (n / 256) (omega (arith, pow-suc 256 w)),
    )

pub from_be-be_bytes : (w n : ℕ) → n < 256 ^ w → from_be_acc 0 (be_bytes w n) ≡ n
from_be-be_bytes w n h = omega (arith, from_be_acc-be_bytes w 0 n h)

pub pack_le-eq-ok : (w n : ℕ) → n < 256 ^ w → pack_le w n ≡ ok (le_bytes w n)
unfolding pack_le
pack_le-eq-ok w n h = rw (lt→ltb _ _ h)

pub pack_be-eq-ok : (w n : ℕ) → n < 256 ^ w → pack_be w n ≡ ok (be_bytes w n)
unfolding pack_be
pack_be-eq-ok w n h = rw (lt→ltb _ _ h)

pub unpack_le-le_bytes : (w n : ℕ) → n < 256 ^ w → unpack_le w (le_bytes w n) ≡ ok n
unfolding unpack_le
unpack_le-le_bytes w n h =
    rw ((==_iff _ _).1 (length-le_bytes w n)) (ap ok (from_le-le_bytes w n h))

pub starts_with-append : (ps bs : Bytes) → starts_with ps (ps ++ bs) ≡ Bool.true
unfolding starts_with
starts_with-append [] bs = refl
starts_with-append (p ∷ ps) bs = rw ((==_iff p p).1 refl) (starts_with-append ps bs)
