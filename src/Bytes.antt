-- ===== src/Bytes.antt =====
-- Byte strings as lists of numbers, and the formats of the `struct` module that the program uses:
-- `<H`, `<L`, `>H`, `>L` and `B`. Packing a number that does not fit raises struct.error.
pub mod Laws
pub mod Ends
use xmm7360_mvp.Prelude.{
  ℕ, zero, suc, ◌+◌, ◌*◌, ◌/◌, ◌%◌, ◌^◌, ◌<◌, Bool, true, false, ◌&&◌, List, [], ◌∷◌, ◌++◌, ltb,
  ◌==◌, length,
}
use xmm7360_mvp.Result.{Result, ok, err, ◌>>=◌, ◌>>◌, check, struct}

abbrev pub Bytes : Type 0
Bytes = List ℕ

abbrev pub IsByte : ℕ → Type 0
IsByte b = b < 256

-- The lowest `w` bytes of `n`, lowest first and highest first.
unfoldable pub le_bytes : ℕ → ℕ → Bytes
le_bytes zero n = []
le_bytes (suc w) n = (n % 256) ∷ le_bytes w (n / 256)

unfoldable pub be_bytes : ℕ → ℕ → Bytes
be_bytes zero n = []
be_bytes (suc w) n = be_bytes w (n / 256) ++ ((n % 256) ∷ [])

-- `struct.pack('<L', n)` is `pack_le 4 n`, `struct.pack('>H', n)` is `pack_be 2 n`, and so on.
unfoldable pub pack_le : ℕ → ℕ → Result Bytes
unfolding le_bytes
pack_le w n = do check (ltb n (256 ^ w)) struct; ok (le_bytes w n)

unfoldable pub pack_be : ℕ → ℕ → Result Bytes
unfolding be_bytes
pack_be w n = do check (ltb n (256 ^ w)) struct; ok (be_bytes w n)

unfoldable pub from_le : Bytes → ℕ
from_le [] = 0
from_le (b ∷ bs) = b + 256 * from_le bs

unfoldable pub from_be_acc : ℕ → Bytes → ℕ
from_be_acc acc [] = acc
from_be_acc acc (b ∷ bs) = from_be_acc (acc * 256 + b) bs

-- Unpacking wants exactly the format's number of bytes.
unfoldable pub unpack_le : ℕ → Bytes → Result ℕ
unfolding from_le
unpack_le w bs = do check (length bs == w) struct; ok (from_le bs)

unfoldable pub unpack_be : ℕ → Bytes → Result ℕ
unfolding from_be_acc
unpack_be w bs = do check (length bs == w) struct; ok (from_be_acc 0 bs)

-- `data.startswith(prefix)`.
unfoldable pub starts_with : Bytes → Bytes → Bool
starts_with [] bs = true
starts_with (p ∷ ps) [] = false
starts_with (p ∷ ps) (b ∷ bs) = p == b && starts_with ps bs

-- `a == b`
unfoldable pub same_bytes : Bytes → Bytes → Bool
same_bytes [] [] = true
same_bytes (a ∷ bs) (b ∷ cs) = a == b && same_bytes bs cs
same_bytes _ _ = false
