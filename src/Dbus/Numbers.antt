-- ===== src/Dbus/Numbers.antt =====
-- About the numbers that stand for the name servers' addresses.
use xmm7360_mvp.Prelude.{ℕ, ◌^◌, ◌<◌, ◌≡◌, arith}
use xmm7360_mvp.Bytes.{le_bytes, be_bytes, from_le}
use xmm7360_mvp.Bytes.Laws.{le_bytes-from_le, be_bytes-IsByte}
use xmm7360_mvp.Dbus.{dotted_quad_to_number}

-- The number of an address fits dbus.UInt32, its four bytes, lowest first, are the bytes of the
-- address in network order, and converting it once more gives back an address below 2 ^ 32.
pub dotted_quad_to_number_lem :
    (ip : ℕ)
    → ip < 2 ^ 32
    → (dotted_quad_to_number ip < 2 ^ 32)
      × (le_bytes 4 (dotted_quad_to_number ip) ≡ be_bytes 4 ip)
      × (dotted_quad_to_number (dotted_quad_to_number ip) ≡ ip)
unfolding dotted_quad_to_number le_bytes be_bytes from_le
dotted_quad_to_number_lem ip h =
    (omega arith, le_bytes-from_le (be_bytes 4 ip) (be_bytes-IsByte 4 ip), omega arith)
