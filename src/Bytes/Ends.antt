-- ===== src/Bytes/Ends.antt =====
-- How the formats of the `struct` module end, with rules for `search`.
use xmm7360_mvp.Prelude.{ℕ}
use xmm7360_mvp.Result.Ends.{Finishes, finish_rules}
use xmm7360_mvp.Bytes.{Bytes, pack_le, pack_be, unpack_le, unpack_be}

pub pack_le-Ends : (w n : ℕ) → Finishes (pack_le w n)
unfolding pack_le
pack_le-Ends w n = search finish_rules

pub pack_be-Ends : (w n : ℕ) → Finishes (pack_be w n)
unfolding pack_be
pack_be-Ends w n = search finish_rules

pub unpack_le-Ends : (w : ℕ) (bs : Bytes) → Finishes (unpack_le w bs)
unfolding unpack_le
unpack_le-Ends w bs = search finish_rules

pub unpack_be-Ends : (w : ℕ) (bs : Bytes) → Finishes (unpack_be w bs)
unfolding unpack_be
unpack_be-Ends w bs = search finish_rules

pub ruleset struct_rules =
    (finish_rules, pack_le-Ends, pack_be-Ends, unpack_le-Ends, unpack_be-Ends)
