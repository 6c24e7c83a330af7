-- ===== src/Tests/Frames.antt =====
-- Frames of the data channel, and the theorems on them.
use xmm7360_mvp.Prelude.{◌+◌, ◌%◌, ◌≡◌, refl, [], ◌∷◌, ◌++◌, replicate, arith, codes}
use xmm7360_mvp.Result.{ok, err, struct}
use xmm7360_mvp.Bytes.{Bytes, le_bytes}
use xmm7360_mvp.Mux.{
  append_tag, get_packet, bounds, pad_loop, package_data, read_mux, check_frame, pkd, open_command,
}
use xmm7360_mvp.Mux.Read.{read_mux-package_data, package_data_refused}

abbrev five : Bytes
five = 1 ∷ 2 ∷ 3 ∷ 4 ∷ 5 ∷ []

read_mux-package_data_example :
    (frame : Bytes) × (package_data 255 five ≡ (ok frame, 256 % 256))
    × (read_mux frame ≡ ok ((replicate 16 0 ++ five) ∷ []))
read_mux-package_data_example = read_mux-package_data 255 five (omega arith)

-- The assertion of XMMMux.__init__ holds.
self_check : check_frame ≡ ok pkd
unfolding check_frame append_tag get_packet bounds pad_loop le_bytes
self_check = refl

open_command_bytes :
    open_command
    ≡ ok (
        codes "ACBH"
        ++ (0 ∷ 0 ∷ 0 ∷ 0 ∷ 44 ∷ 0 ∷ 0 ∷ 0 ∷ 16 ∷ 0 ∷ 0 ∷ 0 ∷ [])
        ++ (codes "CMDH" ++ (28 ∷ 0 ∷ 0 ∷ 0 ∷ 0 ∷ 0 ∷ 0 ∷ 0 ∷ 1 ∷ 0 ∷ 0 ∷ 0 ∷ replicate 12 0)))
unfolding open_command append_tag get_packet pad_loop le_bytes
open_command_bytes = refl

package_data_refused_example : package_data 7 (replicate 65504 0) ≡ (err struct, (7 + 1) % 256)
package_data_refused_example = package_data_refused 7 (replicate 65504 0) (omega arith)
