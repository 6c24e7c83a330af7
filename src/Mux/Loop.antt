-- ===== src/Mux/Loop.antt =====
-- mux.py: the object XMMMux. `__init__` checks itself, opens the channel and serves the two files
-- for ever; which of them is readable, and in which order, is what `select` returns.
pub mod Moves
pub mod Serve
pub mod Link
use xmm7360_mvp.Prelude.{ℕ, ◌==◌, Bool, true, false, ◌&&◌, List, [], ◌∷◌, ◌++◌, take}
use xmm7360_mvp.Result.{Result, ok, err, check, assertion, blocked}
use xmm7360_mvp.Result.Action.{Action, pure, raise, lift, ◌>>=◌, ◌>>◌}
use xmm7360_mvp.Bytes.{Bytes, same_bytes}
use xmm7360_mvp.Mux.{package_data, read_mux, pkd, check_frame, open_command}

-- The object, with what the device and the tunnel will return and what they were handed.
pub record XmmMux : Type 0 where
  pub seq : ℕ
  pub fp_in : List Bytes
  pub fp_out : List Bytes
  pub tun_in : List Bytes
  pub tun_out : List Bytes

-- Without anything to read the call waits.
unfoldable pub tun_read : Action XmmMux Bytes
tun_read s = elim s.tun_in [
  | [] ↦ (err blocked, s)
  | packet ∷ packets ↦ (ok packet, record s { tun_in = packets })
]

-- `os.read(self.fp, 8192)`: of a longer message the driver gives the first 8192 bytes, and drops the
-- others.
unfoldable pub fp_read : Action XmmMux Bytes
fp_read s = elim s.fp_in [
  | [] ↦ (err blocked, s)
  | frame ∷ frames ↦ (ok (take 8192 frame), record s { fp_in = frames })
]

unfoldable pub fp_write : Bytes → Action XmmMux (Unit {0})
fp_write frame s = (ok tt, record s { fp_out = s.fp_out ++ (frame ∷ []) })

unfoldable pub tun_write_all : List Bytes → Action XmmMux (Unit {0})
tun_write_all packets s = (ok tt, record s { tun_out = s.tun_out ++ packets })

-- `self.package(packet)`
unfoldable pub package_next : Bytes → Action XmmMux Bytes
package_next packet s = let (r, seq) = package_data s.seq packet in (r, record s { seq = seq })

unfoldable pub read_tun : Action XmmMux (Unit {0})
unfolding tun_read package_next fp_write
read_tun = do packet ← tun_read; frame ← package_next packet; fp_write frame

-- The method `read_mux`. Nothing behind the first write can raise.
unfoldable pub read_mux_callback : Action XmmMux (Unit {0})
unfolding fp_read tun_write_all
read_mux_callback = do frame ← fp_read; packets ← lift (read_mux frame); tun_write_all packets

-- The file that is readable; its key holds the method to call.
pub data Event : Type 0 where
  mux_readable tun_readable : Event

unfoldable pub callback : Event → Action XmmMux (Unit {0})
callback mux_readable = read_mux_callback
callback tun_readable = read_tun

-- `for key, mask in events`
unfoldable pub dispatch : List Event → Action XmmMux (Unit {0})
dispatch [] = pure tt
dispatch (e ∷ events) = do callback e; dispatch events

-- `while True`, with what each call of `select` returns; then `select` waits.
unfoldable pub serve : List (List Event) → Action XmmMux (Unit {0})
unfolding dispatch
serve [] = raise blocked
serve (events ∷ rounds) = do dispatch events; serve rounds

-- The assertion of `__init__`, and the command that opens the channel.
unfoldable pub start : Action XmmMux (Unit {0})
unfolding fp_write
start = do
  frame ← lift check_frame
  lift (check (same_bytes pkd frame) assertion)
  command ← lift open_command
  fp_write command

unfoldable pub init : List (List Event) → Action XmmMux (Unit {0})
unfolding start
init rounds = do start; serve rounds

-- The object that `__init__` begins with.
abbrev pub xmm_mux : List Bytes → List Bytes → XmmMux
xmm_mux fp_in tun_in = record { seq = 0; fp_in = fp_in; fp_out = []; tun_in = tun_in; tun_out = [] }
