-- ===== src/Rpc/Main.antt =====
-- rpc.py: the choice of the device in `XMMRPC.__init__`, and the script of the file. Which files there
-- are, and what the device will return once it is open, are parameters.
pub mod Talks
use xmm7360_mvp.Prelude.{
  Bool, true, false, String, Option, none, some, List, [], ◌∷◌, if◌then◌else◌,
}
use xmm7360_mvp.Result.{Result, ok, err, io, from_option}
use xmm7360_mvp.Bytes.{Bytes}
use xmm7360_mvp.Rpc.Take.{Field, num}
use xmm7360_mvp.Rpc.Session.{
  Modem, M, ◌>>=◌, ◌>>◌, pure, execute_default, uta_mode_set, uta_sys_get_info,
}
use xmm7360_mvp.Rpc.Fcc.{do_fcc_unlock}

-- The default argument of the constructor.
abbrev pub default_interfaces : List String
default_interfaces = "/dev/xmm0/rpc" ∷ "/dev/wwan0xmmrpc0" ∷ []

-- The loop that ends in `break`.
unfoldable pub select_interface : (String → Bool) → List String → Option String
select_interface exists [] = none
select_interface exists (interface ∷ interfaces) =
    let later = select_interface exists interfaces in
    if exists interface then some interface else later

-- `os.open(…)`, and `attach_allowed = False`.
abbrev pub opened : Result (List Bytes) → Result Modem
opened (ok inbox) = ok (record { inbox = inbox; outbox = []; attach_allowed = num 0 })
opened (err e) = err e

abbrev pub open_interface : (String → Result (List Bytes)) → Option String → Result Modem
open_interface os_open none = err io
open_interface os_open (some interface) = opened (os_open interface)

unfoldable pub xmmrpc :
    (String → Bool) → (String → Result (List Bytes)) → List String → Result Modem
unfolding select_interface
xmmrpc exists os_open interfaces = open_interface os_open (select_interface exists interfaces)

module _ (sha256 : Bytes → Bytes) where
  -- The script up to its last line.
  unfoldable pub prepare : M (Unit {0})
  prepare = do
    fcc_status ← execute_default "CsiFccLockQueryReq" true
    _ ← execute_default "UtaMsSmsInit" false
    _ ← execute_default "UtaMsCbsInit" false
    _ ← execute_default "UtaMsNetOpen" false
    _ ← execute_default "UtaMsCallCsInit" false
    _ ← execute_default "UtaMsCallPsInitialize" false
    _ ← execute_default "UtaMsSsInit" false
    _ ← execute_default "UtaMsSimOpenReq" false
    do_fcc_unlock sha256
    uta_mode_set 1

  -- The firmware version that it prints.
  unfoldable pub main : M Field
  unfolding prepare
  main = do prepare; uta_sys_get_info 0

  -- How the script ends, and what was written to the device.
  abbrev pub on_device : Result Modem → Result Field × List Bytes
  on_device (ok s) = let (r, t) = main s in (r, t.outbox)
  on_device (err e) = (err e, [])

  unfoldable pub script :
      (String → Bool) → (String → Result (List Bytes)) → Result Field × List Bytes
  unfolding xmmrpc main
  script exists os_open = on_device (xmmrpc exists os_open default_interfaces)
