-- ===== src/Lib.antt =====
-- The user-space side of the XMM7360 LTE modem: the Python programs under src/rpc and src/trace,
-- which talk to the kernel driver's character devices. Paths are from the repository's root.
--
-- The program's parts. src/rpc/rpc.py has a codec (`pack`, `unpack`, `unpack_unknown`), the requests
-- and replies of each call written with it, and the class XMMRPC. `execute` frames a request, writes
-- it to the device, and calls `pump` until a response arrives; `pump` reads a message, has
-- `handle_message` sort it, passes an unsolicited one to `handle_unsolicited`, and prints the body.
-- On top of `execute` stand `UtaSysGetInfo`, `UtaModeSet`, `get_ip` and `do_fcc_unlock`. The names of
-- the calls and of the callbacks are in src/rpc/rpc_call_ids.py and src/rpc/rpc_unsol_table.py.
-- src/rpc/mux.py carries the packets of a tunnel device in frames of chained tags. src/trace/trace.py
-- reads the modem's trace: escaped packets between flag bytes, out of reads of any size.
-- src/rpc/open_xdatachannel.py is the script that brings the modem up: it calls XMMRPC's procedures
-- in a fixed order until the modem has given an address, changes the host's link, routes and resolver,
-- and opens the data channel. src/rpc/xm_dbus.py writes the address into NetworkManager's settings and
-- activates the connection.
--
-- The files.
--   Prelude, Result, Bytes: the shared names and lemmas, Python's exceptions as values, and byte
--     strings with the formats of the `struct` module. Result.Ends, Bytes.Ends and Rpc.Pack.Types
--     name rule sets for `search`: on how calls end, and on results that are bytes.
--   Rpc.Take, Rpc.Pack: the decoder and the encoder. A function that pops bytes off a bytearray
--     returns them with the rest. Their children are the lemmas: Ends (the fuel is enough), Laws and
--     Reads (what the parts write and read), Agree (the two decoders), RoundTrip and Long (the encoder
--     against the decoder).
--   Rpc.Calls: the `pack_…` and `unpack_…` functions, named in lower case with underscores:
--     `pack_UtaMsNetAttachReq` is `pack_uta_ms_net_attach_req`.
--   Rpc.CallIds, Rpc.UnsolTable, Rpc.Tables: the two dictionaries and how their numbers relate.
--   Rpc.Message: the request of `execute` and `handle_message`. Rpc.Format: `format_unknown`.
--   Rpc.Session: XMMRPC as a state, `pump`, `execute`, and the procedures on it; the children state
--     what each leaves behind (Effects), the waiting loop (Await), `attach_allowed` (Attach),
--     `UtaModeSet` (Modes), the order of its answer and its confirmation (Lost) and `get_ip` on answers of a
--     known shape (Answered, with the fields in Rpc.Calls.Replies). Rpc.Fcc: `do_fcc_unlock`, with
--     `hashlib.sha256` as a parameter; Attempts and Answered are about a modem that answers each
--     request at once, Ends about any modem. Rpc.Main: the choice of the device file in
--     `XMMRPC.__init__` and the script of the file, whose requests Talks compares with the
--     bring-up's protocol. Rpc.Pack.Types and Rpc.Message.Types are about the bytes that are written.
--   Mux: `MuxPacket`, `package`, `read_mux` and the self-check of `__init__`; Frame spells out the
--     frame that `package` writes and Read what is taken out of it. Mux.Loop: the object XMMMux and
--     its loop, `init`, over what `select`, the device and the tunnel return; Moves is what goes
--     from one state to a later one, Serve is about a run of the loop, and Link puts two programs back
--     to back.
--   Trace: `unescape`, the two loops over the buffer (`find_flag`, `packets_loop`, `feed`, `read_all`),
--     `handle_packet`, and what the program logs of its reads (`run`). Scan is a scanner that sees one
--     byte after another, Framing relates the loops to it, Escape is a sender's side, and Packet is about
--     `handle_packet`. Trace.Printf: `decode_printf`, with the formatting `fmt % args` as a parameter;
--     Collect is a sender's side of it, and Ends is about its loop. Trace.Log: `log` and the lines that
--     the program prints (`output`); Lines is about one line, and Sent about the whole program.
--   Bringup: src/rpc/open_xdatachannel.py from the first unlocking to the open channel. `establish` is
--     what it does until it has an address, `plan` the changes of the host, `connect` the data channel,
--     `bring_up` the whole. Protocol is the order of the requests as a step relation on the stages of
--     the script; Follows, Unlock and Talks relate the calls to it; Attach, Address and Host are about
--     attaching, the address, and the changes of the host.
--   Dbus: the class DBUS of src/rpc/xm_dbus.py, over NetworkManager as a record of operations on a
--     state. Assoc is Python's dictionary; Numbers, Update, Connections, Devices and SetUp are about
--     the parts. Script is the script's own copy of that code, Lawful what the comparison of the two
--     relies on in NetworkManager, and Script.Search, Agree, Sweep and Together compare them.
--     Result.Action is the monad of calls on a state.
--   Tests: runs on concrete inputs, the expected bytes of src/rpc/test_rpc.py among them.
--
-- The state. `Modem` is what `os.read` will return, message by message, what `os.write` was handed,
-- and `attach_allowed`. A call takes a modem to a result and a modem, and an exception keeps what was
-- read and written before it. The messages are given beforehand: they may depend on the requests in
-- any way, since the theorems are about all of them.
--
-- Fuel and bounds. A loop that the source leaves unbounded has fuel: `pack` as much as the format is
-- long, `unpack_unknown` as much as the input is long, `execute` and `UtaModeSet` one more than there
-- are messages, the inner loop of src/trace/trace.py as much as its buffer is long, the loop of
-- `decode_printf` one more than its format is long. Each round takes a character, a byte or a message
-- away, so it is enough. The loop of src/rpc/mux.py goes over the lists of files that `select`
-- returns, one after another, and then waits. A read without a message raises `blocked`,
-- which stands for waiting for ever. The script's wait for attachment and its loop for the address have
-- one more than there are messages too, as each round reads one. Numbers are not negative and have no
-- width; where the source packs one into a field, a number that does not fit is struct.error.
-- `pad_loop` of Mux has three rounds, which are enough for a multiple of four.
--
-- Parameters: `hashlib.sha256`; which device files there are and how they open; what `select`, the
-- tunnel and the device return, where a write to the tunnel does not fail and a read of the device
-- gives the first 8192 bytes of a message; Python's `%` operator on a format and its arguments; the
-- script's options, the links that the host lists and what it answers
-- to a change; the operations of NetworkManager, of which nothing is assumed but where Lawful is named,
-- and the number of `uuid.uuid4()`. Addresses are kept as numbers, where the source has their dotted
-- text.
--
-- Not modelled: what is printed by the programs under src/rpc (save that printing a body can raise),
-- `tid_gen` of src/rpc/rpc.py, which nothing reads, short writes, the option parser of
-- src/rpc/open_xdatachannel.py and the pause between two attempts, and the code in other languages:
-- the driver src/xmm7360.c, src/rpc/mux.c, the shell scripts, the units and the desktop extension.
pub mod Prelude
pub mod Result
pub mod Bytes
pub mod Rpc
pub mod Mux
pub mod Trace
pub mod Bringup
pub mod Dbus
mod Tests
