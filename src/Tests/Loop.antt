-- ===== src/Tests/Loop.antt =====
-- The two programs at the ends of the data channel, and the theorems on them.
use xmm7360_mvp.Prelude.{◌≡◌, ◌≢◌, ◌⊎◌, refl, arith, List, [], ◌∷◌, ◌++◌, map, All}
use xmm7360_mvp.Result.{err, blocked}
use xmm7360_mvp.Bytes.{Bytes, starts_with}
use xmm7360_mvp.Mux.{read_mux}
use xmm7360_mvp.Mux.Loop.{XmmMux, xmm_mux, Event, mux_readable, tun_readable, serve, init}
use xmm7360_mvp.Mux.Loop.Moves.{IsSmall, IsReadable, Moves}
use xmm7360_mvp.Mux.Loop.Serve.{serve-Moves}
use xmm7360_mvp.Mux.Loop.Link.{behind_zeros, IsCarried, init-Link}

abbrev packets : List Bytes
packets = (1 ∷ 2 ∷ 3 ∷ []) ∷ (4 ∷ []) ∷ []

-- A message that is no frame, and one that the modem sends back.
abbrev messages : List Bytes
messages = (0 ∷ []) ∷ []

abbrev rounds : List (List Event)
rounds = (mux_readable ∷ tun_readable ∷ []) ∷ (tun_readable ∷ []) ∷ []

-- The second program reads the opening command and the first frame, and waits with the second.
abbrev rounds' : List (List Event)
rounds' = (mux_readable ∷ []) ∷ (mux_readable ∷ []) ∷ []

packets-IsSmall : All IsSmall packets
packets-IsSmall = (omega arith, (omega arith, tt))

messages-IsReadable : All IsReadable messages
unfolding read_mux starts_with
messages-IsReadable = (([], refl), tt)

packets-IsCarried : All IsCarried packets
packets-IsCarried = (omega arith, (omega arith, tt))

abbrev object : XmmMux
object = xmm_mux messages packets

serve-Moves_example : ((serve rounds object).0 ≡ err blocked) × Moves object (serve rounds object).1
serve-Moves_example = serve-Moves rounds object packets-IsSmall messages-IsReadable

init-Link_example :
    let near = init rounds (xmm_mux messages packets) in
    let far = init rounds' (xmm_mux near.1.fp_out []) in
    (near.0 ≡ err blocked)
    × (far.0 ≡ err blocked)
    × (received transit : List Bytes) × (packets ≡ received ++ (transit ++ near.1.tun_in))
    × (far.1.tun_out ≡ map behind_zeros received)
    × ((transit ≡ []) ⊎ (far.1.fp_in ≢ []))
init-Link_example =
    init-Link packets [] messages rounds rounds' packets-IsCarried tt messages-IsReadable
