-- ===== src/Mux/Loop/Serve.antt =====
-- What a run of the loop moved.
use xmm7360_mvp.Prelude.{take, ℕ, ◌≡◌, refl, sym, List, [], ◌∷◌, append-nil, All, ◌⊎◌, inl, inr}
use xmm7360_mvp.Result.{Result, ok, err, blocked}
use xmm7360_mvp.Result.Action.{Action, bind}
use xmm7360_mvp.Bytes.{Bytes}
use xmm7360_mvp.Mux.{read_mux}
use xmm7360_mvp.Mux.Read.{read_mux-package_data}
use xmm7360_mvp.Mux.Loop.{
  XmmMux, read_tun, read_mux_callback, Event, mux_readable, tun_readable, callback, dispatch, serve,
}
use xmm7360_mvp.Mux.Loop.Moves.{IsSmall, IsReadable, Moves, Moves-refl, Moves-trans}

-- All that the tunnel and the device will return can be handled.
abbrev pub IsFine : XmmMux → Type 0
IsFine s = All IsSmall s.tun_in × All IsReadable s.fp_in

-- A call that left the object fine moved things, and returned or waits.
abbrev Goes : XmmMux → Result (Unit {0}) × XmmMux → Type 0
Goes s r = IsFine r.1 × Moves s r.1 × ((r.0 ≡ ok tt) ⊎ (r.0 ≡ err blocked))

Goes-bind :
    (s : XmmMux) (r : Result (Unit {0}) × XmmMux) (next : Action XmmMux (Unit {0}))
    → Goes s r
    → ((t : XmmMux) → IsFine t → Goes t (next t))
    → Goes s (bind r (λ _. next))
Goes-bind s (ok a, t) next (fine, moved, _) k =
    let (fine', moved', ends) = k t fine in (fine', Moves-trans s t (next t).1 moved moved', ends)
Goes-bind s (err e, t) next h k = h

abbrev pub state : ℕ → List Bytes → List Bytes → List Bytes → List Bytes → XmmMux
state seq fp_in fp_out tun_in tun_out = record {
  seq = seq;
  fp_in = fp_in;
  fp_out = fp_out;
  tun_in = tun_in;
  tun_out = tun_out;
}

read_tun-Goes :
    (seq : ℕ) (fp_in fp_out tun_in tun_out : List Bytes)
    → let s = state seq fp_in fp_out tun_in tun_out in IsFine s → Goes s (read_tun s)
unfolding read_tun
read_tun-Goes seq fp_in fp_out [] tun_out fine = (fine, Moves-refl _, inr refl)
read_tun-Goes seq fp_in fp_out (p ∷ ps) tun_out ((small, smalls), readable) =
    let (frame, e, _) = read_mux-package_data seq p small in
    rw e (
      (smalls, readable),
      (record {
        packets = p ∷ [];
        frames = frame ∷ [];
        messages = [];
        delivered = [];
        tun_in = refl;
        fp_out = refl;
        sent = (e, refl);
        fp_in = refl;
        tun_out = sym (append-nil tun_out);
        read = refl;
      }),
      inl refl,
    )

deliver :
    (seq : ℕ) (frame : Bytes) (fp_in fp_out tun_in tun_out packets : List Bytes)
    → let s = state seq (frame ∷ fp_in) fp_out tun_in tun_out in
      read_mux (take 8192 frame) ≡ ok packets → IsFine s → Goes s (read_mux_callback s)
unfolding read_mux_callback
deliver seq frame fp_in fp_out tun_in tun_out packets e (small, (_, readable)) = rw e (
  (small, readable),
  (record {
    packets = [];
    frames = [];
    messages = frame ∷ [];
    delivered = packets;
    tun_in = refl;
    fp_out = sym (append-nil fp_out);
    sent = refl;
    fp_in = refl;
    tun_out = refl;
    read = (packets, [], e, sym (append-nil packets), refl);
  }),
  inl refl,
)

read_mux_callback-Goes :
    (seq : ℕ) (fp_in fp_out tun_in tun_out : List Bytes)
    → let s = state seq fp_in fp_out tun_in tun_out in IsFine s → Goes s (read_mux_callback s)
unfolding read_mux_callback
read_mux_callback-Goes seq [] fp_out tun_in tun_out fine = (fine, Moves-refl _, inr refl)
read_mux_callback-Goes seq (frame ∷ frames) fp_out tun_in tun_out fine =
    let (packets, e) = fine.1.0 in deliver seq frame frames fp_out tun_in tun_out packets e fine

callback-Goes : (e : Event) (s : XmmMux) → IsFine s → Goes s (callback e s)
unfolding callback
callback-Goes mux_readable s fine =
    read_mux_callback-Goes s.seq s.fp_in s.fp_out s.tun_in s.tun_out fine
callback-Goes tun_readable s fine = read_tun-Goes s.seq s.fp_in s.fp_out s.tun_in s.tun_out fine

dispatch-Goes : (events : List Event) (s : XmmMux) → IsFine s → Goes s (dispatch events s)
unfolding dispatch
dispatch-Goes [] s fine = (fine, Moves-refl s, inl refl)
dispatch-Goes (e ∷ events) s fine =
    Goes-bind s (callback e s) (dispatch events) (callback-Goes e s fine) (dispatch-Goes events)

abbrev Waits : XmmMux → Result (Unit {0}) × XmmMux → Type 0
Waits s r = (r.0 ≡ err blocked) × Moves s r.1

Waits-bind :
    (s : XmmMux) (r : Result (Unit {0}) × XmmMux) (next : Action XmmMux (Unit {0}))
    → Goes s r
    → ((t : XmmMux) → IsFine t → Waits t (next t))
    → Waits s (bind r (λ _. next))
Waits-bind s (ok a, t) next (fine, moved, _) k =
    let (waits, more) = k t fine in (waits, Moves-trans s t (next t).1 moved more)
Waits-bind s (err e, t) next (_, moved, inl h) k = cc
Waits-bind s (err e, t) next (_, moved, inr h) k = (h, moved)

-- Where the packets fit a frame and the messages can be read, the loop never raises: whatever is
-- readable when, it ends up waiting, and has moved packets and messages in their order.
pub serve-Moves :
    (rounds : List (List Event)) (s : XmmMux)
    → All IsSmall s.tun_in
    → All IsReadable s.fp_in
    → ((serve rounds s).0 ≡ err blocked) × Moves s (serve rounds s).1
unfolding serve
serve-Moves [] s small readable = (refl, Moves-refl s)
serve-Moves (events ∷ rounds) s small readable =
    Waits-bind s (dispatch events s) (serve rounds) (dispatch-Goes events s (small, readable))
      (λ t fine. serve-Moves rounds t fine.0 fine.1)
