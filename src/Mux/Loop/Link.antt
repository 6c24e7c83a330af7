-- ===== src/Mux/Loop/Link.antt =====
-- About two of these programs, of which the second reads what the first writes.
use mathlib.Core.Path.{subst}
use xmm7360_mvp.Prelude.{
  take, take_all, length, ◌≤◌, ℕ, ◌+◌, ◌%◌, ◌≡◌, ◌≢◌, ◌⊎◌, inl, inr, refl, ap, sym, ◌∙◌, arith,
  List, [], ◌∷◌, ◌++◌, map, replicate, codes, All, All-prefix, append_assoc,
}
use xmm7360_mvp.Result.{Result, ok, err, blocked}
use xmm7360_mvp.Bytes.{Bytes, le_bytes, same_bytes, starts_with}
use xmm7360_mvp.Mux.{
  package_data, read_mux, check_frame, open_command, append_tag, get_packet, bounds, pad_loop,
}
use xmm7360_mvp.Mux.Read.{
  read_mux-package_data, sent_frame, package_data-eq-sent_frame, length-sent_frame,
}
use xmm7360_mvp.Mux.Loop.{XmmMux, Event, serve, start, init, xmm_mux}
use xmm7360_mvp.Mux.Loop.Moves.{IsSmall, IsReadable, Sent, Delivered, Moves}
use xmm7360_mvp.Mux.Loop.Serve.{serve-Moves}

-- The command that opens the channel.
abbrev opening : Bytes
opening =
    codes "ACBH"
    ++ (0 ∷ 0 ∷ 0 ∷ 0 ∷ 44 ∷ 0 ∷ 0 ∷ 0 ∷ 16 ∷ 0 ∷ 0 ∷ 0 ∷ [])
    ++ (codes "CMDH" ++ (28 ∷ 0 ∷ 0 ∷ 0 ∷ 0 ∷ 0 ∷ 0 ∷ 0 ∷ 1 ∷ 0 ∷ 0 ∷ 0 ∷ replicate 12 0))

opened : XmmMux → XmmMux
opened s = record s { fp_out = s.fp_out ++ (opening ∷ []) }

start_lem : (s : XmmMux) → start s ≡ (ok tt, opened s)
unfolding start opened check_frame open_command append_tag get_packet bounds pad_loop le_bytes
    same_bytes
start_lem s = refl

init_lem : (rounds : List (List Event)) (s : XmmMux) → init rounds s ≡ serve rounds (opened s)
unfolding init
init_lem rounds s = rw (start_lem s) refl

init-Moves :
    (rounds : List (List Event)) (s : XmmMux)
    → All IsSmall s.tun_in
    → All IsReadable s.fp_in
    → ((init rounds s).0 ≡ err blocked) × Moves (opened s) (init rounds s).1
unfolding opened
init-Moves rounds s small readable =
    rw (init_lem rounds s) (serve-Moves rounds (opened s) small readable)

read_mux-opening : read_mux (take 8192 opening) ≡ ok []
unfolding read_mux starts_with
read_mux-opening = refl

-- What comes out at the other end for a packet.
abbrev pub behind_zeros : Bytes → Bytes
behind_zeros packet = replicate 16 0 ++ packet

-- A packet whose frame one read takes in whole.
abbrev pub IsCarried : Bytes → Type 0
IsCarried packet = length packet + 59 ≤ 8192

All-IsSmall : (ps : List Bytes) → All IsCarried ps → All IsSmall ps
All-IsSmall [] h = tt
All-IsSmall (p ∷ ps) (carried, h) = (omega arith, All-IsSmall ps h)

-- A frame of `package` is read as its packet.
frame_of_packet :
    (n k : ℕ) (p frame : Bytes)
    → IsCarried p
    → package_data n p ≡ (ok frame, k)
    → read_mux (take 8192 frame) ≡ ok (behind_zeros p ∷ [])
frame_of_packet n k p frame carried e =
    let (f, e', read) = read_mux-package_data n p (omega arith) in
    let first : f ≡ frame = cc (ap (λ (r : Result Bytes × ℕ). r.0) (sym e' ∙ e)) in
    let same : sent_frame n p ≡ frame = cc (
      ap (λ (r : Result Bytes × ℕ). r.0)
        (sym (package_data-eq-sent_frame n p (omega arith)) ∙ e)) in
    let whole : take 8192 frame ≡ frame =
      take_all 8192 frame (omega (arith, length-sent_frame n p, ap length same)) in
    rw whole (rw first at read)

Sent-IsReadable :
    (n m : ℕ) (ps fs : List Bytes) → Sent n ps fs m → All IsCarried ps → All IsReadable fs
Sent-IsReadable n m [] [] e small = tt
Sent-IsReadable n m [] (f ∷ fs) e small = absurd e
Sent-IsReadable n m (p ∷ ps) [] e small = absurd e
Sent-IsReadable n m (p ∷ ps) (f ∷ fs) (e, more) (small, smalls) = (
  (behind_zeros p ∷ [], frame_of_packet n ((n + 1) % 256) p f small e),
  Sent-IsReadable ((n + 1) % 256) m ps fs more smalls,
)

-- The packets that came out, those in transit, and nothing in transit once all was read.
abbrev Arrived : List Bytes → List Bytes → List Bytes → Type 0
Arrived ps outs rest =
    (received transit : List Bytes) × (ps ≡ received ++ transit)
    × (outs ≡ map behind_zeros received)
    × (rest ≡ [] → transit ≡ [])

Sent-Arrived :
    (n m : ℕ) (ps fs got rest outs : List Bytes)
    → Sent n ps fs m
    → All IsCarried ps
    → fs ≡ got ++ rest
    → Delivered got outs
    → Arrived ps outs rest
Sent-Arrived n m [] [] [] rest outs sent small e h = ([], [], refl, h, λ _. refl)
Sent-Arrived n m [] (f ∷ fs) got rest outs sent small e h = absurd sent
Sent-Arrived n m (p ∷ ps) [] got rest outs sent small e h = absurd sent
Sent-Arrived n m [] [] (g ∷ got) rest outs sent small e h = cc e
Sent-Arrived n m (p ∷ ps) (f ∷ fs) [] rest outs sent small e h =
    ([], p ∷ ps, refl, h, λ empty. cc (e, empty))
Sent-Arrived n m (p ∷ ps) (f ∷ fs) (g ∷ got) rest outs (sent, more) (small, smalls) e
      (packets, later, read, out, h) =
    let same : f ≡ g = cc e in
    let (received, transit, split, arrived, done) =
      Sent-Arrived ((n + 1) % 256) m ps fs got rest later more smalls (cc e) h in
    let one : packets ≡ behind_zeros p ∷ [] =
      cc (same, read, frame_of_packet n ((n + 1) % 256) p f small sent) in
    (
      p ∷ received,
      transit,
      ap (λ xs. p ∷ xs) split,
      out ∙ ap (λ xs. xs ++ later) one ∙ ap (λ xs. behind_zeros p ∷ xs) arrived,
      done,
    )

-- The same with the opening command in front.
opening-Arrived :
    (n m : ℕ) (ps fs got rest outs : List Bytes)
    → Sent n ps fs m
    → All IsCarried ps
    → opening ∷ fs ≡ got ++ rest
    → Delivered got outs
    → Arrived ps outs rest
opening-Arrived n m ps fs [] rest outs sent small e h = ([], ps, refl, h, λ empty. cc (e, empty))
opening-Arrived n m ps fs (g ∷ got) rest outs sent small e (packets, later, read, out, h) =
    let same : opening ≡ g = cc e in
    let nothing : packets ≡ [] = cc (same, read, read_mux-opening) in
    let (received, transit, split, arrived, done) =
      Sent-Arrived n m ps fs got rest later sent small (cc e) h in
    (received, transit, split, out ∙ ap (λ xs. xs ++ later) nothing ∙ arrived, done)

drained : (fs transit : List Bytes) → (fs ≡ [] → transit ≡ []) → (transit ≡ []) ⊎ (fs ≢ [])
drained [] transit h = inl (h refl)
drained (f ∷ fs) transit h = inr (λ e. cc)

-- Two programs, of which the second reads what the first writes. Where one read takes in the frame of
-- each packet of the first's tunnel, those of the second's tunnel fit a frame, and the first can read
-- what it gets, neither ever raises, whatever is readable when: both end up waiting. What came out of
-- the second's tunnel is then the first packets that the first's tunnel held, each behind sixteen
-- zeros, in their order; the others are in transit or have not been read yet, and none is in transit
-- once the second has read all that was written.
pub init-Link :
    (ps qs messages : List Bytes) (rounds rounds' : List (List Event))
    → All IsCarried ps
    → All IsSmall qs
    → All IsReadable messages
    → let near = init rounds (xmm_mux messages ps) in
      let far = init rounds' (xmm_mux near.1.fp_out qs) in
      (near.0 ≡ err blocked)
      × (far.0 ≡ err blocked)
      × (received transit : List Bytes) × (ps ≡ received ++ (transit ++ near.1.tun_in))
      × (far.1.tun_out ≡ map behind_zeros received)
      × ((transit ≡ []) ⊎ (far.1.fp_in ≢ []))
unfolding opened
init-Link ps qs messages rounds rounds' small small' readable =
    let near = init rounds (xmm_mux messages ps) in
    let far = init rounds' (xmm_mux near.1.fp_out qs) in
    let (waits, moved) = init-Moves rounds (xmm_mux messages ps) (All-IsSmall ps small) readable in
    let smalls : All IsCarried moved.packets =
      All-prefix IsCarried moved.packets near.1.tun_in (subst (All IsCarried) moved.tun_in small) in
    let readable' : All IsReadable near.1.fp_out = subst (All IsReadable) (sym moved.fp_out) (
      ([], read_mux-opening),
      Sent-IsReadable 0 near.1.seq moved.packets moved.frames moved.sent smalls,
    ) in
    let (waits', moved') = init-Moves rounds' (xmm_mux near.1.fp_out qs) small' readable' in
    let (received, transit, split, arrived, done) =
      opening-Arrived 0 near.1.seq moved.packets moved.frames moved'.messages far.1.fp_in
        moved'.delivered moved.sent smalls (sym moved.fp_out ∙ moved'.fp_in) moved'.read in
    (
      waits,
      waits',
      received,
      transit,
      moved.tun_in
          ∙ ap (λ xs. xs ++ near.1.tun_in) split
          ∙ append_assoc received transit near.1.tun_in,
      moved'.tun_out ∙ arrived,
      drained far.1.fp_in transit done,
    )
