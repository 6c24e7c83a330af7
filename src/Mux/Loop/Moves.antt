-- ===== src/Mux/Loop/Moves.antt =====
-- About what the loop has moved between the two files, whatever is readable when.
use xmm7360_mvp.Prelude.{
  take, ℕ, ◌+◌, ◌%◌, ◌<◌, ◌≡◌, refl, ap, sym, ◌∙◌, List, [], ◌∷◌, ◌++◌, append-nil, append_assoc,
  length,
}
use xmm7360_mvp.Result.{ok}
use xmm7360_mvp.Bytes.{Bytes}
use xmm7360_mvp.Mux.{package_data, read_mux}
use xmm7360_mvp.Mux.Loop.{XmmMux}

-- A packet that fits a frame, and a message that can be read.
abbrev pub IsSmall : Bytes → Type 0
IsSmall packet = length packet + 32 < 65536

abbrev pub IsReadable : Bytes → Type 0
IsReadable frame = (packets : List Bytes) × (read_mux (take 8192 frame) ≡ ok packets)

-- The frames of the packets one after another, from a sequence number to another.
abbrev pub Sent : ℕ → List Bytes → List Bytes → ℕ → Type 0
Sent n [] [] m = n ≡ m
Sent n [] (f ∷ fs) m = ⊥
Sent n (p ∷ ps) [] m = ⊥
Sent n (p ∷ ps) (f ∷ fs) m =
    (package_data n p ≡ (ok f, (n + 1) % 256)) × Sent ((n + 1) % 256) ps fs m

-- The packets of the frames one after another.
abbrev pub Delivered : List Bytes → List Bytes → Type 0
Delivered [] outs = outs ≡ []
Delivered (f ∷ fs) outs =
    (packets later : List Bytes) × (read_mux (take 8192 f) ≡ ok packets)
    × (outs ≡ packets ++ later)
    × Delivered fs later

-- From one state of the object to a later one: the first packets of the tunnel went to the device,
-- each in a frame of its own with the next sequence number, and the packets of the first messages of
-- the device went to the tunnel, all in their order.
pub record Moves (s t : XmmMux) : Type 0 where
  pub packets : List Bytes
  pub frames : List Bytes
  pub messages : List Bytes
  pub delivered : List Bytes
  pub tun_in : s.tun_in ≡ packets ++ t.tun_in
  pub fp_out : t.fp_out ≡ s.fp_out ++ frames
  pub sent : Sent s.seq packets frames t.seq
  pub fp_in : s.fp_in ≡ messages ++ t.fp_in
  pub tun_out : t.tun_out ≡ s.tun_out ++ delivered
  pub read : Delivered messages delivered

Sent-append :
    (n m k : ℕ) (ps qs fs gs : List Bytes)
    → Sent n ps fs m
    → Sent m qs gs k
    → Sent n (ps ++ qs) (fs ++ gs) k
Sent-append n m k [] qs [] gs e h = rw e h
Sent-append n m k [] qs (f ∷ fs) gs e h = absurd e
Sent-append n m k (p ∷ ps) qs [] gs e h = absurd e
Sent-append n m k (p ∷ ps) qs (f ∷ fs) gs (e, more) h =
    (e, Sent-append ((n + 1) % 256) m k ps qs fs gs more h)

Delivered-append :
    (fs gs xs ys : List Bytes) → Delivered fs xs → Delivered gs ys → Delivered (fs ++ gs) (xs ++ ys)
Delivered-append [] gs xs ys e h = rw e h
Delivered-append (f ∷ fs) gs xs ys (packets, later, read, e, more) h = (
  packets,
  later ++ ys,
  read,
  ap (λ zs. zs ++ ys) e ∙ append_assoc packets later ys,
  Delivered-append fs gs later ys more h,
)

pub Moves-refl : (s : XmmMux) → Moves s s
Moves-refl s = record {
  packets = [];
  frames = [];
  messages = [];
  delivered = [];
  tun_in = refl;
  fp_out = sym (append-nil s.fp_out);
  sent = refl;
  fp_in = refl;
  tun_out = sym (append-nil s.tun_out);
  read = refl;
}

-- What is taken from the front, or put at the back, twice.
from_front :
    {xs ys : List Bytes} (zs ps qs : List Bytes)
    → xs ≡ ps ++ ys
    → ys ≡ qs ++ zs
    → xs ≡ (ps ++ qs) ++ zs
from_front zs ps qs e f = e ∙ ap (λ ws. ps ++ ws) f ∙ sym (append_assoc ps qs zs)

at_back :
    {ys zs : List Bytes} (xs ps qs : List Bytes)
    → ys ≡ xs ++ ps
    → zs ≡ ys ++ qs
    → zs ≡ xs ++ (ps ++ qs)
at_back xs ps qs e f = f ∙ ap (λ ws. ws ++ qs) e ∙ append_assoc xs ps qs

pub Moves-trans : (s t u : XmmMux) → Moves s t → Moves t u → Moves s u
Moves-trans s t u a b = record {
  packets = a.packets ++ b.packets;
  frames = a.frames ++ b.frames;
  messages = a.messages ++ b.messages;
  delivered = a.delivered ++ b.delivered;
  tun_in = from_front u.tun_in a.packets b.packets a.tun_in b.tun_in;
  fp_out = at_back s.fp_out a.frames b.frames a.fp_out b.fp_out;
  sent = Sent-append s.seq t.seq u.seq a.packets b.packets a.frames b.frames a.sent b.sent;
  fp_in = from_front u.fp_in a.messages b.messages a.fp_in b.fp_in;
  tun_out = at_back s.tun_out a.delivered b.delivered a.tun_out b.tun_out;
  read = Delivered-append a.messages b.messages a.delivered b.delivered a.read b.read;
}
