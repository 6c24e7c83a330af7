-- ===== src/Rpc/Take/Reads.antt =====
-- Pieces of input that one round of `unpack_unknown` reads, and its loop over them.
use xmm7360_mvp.Prelude.{
  ℕ, zero, suc, ◌^◌, ◌≤◌, ◌<◌, ◌≡◌, refl, ap, List, [], ◌∷◌, ◌++◌, arith, length, length-append,
}
use xmm7360_mvp.Result.{ok, bind_returned}
use xmm7360_mvp.Bytes.{Bytes}
use xmm7360_mvp.Rpc.Take.{Field, num, take_field, unknown_loop, unpack_unknown}
use xmm7360_mvp.Rpc.Take.Laws.{asn, take_asn_int-be_bytes}

-- The round of `unpack_unknown` on an input that is not empty.
abbrev pub Reads : Bytes → Field → Type 0
Reads piece field =
    (t : ℕ) × (tail : Bytes) × (piece ≡ t ∷ tail)
    × ((rest : Bytes) → take_field t (t ∷ (tail ++ rest)) ≡ ok (field, rest))

-- The decoder's loop reads one piece and goes on behind it.
pub unknown_loop-Reads :
    (fuel : ℕ) (piece more : Bytes) {field : Field} {fields : List Field}
    → Reads piece field
    → ((f : ℕ) → length more ≤ f → unknown_loop f more ≡ ok fields)
    → length (piece ++ more) ≤ fuel
    → unknown_loop fuel (piece ++ more) ≡ ok (field ∷ fields)
unfolding unknown_loop
unknown_loop-Reads zero piece more (t, tail, e, reads) ih h =
    absurd (omega (arith, ap length e, length-append piece more))
unknown_loop-Reads (suc f) piece more (t, tail, e, reads) ih h =
    rw e (rw (reads more) (rw (ih f (omega (arith, ap length e, length-append piece more))) refl))

pub unknown_loop-nil : (f : ℕ) → unknown_loop f [] ≡ ok []
unfolding unknown_loop
unknown_loop-nil f = refl

-- More fuel changes nothing.
pub unknown_loop_fuel :
    (f g : ℕ) (bs : Bytes) {out : List Field}
    → f ≤ g
    → unknown_loop f bs ≡ ok out
    → unknown_loop g bs ≡ ok out
unfolding unknown_loop
unknown_loop_fuel f g [] h e = e
unknown_loop_fuel zero g (t ∷ bs) h e = cc
unknown_loop_fuel (suc f) zero (t ∷ bs) h e = absurd (omega arith)
unknown_loop_fuel (suc f) (suc g) (t ∷ bs) h e =
    let (x, first, e₁) = bind_returned (take_field t (t ∷ bs)) _ e in
    let (xs, others, e₂) = bind_returned (unknown_loop f x.1) _ e₁ in
    rw first (rw (unknown_loop_fuel f g x.1 (omega arith) others) e₂)

-- An int of four bytes in front of a body.
pub unpack_unknown-asn :
    (n : ℕ) (body : Bytes) {content : List Field}
    → n < 256 ^ 4
    → unpack_unknown body ≡ ok content
    → unpack_unknown (asn n ++ body) ≡ ok (num n ∷ content)
unfolding unpack_unknown
unpack_unknown-asn n body {content} h e =
    unknown_loop-Reads (length (asn n ++ body)) (asn n) body asn-Reads
      (λ f hf. unknown_loop_fuel (length body) f body hf e) (omega arith)
  where
    asn-Reads : Reads (asn n) (num n)
    asn-Reads =
        (0x02, _, refl, λ rest. unfold take_field in rw (take_asn_int-be_bytes 4 n rest h) refl)
