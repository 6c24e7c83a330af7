-- ===== src/Rpc/Message/Types.antt =====
-- About the form of the messages that `execute` writes.
use xmm7360_mvp.Prelude.{
  ℕ, ◌+◌, ◌^◌, ◌<◌, ◌≡◌, refl, ap, ◌∙◌, Bool, ◌==◌, ==_iff, ltb, ltb→lt, List, ◌++◌, append_assoc,
  arith, length, length-append, take,
}
use xmm7360_mvp.Result.{
  assertion, struct, ◌>>=◌, Ensures, returned, Ensures-check, Ensures-bind, Ensures-after,
  Ensures-if,
}
use xmm7360_mvp.Bytes.{Bytes, le_bytes, from_le, pack_le}
use xmm7360_mvp.Bytes.Laws.{le_bytes-IsByte, from_le-le_bytes}
use xmm7360_mvp.Rpc.Pack.{Arg, pack}
use xmm7360_mvp.Rpc.Pack.Types.{AreBytes, both, pack-IsByte, pack_be-IsByte, asn_int4-IsByte}
use xmm7360_mvp.Rpc.Message.{
  Command, command_code, async_tid, tid_word_of, tid_field, total_length_of, request,
}

-- Bytes, of which the first four are the number of those behind them.
abbrev pub IsMessage : Bytes → Type 0
IsMessage frame = AreBytes frame × (from_le (take 4 frame) + 4 ≡ length frame)

pack_le-le_bytes : (w n : ℕ) → Ensures (λ b. (b ≡ le_bytes w n) × (n < 256 ^ w)) (pack_le w n)
unfolding pack_le
pack_le-le_bytes w n =
    Ensures-check (ltb n (256 ^ w)) struct (λ small. returned (refl, ltb→lt n (256 ^ w) small))

tid_field-IsByte : (is_async : Bool) → Ensures AreBytes (tid_field is_async)
unfolding tid_field
tid_field-IsByte is_async = Ensures-if is_async (λ _. asn_int4-IsByte async_tid) (λ _. returned tt)

measured :
    (total : ℕ) (first rest body : Bytes)
    → first ≡ le_bytes 4 total
    → total < 256 ^ 4
    → total + 4 ≡ length (first ++ rest) + length body
    → from_le (take 4 ((first ++ rest) ++ body)) + 4 ≡ length ((first ++ rest) ++ body)
measured total first rest body e small size =
    let cut : take 4 (le_bytes 4 total ++ (rest ++ body)) ≡ le_bytes 4 total =
      unfold le_bytes in refl in
    let front : from_le (take 4 ((first ++ rest) ++ body)) ≡ total =
      ap (λ (bs : Bytes). from_le (take 4 bs))
        (append_assoc first rest body ∙ ap (λ (bs : Bytes). bs ++ (rest ++ body)) e)
      ∙ ap from_le cut
      ∙ from_le-le_bytes 4 total small in
    omega (arith, front, size, length-append (first ++ rest) body)

request-IsMessage :
    (cmd : Command) (body : Bytes) (is_async : Bool)
    → AreBytes body
    → Ensures IsMessage (request cmd body is_async)
unfolding request
request-IsMessage cmd body is_async hb = Ensures-after (command_code cmd) λ code.
    let total = total_length_of is_async body in
    Ensures-bind (pack_le-le_bytes 4 total) λ first (same, small).
      Ensures-bind (asn_int4-IsByte total) λ len hl. Ensures-bind (asn_int4-IsByte code) λ field hc.
        Ensures-bind (pack_be-IsByte 4 (tid_word_of is_async)) λ word hw.
          Ensures-bind (tid_field-IsByte is_async) λ tid ht.
            let rest = len ++ (field ++ (word ++ tid)) in
            Ensures-check (total + 4 == length (first ++ rest) + length body) assertion λ size.
              returned (
                both (first ++ rest) body
                    (both first rest (rw same (le_bytes-IsByte 4 total)) (
                      both len (field ++ (word ++ tid)) hl
                        (both field (word ++ tid) hc (both word tid hw ht))))
                    hb,
                measured total first rest body same small
                    ((==_iff (total + 4) (length (first ++ rest) + length body)).0 size),
              )

-- Whatever a call’s body is packed of: if it can be packed and the request for the call can be made,
-- the message that is written is a string of bytes and begins with the number of those that follow.
pub request-pack-IsMessage :
    (fmt : List ℕ) (args : List Arg) (cmd : Command) (is_async : Bool)
    → Ensures IsMessage (pack fmt args >>= λ body. request cmd body is_async)
request-pack-IsMessage fmt args cmd is_async =
    Ensures-bind (pack-IsByte fmt args) λ body h. request-IsMessage cmd body is_async h
