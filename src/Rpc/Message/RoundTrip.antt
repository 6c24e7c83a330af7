-- ===== src/Rpc/Message/RoundTrip.antt =====
-- A request read back as a message.
use xmm7360_mvp.Prelude.{
  ℕ, ◌+◌, ◌^◌, ◌<◌, ◌≡◌, refl, ◌∙◌, Bool, true, false, List, [], ◌++◌, arith, length, ==_iff,
  if◌then◌else◌,
}
use xmm7360_mvp.Result.{ok}
use xmm7360_mvp.Bytes.{Bytes, le_bytes, be_bytes}
use xmm7360_mvp.Bytes.Laws.{pack_le-eq-ok, pack_be-eq-ok, from_be-be_bytes}
use xmm7360_mvp.Rpc.Take.{Field, unpack_unknown}
use xmm7360_mvp.Rpc.Take.Laws.{asn}
use xmm7360_mvp.Rpc.Take.Reads.{unpack_unknown-asn}
use xmm7360_mvp.Rpc.Pack.{asn_int4}
use xmm7360_mvp.Rpc.Message.{
  Command, command_code, async_tid, tid_word_of, tid_field, total_length_of, request, response,
  classify, handle_message,
}

abbrev tid_bytes : Bool → Bytes
tid_bytes is_async = if is_async then asn async_tid else []

-- The bytes of a request.
abbrev pub frame : Bool → ℕ → Bytes → Bytes
frame is_async code body =
    let total = total_length_of is_async body in
    (le_bytes 4 total
      ++ (asn total ++ (asn code ++ (be_bytes 4 (tid_word_of is_async) ++ tid_bytes is_async))))
    ++ body

asn_int4-eq-ok : (n : ℕ) → n < 256 ^ 4 → asn_int4 n ≡ ok (asn n)
unfolding asn_int4
asn_int4-eq-ok n h = rw (pack_be-eq-ok 4 n h)

-- A request whose length fits 32 bits is written, and its assertion on the lengths holds.
pub request-eq-frame :
    (cmd : Command) (code : ℕ) (body : Bytes) (is_async : Bool)
    → command_code cmd ≡ ok code
    → code < 256 ^ 4
    → length body + 22 < 256 ^ 4
    → request cmd body is_async ≡ ok (frame is_async code body)
unfolding request tid_field
request-eq-frame cmd code body true known hc hb =
    let total : length body + 16 + 6 < 256 ^ 4 = omega arith in
    rw (known, pack_le-eq-ok 4 _ total, asn_int4-eq-ok _ total, asn_int4-eq-ok code hc)
      (rw ((==_iff (length body + 16 + 6 + 4) (26 + length body)).1 (omega arith)) refl)
request-eq-frame cmd code body false known hc hb =
    let total : length body + 16 + 0 < 256 ^ 4 = omega arith in
    rw (known, pack_le-eq-ok 4 _ total, asn_int4-eq-ok _ total, asn_int4-eq-ok code hc)
      (rw ((==_iff (length body + 16 + 0 + 4) (20 + length body)).1 (omega arith)) refl)

-- The four header fields of a frame are read back, whatever follows them.
header_read :
    (total code word : ℕ) (rest : Bytes) {content : List Field}
    → total < 256 ^ 4
    → code < 256 ^ 4
    → word < 256 ^ 4
    → unpack_unknown rest ≡ ok content
    → handle_message (le_bytes 4 total ++ (asn total ++ (asn code ++ (be_bytes 4 word ++ rest))))
      ≡ classify word code rest content
unfolding handle_message le_bytes be_bytes
header_read total code word rest ht hc hw e =
    rw (from_be-be_bytes 4 code hc, from_be-be_bytes 4 word hw, e)

-- For a call whose number is below 2000, and a body that fits the length word and whose fields can
-- be read, `execute` has a request to write, and `handle_message` reads it as a response that carries
-- the call's number, the body and its fields: the identifier of an asynchronous request is taken
-- off again.
pub handle_message-request :
    (cmd : Command) (code : ℕ) (body : Bytes) (is_async : Bool) {content : List Field}
    → command_code cmd ≡ ok code
    → code < 2000
    → length body + 22 < 256 ^ 4
    → unpack_unknown body ≡ ok content
    → (out : Bytes) × (request cmd body is_async ≡ ok out)
      × (handle_message out
          ≡ ok (record {
            tid = tid_word_of is_async;
            kind = response;
            code = code;
            body = body;
            content = content;
          }))
unfolding le_bytes be_bytes classify
handle_message-request cmd code body true known hc hb e = (
  frame true code body,
  request-eq-frame cmd code body true known (omega arith) hb,
  header_read (length body + 16 + 6) code 0x11000101 (asn async_tid ++ body) (omega arith)
        (omega arith) (omega arith) (unpack_unknown-asn async_tid body (omega arith) e)
      ∙ ground arith,
)
handle_message-request cmd code body false known hc hb e = (
  frame false code body,
  request-eq-frame cmd code body false known (omega arith) hb,
  header_read (length body + 16 + 0) code 0x11000100 body (omega arith) (omega arith) (omega arith)
        e
      ∙ refl,
)
