-- ===== src/Rpc/Message.antt =====
-- The messages of XMMRPC: the request that `execute` writes, `handle_message` and
-- `handle_unsolicited` on what is read.
pub mod RoundTrip
pub mod Types
pub mod Ends
use xmm7360_mvp.Prelude.{
  ℕ, zero, suc, ◌+◌, ◌*◌, ◌/◌, ◌%◌, ◌^◌, ◌==◌, bit_and, bit_or, String, Bool, true, false, not,
  ◌&&◌, Option, none, some, List, [], ◌∷◌, ◌++◌, take, drop, leb, length, text_eq, lookup_code,
  lookup_name, if◌then◌else◌,
}
use xmm7360_mvp.Result.{
  Result, ok, err, ◌>>=◌, ◌>>◌, check, from_option, assertion, index, key, value,
}
use xmm7360_mvp.Bytes.{Bytes, pack_le, pack_be, unpack_le, unpack_be, starts_with}
use xmm7360_mvp.Rpc.Take.{Field, num, str, unpack_unknown}
use xmm7360_mvp.Rpc.Pack.{asn_int4}
use xmm7360_mvp.Rpc.CallIds.{call_ids}
use xmm7360_mvp.Rpc.UnsolTable.{xmm7360_unsol}

-- `cmd` is the name of a call or its number.
pub data Command : Type 0 where
  name : String → Command
  number : ℕ → Command

unfoldable pub command_code : Command → Result ℕ
unfolding lookup_name
command_code (name s) = from_option (lookup_name s call_ids) key
command_code (number n) = ok n

abbrev pub async_tid : ℕ
async_tid = 0x11000101

-- `tid = 0x11000101 if is_async else 0`, and `0x11000100 | tid`.
abbrev pub tid_of : Bool → ℕ
tid_of is_async = if is_async then async_tid else 0

abbrev pub tid_word_of : Bool → ℕ
tid_word_of is_async = bit_or 0x11000100 (tid_of is_async)

-- `if tid: header += asn_int4(tid)`
unfoldable pub tid_field : Bool → Result Bytes
unfolding asn_int4
tid_field is_async = if is_async then asn_int4 async_tid else ok []

abbrev pub total_length_of : Bool → Bytes → ℕ
total_length_of is_async body = length body + 16 + (if is_async then 6 else 0)

-- `header + body` of `execute`.
unfoldable pub request : Command → Bytes → Bool → Result Bytes
unfolding command_code asn_int4 pack_le pack_be tid_field
request cmd body is_async = do
  code ← command_code cmd
  let total_length = total_length_of is_async body
  length_le ← pack_le 4 total_length
  length_be ← asn_int4 total_length
  code_field ← asn_int4 code
  word ← pack_be 4 (tid_word_of is_async)
  tid ← tid_field is_async
  let header = length_le ++ (length_be ++ (code_field ++ (word ++ tid)))
  check (total_length + 4 == length header + length body) assertion
  ok (header ++ body)

pub data Kind : Type 0 where
  response async_ack unsolicited : Kind

abbrev pub is_response : Kind → Bool
is_response response = true
is_response _ = false

pub record Response : Type 0 where
  pub tid : ℕ
  pub kind : Kind
  pub code : ℕ
  pub body : Bytes
  pub content : List Field

-- `content[i]`
unfoldable pub field_at : ℕ → List Field → Result Field
field_at i [] = err index
field_at zero (x ∷ xs) = ok x
field_at (suc i) (x ∷ xs) = field_at i xs

abbrev pub is_num : ℕ → Field → Bool
is_num n (num m) = m == n
is_num n (str s) = false

-- What `handle_message` makes of the transaction id.
unfoldable pub classify : ℕ → ℕ → Bytes → List Field → Result Response
unfolding field_at
classify txid code body content =
    if txid == 0x11000100
    then ok (record { tid = txid; kind = response; code = code; body = body; content = content })
    else if bit_and txid 0xffffff00 == 0x11000100
    then (if leb 2000 code
        then ok
            (record { tid = txid; kind = async_ack; code = code; body = body; content = content })
        else (do
          first ← field_at 0 content
          check (is_num txid first) assertion
          ok (record {
            tid = txid;
            kind = response;
            code = code;
            body = drop 6 body;
            content = drop 1 content;
          })))
    else ok (record { tid = txid; kind = unsolicited; code = code; body = body; content = content })

-- A framing error, `l0 != l1`, is only printed.
unfoldable pub handle_message : Bytes → Result Response
unfolding classify unpack_le unpack_be starts_with
handle_message message = do
  let len1_p = take 6 (drop 4 message)
  let code_p = take 6 (drop 10 message)
  let body = drop 20 message
  check (starts_with (0x02 ∷ 0x04 ∷ []) len1_p) assertion
  check (starts_with (0x02 ∷ 0x04 ∷ []) code_p) assertion
  l0 ← unpack_le 4 (take 4 message)
  l1 ← unpack_be 4 (drop 2 len1_p)
  code ← unpack_be 4 (drop 2 code_p)
  txid ← unpack_be 4 (take 4 (drop 16 message))
  content ← unpack_unknown body
  classify txid code body content

-- `xmm7360_unsol.get(code, None) == name`
unfoldable pub unsol_is : String → ℕ → Bool
unfolding lookup_code
unsol_is s code = elim (lookup_code code xmm7360_unsol) [ none ↦ false | some t ↦ text_eq t s ]

-- The new value of `attach_allowed`.
unfoldable pub handle_unsolicited : Response → Field → Result Field
unfolding unsol_is field_at
handle_unsolicited message attach_allowed =
    if unsol_is "UtaMsNetIsAttachAllowedIndCb" message.code
    then field_at 2 message.content
    else ok attach_allowed
