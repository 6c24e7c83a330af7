-- ===== src/Rpc/Message/Ends.antt =====
-- About the fuel behind `execute`'s request, `handle_message` and `format_unknown`.
use xmm7360_mvp.Prelude.{ℕ, zero, suc, Bool, Option, none, some, List, [], ◌∷◌, lookup_name}
use xmm7360_mvp.Result.{key, from_option}
use xmm7360_mvp.Result.Ends.{Finishes, finish_rules}
use xmm7360_mvp.Bytes.Ends.{struct_rules}
use xmm7360_mvp.Bytes.{Bytes}
use xmm7360_mvp.Rpc.Take.{Field}
use xmm7360_mvp.Rpc.Take.Ends.{unpack_unknown-Ends}
use xmm7360_mvp.Rpc.Pack.Ends.{asn_int4-Ends}
use xmm7360_mvp.Rpc.CallIds.{call_ids}
use xmm7360_mvp.Rpc.Format.{format_unknown}
use xmm7360_mvp.Rpc.Message.{
  Command, name, number, command_code, request, tid_field, Response, field_at, classify,
  handle_message, handle_unsolicited,
}

pub field_at-Ends : (i : ℕ) (xs : List Field) → Finishes (field_at i xs)
unfolding field_at
field_at-Ends i [] = search finish_rules
field_at-Ends zero (x ∷ xs) = search finish_rules
field_at-Ends (suc i) (x ∷ xs) = field_at-Ends i xs

classify-Ends :
    (txid code : ℕ) (body : Bytes) (content : List Field)
    → Finishes (classify txid code body content)
unfolding classify
classify-Ends txid code body content = search (finish_rules, field_at-Ends) depth 8

pub handle_message-Ends : (message : Bytes) → Finishes (handle_message message)
unfolding handle_message
handle_message-Ends message = search (struct_rules, unpack_unknown-Ends, classify-Ends) depth 12

pub handle_unsolicited-Ends :
    (message : Response) (allowed : Field) → Finishes (handle_unsolicited message allowed)
unfolding handle_unsolicited
handle_unsolicited-Ends message allowed = search (finish_rules, field_at-Ends)

pub format_unknown-Ends : (body : Bytes) → Finishes (format_unknown body)
unfolding format_unknown
format_unknown-Ends body = search (finish_rules, unpack_unknown-Ends)

from_option-Ends : (o : Option ℕ) → Finishes (from_option o key)
from_option-Ends none = search finish_rules
from_option-Ends (some n) = search finish_rules

command_code-Ends : (cmd : Command) → Finishes (command_code cmd)
unfolding command_code
command_code-Ends (name s) = from_option-Ends (lookup_name s call_ids)
command_code-Ends (number n) = search finish_rules

tid_field-Ends : (is_async : Bool) → Finishes (tid_field is_async)
unfolding tid_field
tid_field-Ends is_async = search finish_rules

pub request-Ends :
    (cmd : Command) (body : Bytes) (is_async : Bool) → Finishes (request cmd body is_async)
unfolding request
request-Ends cmd body is_async =
    search (struct_rules, command_code-Ends, asn_int4-Ends, tid_field-Ends) depth 12
