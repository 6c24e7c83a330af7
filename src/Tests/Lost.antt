-- ===== src/Tests/Lost.antt =====
-- The answer to UtaModeSet and its confirmation in both orders.
use xmm7360_mvp.Prelude.{◌≡◌, refl, [], ◌∷◌, arith}
use xmm7360_mvp.Result.{ok, err, blocked, io}
use xmm7360_mvp.Bytes.{Bytes, le_bytes, be_bytes}
use xmm7360_mvp.Rpc.Take.{num, unpack_unknown}
use xmm7360_mvp.Rpc.Message.{response, unsolicited, handle_message}
use xmm7360_mvp.Rpc.Session.{uta_mode_set}
use xmm7360_mvp.Rpc.Session.Answered.{state}
use xmm7360_mvp.Rpc.Session.Lost.{Answers, Confirms, mode_request, uta_mode_set-Confirms}
use xmm7360_mvp.Tests.Modem.{message, n4}

abbrev accepts : Bytes
accepts = message 0x12f 0x11000100 (n4 0)

abbrev refuses : Bytes
refuses = message 0x12f 0x11000100 (n4 1)

abbrev confirms : Bytes
confirms = message 0x12d 0 (n4 1)

abbrev differs : Bytes
differs = message 0x12d 0 (n4 2)

accepts-Answers : Answers accepts 0
unfolding handle_message unpack_unknown le_bytes be_bytes
accepts-Answers = record {
  message = record {
    tid = 0x11000100;
    kind = response;
    code = 0x12f;
    body = n4 0;
    content = num 0 ∷ [];
  };
  handled = refl;
  is_kind = refl;
  more = [];
  fields = refl;
  body_fields = num 0 ∷ [];
  readable = refl;
}

refuses-Answers : Answers refuses 1
unfolding handle_message unpack_unknown le_bytes be_bytes
refuses-Answers = record {
  message = record {
    tid = 0x11000100;
    kind = response;
    code = 0x12f;
    body = n4 1;
    content = num 1 ∷ [];
  };
  handled = refl;
  is_kind = refl;
  more = [];
  fields = refl;
  body_fields = num 1 ∷ [];
  readable = refl;
}

confirms-Confirms : Confirms confirms 1
unfolding handle_message unpack_unknown le_bytes be_bytes
confirms-Confirms = record {
  carries = record {
    message = record {
      tid = 0;
      kind = unsolicited;
      code = 0x12d;
      body = n4 1;
      content = num 1 ∷ [];
    };
    handled = refl;
    is_kind = refl;
    more = [];
    fields = refl;
    body_fields = num 1 ∷ [];
    readable = refl;
  };
  callback = refl;
}

differs-Confirms : Confirms differs 2
unfolding handle_message unpack_unknown le_bytes be_bytes
differs-Confirms = record {
  carries = record {
    message = record {
      tid = 0;
      kind = unsolicited;
      code = 0x12d;
      body = n4 2;
      content = num 2 ∷ [];
    };
    handled = refl;
    is_kind = refl;
    more = [];
    fields = refl;
    body_fields = num 2 ∷ [];
    readable = refl;
  };
  callback = refl;
}

uta_mode_set-Confirms_example :
    let sent = mode_request 1 ∷ [] in
    (uta_mode_set 1 (state (accepts ∷ confirms ∷ []) [] (num 0)) ≡ (ok tt, state [] sent (num 0)))
    × (uta_mode_set 1 (state (accepts ∷ differs ∷ []) [] (num 0)) ≡ (err io, state [] sent (num 0)))
    × (uta_mode_set 1 (state (refuses ∷ []) [] (num 0)) ≡ (err io, state [] sent (num 0)))
    × (uta_mode_set 1 (state (confirms ∷ accepts ∷ []) [] (num 0))
        ≡ (err blocked, state [] sent (num 0)))
uta_mode_set-Confirms_example =
    uta_mode_set-Confirms 1 2 1 accepts refuses confirms differs [] [] (num 0) (omega arith)
      (omega arith) (omega arith) accepts-Answers refuses-Answers confirms-Confirms differs-Confirms
