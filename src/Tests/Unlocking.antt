-- ===== src/Tests/Unlocking.antt =====
-- Modems that answer `do_fcc_unlock`, and the theorem on them.
use xmm7360_mvp.Prelude.{ℕ, ◌≡◌, refl, List, [], ◌∷◌, ◌++◌, arith}
use xmm7360_mvp.Result.{ok}
use xmm7360_mvp.Bytes.{Bytes, be_bytes, le_bytes}
use xmm7360_mvp.Rpc.Take.{num, unpack_unknown}
use xmm7360_mvp.Rpc.Message.{response, handle_message}
use xmm7360_mvp.Rpc.Session.Answered.{IsAnswer, state}
use xmm7360_mvp.Rpc.Fcc.{keys, do_fcc_unlock}
use xmm7360_mvp.Rpc.Fcc.Attempts.{IsDigest, query_frame, challenge_frame, attempt_frame}
use xmm7360_mvp.Rpc.Fcc.Answered.{Exchange, locked, one_accepted, do_fcc_unlock-Exchange}
use xmm7360_mvp.Tests.Modem.{message, n4, sevens}

sevens-IsDigest : IsDigest sevens
sevens-IsDigest bs = (refl, ground arith)

-- Mode 1, state 0.
abbrev in_force : Bytes
in_force = message 0x18e 0x11000100 (n4 0 ++ (n4 0 ++ n4 1))

abbrev challenge : Bytes
challenge = message 0x190 0x11000100 (n4 0 ++ n4 0x12345678)

-- An attempt that is answered with the number given.
abbrev judged : ℕ → Bytes
judged n = message 0x192 0x11000100 (n4 n)

in_force-IsAnswer : IsAnswer in_force (num 0 ∷ num 0 ∷ num 1 ∷ [])
unfolding handle_message unpack_unknown be_bytes le_bytes
in_force-IsAnswer = record {
  answer = record {
    tid = 0x11000100;
    kind = response;
    code = 0x18e;
    body = n4 0 ++ (n4 0 ++ n4 1);
    content = num 0 ∷ num 0 ∷ num 1 ∷ [];
  };
  handled = refl;
  kind = refl;
  read = refl;
}

challenge-IsAnswer : IsAnswer challenge (num 0 ∷ num 0x12345678 ∷ [])
unfolding handle_message unpack_unknown be_bytes le_bytes
challenge-IsAnswer = record {
  answer = record {
    tid = 0x11000100;
    kind = response;
    code = 0x190;
    body = n4 0 ++ n4 0x12345678;
    content = num 0 ∷ num 0x12345678 ∷ [];
  };
  handled = refl;
  kind = refl;
  read = refl;
}

refusal-IsAnswer : IsAnswer (judged 0) (num 0 ∷ [])
unfolding handle_message unpack_unknown be_bytes le_bytes
refusal-IsAnswer = record {
  answer = record {
    tid = 0x11000100;
    kind = response;
    code = 0x192;
    body = n4 0;
    content = num 0 ∷ [];
  };
  handled = refl;
  kind = refl;
  read = refl;
}

acceptance-IsAnswer : IsAnswer (judged 1) (num 1 ∷ [])
unfolding handle_message unpack_unknown be_bytes le_bytes
acceptance-IsAnswer = record {
  answer = record {
    tid = 0x11000100;
    kind = response;
    code = 0x192;
    body = n4 1;
    content = num 1 ∷ [];
  };
  handled = refl;
  kind = refl;
  read = refl;
}

abbrev challenge_number : ℕ
challenge_number = 0x12345678

abbrev answers : List Bytes
answers = in_force ∷ challenge ∷ judged 0 ∷ judged 1 ∷ []

abbrev written : List Bytes
written =
    query_frame
    ∷ challenge_frame
    ∷ attempt_frame sevens challenge_number (0x3d ∷ 0xf8 ∷ 0xc7 ∷ 0x19 ∷ [])
    ∷ attempt_frame sevens challenge_number (0x00 ∷ 0x00 ∷ 0x00 ∷ 0x00 ∷ [])
    ∷ []

-- The first key is refused and the second accepted.
second_key : Exchange sevens answers written (ok tt)
second_key =
    locked in_force challenge 0 0 1 challenge_number (judged 0 ∷ judged 1 ∷ []) keys (ok tt)
      in_force-IsAnswer (λ e. cc e) challenge-IsAnswer (omega arith)
      (one_accepted (judged 0 ∷ []) (judged 1) ((0x3d ∷ 0xf8 ∷ 0xc7 ∷ 0x19 ∷ []) ∷ [])
        (0x00 ∷ 0x00 ∷ 0x00 ∷ 0x00 ∷ []) [] refl refl ((0, (λ e. cc e), refusal-IsAnswer), tt)
        acceptance-IsAnswer)

-- A message more, which is not read.
do_fcc_unlock-Exchange_example :
    do_fcc_unlock sevens (state (answers ++ (judged 0 ∷ [])) [] (num 0))
    ≡ (ok tt, state (judged 0 ∷ []) written (num 0))
do_fcc_unlock-Exchange_example =
    do_fcc_unlock-Exchange sevens sevens-IsDigest answers written (ok tt) (judged 0 ∷ []) [] (num 0)
      second_key
