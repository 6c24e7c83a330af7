-- ===== src/Rpc/Fcc/Attempts.antt =====
-- The requests of `do_fcc_unlock`, each on a modem that answers with the next message.
use xmm7360_mvp.Prelude.{
  ℕ, ◌==◌, ==_iff, ◌^◌, ◌<◌, ◌≡◌, ◌≢◌, refl, sym, ◌∙◌, true, false, List, [], ◌∷◌, ◌++◌,
  append_assoc, append-nil, map, take, drop, take-append-drop, length-take, length, All, All-prefix,
  codes, arith,
}
use xmm7360_mvp.Result.{ok}
use native.Mathlib.Nat.{pow-suc}
use mathlib.Core.Path.{subst}
use xmm7360_mvp.Bytes.{Bytes, IsByte, le_bytes, be_bytes, from_le, unpack_le}
use xmm7360_mvp.Bytes.Laws.{pack_be-eq-ok}
use xmm7360_mvp.Rpc.Take.{Field, num}
use xmm7360_mvp.Rpc.Take.Laws.{asn}
use xmm7360_mvp.Rpc.Take.Agree.{unpack-unpack_unknown}
use xmm7360_mvp.Rpc.Pack.{asn_int4, int, pack, pack_loop, pack_int}
use xmm7360_mvp.Rpc.Pack.Types.{AreBytes}
use xmm7360_mvp.Rpc.CallIds.{call_ids}
use xmm7360_mvp.Rpc.Message.{name, request, command_code, field_at}
use xmm7360_mvp.Rpc.Message.RoundTrip.{frame, request-eq-frame}
use xmm7360_mvp.Rpc.Session.{execute_default}
use xmm7360_mvp.Rpc.Session.Answered.{IsAnswer, state, execute-IsAnswer}
use xmm7360_mvp.Rpc.Fcc.{answer, try_key, try_keys}

-- The answer to an attempt: the first key that is answered with 1 is the right one.
abbrev pub Accepts : Bytes → Type 0
Accepts m = IsAnswer m (num 1 ∷ [])

abbrev pub Refuses : Bytes → Type 0
Refuses m = (n : ℕ) × (n ≢ 1) × IsAnswer m (num n ∷ [])

-- The requests of the query and of the challenge.
abbrev pub query_frame : Bytes
query_frame = frame true 0x18e (asn 0)

abbrev pub challenge_frame : Bytes
challenge_frame = frame true 0x190 (asn 0)

default_requested :
    (code : ℕ) (cmd : _)
    → command_code cmd ≡ ok code
    → code < 2000
    → request cmd (asn 0) true ≡ ok (frame true code (asn 0))
unfolding be_bytes
default_requested code cmd known small =
    request-eq-frame cmd code (asn 0) true known (omega arith) (omega arith)

query_code : command_code (name "CsiFccLockQueryReq") ≡ ok 0x18e
unfolding command_code call_ids
query_code = refl

challenge_code : command_code (name "CsiFccLockGenChallengeReq") ≡ ok 0x190
unfolding command_code call_ids
challenge_code = refl

verify_code : command_code (name "CsiFccLockVerChallengeReq") ≡ ok 0x192
unfolding command_code call_ids
verify_code = refl

pub queried :
    (m : Bytes) (rest outbox : List Bytes) (allowed : Field) {fields : List Field}
    → (is : IsAnswer m fields)
    → execute_default "CsiFccLockQueryReq" true (state (m ∷ rest) outbox allowed)
      ≡ (ok is.answer, state rest (outbox ++ (query_frame ∷ [])) allowed)
unfolding execute_default asn_int4 be_bytes
queried m rest outbox allowed is =
    execute-IsAnswer (name "CsiFccLockQueryReq") (asn 0) true query_frame m rest outbox allowed
      (default_requested 0x18e (name "CsiFccLockQueryReq") query_code (omega arith)) is

pub challenged :
    (m : Bytes) (rest outbox : List Bytes) (allowed : Field) {fields : List Field}
    → (is : IsAnswer m fields)
    → execute_default "CsiFccLockGenChallengeReq" true (state (m ∷ rest) outbox allowed)
      ≡ (ok is.answer, state rest (outbox ++ (challenge_frame ∷ [])) allowed)
unfolding execute_default asn_int4 be_bytes
challenged m rest outbox allowed is =
    execute-IsAnswer (name "CsiFccLockGenChallengeReq") (asn 0) true challenge_frame m rest outbox
      allowed
      (default_requested 0x190 (name "CsiFccLockGenChallengeReq") challenge_code (omega arith)) is

-- The documented form of a digest.
abbrev pub IsDigest : (Bytes → Bytes) → Type 0
IsDigest sha256 = (bs : Bytes) → (length (sha256 bs) ≡ 32) × AreBytes (sha256 bs)

from_le-IsByte : (bs : Bytes) → AreBytes bs → from_le bs < 256 ^ length bs
unfolding from_le
from_le-IsByte [] h = omega arith
from_le-IsByte (b ∷ bs) (hb, h) = omega (arith, pow-suc 256 (length bs), from_le-IsByte bs h)

module _ (sha256 : Bytes → Bytes) where
  -- The number of an attempt: the first four bytes of the digest of the challenge and the key.
  abbrev pub key_answer : ℕ → Bytes → ℕ
  key_answer chal k = from_le (take 4 (sha256 (le_bytes 4 chal ++ k)))

  abbrev pub attempt_frame : ℕ → Bytes → Bytes
  attempt_frame chal k = frame true 0x192 (asn (key_answer chal k))

  module _ (digest : IsDigest sha256) (chal : ℕ) where
    abbrev first_bytes : Bytes → Bytes
    first_bytes k = take 4 (sha256 (le_bytes 4 chal ++ k))

    length-first_bytes : (k : Bytes) → length (first_bytes k) ≡ 4
    length-first_bytes k =
        omega
          (arith, length-take 4 (sha256 (le_bytes 4 chal ++ k)), (digest (le_bytes 4 chal ++ k)).0)

    key_answer_small : (k : Bytes) → key_answer chal k < 256 ^ 4
    key_answer_small k =
        let d = sha256 (le_bytes 4 chal ++ k) in
        let bytes : AreBytes (take 4 d) =
          All-prefix IsByte (take 4 d) (drop 4 d)
            (subst AreBytes (sym (take-append-drop 4 d)) (digest (le_bytes 4 chal ++ k)).1) in
        subst (λ w. key_answer chal k < 256 ^ w) (length-first_bytes k)
          (from_le-IsByte (take 4 d) bytes)

    answer_lem : (k : Bytes) → answer sha256 (le_bytes 4 chal) k ≡ ok (key_answer chal k)
    unfolding answer unpack_le
    answer_lem k = rw ((==_iff (length (first_bytes k)) 4).1 (length-first_bytes k)) refl

    body_packed : (n : ℕ) → n < 256 ^ 4 → pack (codes "L") (int n ∷ []) ≡ ok (asn n)
    unfolding pack pack_loop pack_int be_bytes
    body_packed n h = rw (pack_be-eq-ok 4 n h) refl

    verify_requested :
        (n : ℕ)
        → request (name "CsiFccLockVerChallengeReq") (asn n) true ≡ ok (frame true 0x192 (asn n))
    unfolding be_bytes
    verify_requested n =
        request-eq-frame (name "CsiFccLockVerChallengeReq") 0x192 (asn n) true verify_code
          (omega arith) (omega arith)

    -- One attempt, answered with a number.
    try_key-IsAnswer :
        (k m : Bytes) (n : ℕ) (rest outbox : List Bytes) (allowed : Field)
        → IsAnswer m (num n ∷ [])
        → try_key sha256 (le_bytes 4 chal) k (state (m ∷ rest) outbox allowed)
          ≡ (ok (n == 1), state rest (outbox ++ (attempt_frame chal k ∷ [])) allowed)
    unfolding try_key field_at
    try_key-IsAnswer k m n rest outbox allowed is =
        let body = asn (key_answer chal k) in
        rw (answer_lem k, body_packed (key_answer chal k) (key_answer_small k))
          (rw
            (execute-IsAnswer (name "CsiFccLockVerChallengeReq") body true (attempt_frame chal k) m
              rest outbox allowed (verify_requested (key_answer chal k)) is)
            (rw (unpack-unpack_unknown is.answer.body (num n ∷ []) is.read) refl))

    -- The keys in front that are refused.
    pub try_keys-Refuses :
        (before : List Bytes) (ks refusals rest outbox : List Bytes) (allowed : Field)
        → length refusals ≡ length before
        → All Refuses refusals
        → try_keys sha256 (le_bytes 4 chal) (before ++ ks) (state (refusals ++ rest) outbox allowed)
          ≡ try_keys sha256
              (le_bytes 4 chal)
              ks
              (state rest (outbox ++ map (attempt_frame chal) before) allowed)
    unfolding try_keys
    try_keys-Refuses [] ks [] rest outbox allowed size h = rw (append-nil outbox) refl
    try_keys-Refuses [] ks (m ∷ ms) rest outbox allowed size h = absurd (omega (arith, size))
    try_keys-Refuses (k ∷ before) ks [] rest outbox allowed size h = absurd (omega (arith, size))
    try_keys-Refuses (k ∷ before) ks (m ∷ ms) rest outbox allowed size ((n, ne, is), h) =
        let refused : (n == 1) ≡ false = ground arith in
        rw (try_key-IsAnswer k m n (ms ++ rest) outbox allowed is, refused)
          (try_keys-Refuses before ks ms rest (outbox ++ (attempt_frame chal k ∷ [])) allowed
              (omega (arith, size)) h
            ∙ rw (append_assoc outbox (attempt_frame chal k ∷ []) (map (attempt_frame chal) before))
                refl)

    pub try_keys-accepted :
        (k m : Bytes) (after rest outbox : List Bytes) (allowed : Field)
        → Accepts m
        → try_keys sha256 (le_bytes 4 chal) (k ∷ after) (state (m ∷ rest) outbox allowed)
          ≡ (ok tt, state rest (outbox ++ (attempt_frame chal k ∷ [])) allowed)
    unfolding try_keys
    try_keys-accepted k m after rest outbox allowed is =
        rw (try_key-IsAnswer k m 1 rest outbox allowed is) refl
