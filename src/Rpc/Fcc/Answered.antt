-- ===== src/Rpc/Fcc/Answered.antt =====
-- `do_fcc_unlock` on a modem that answers at once.
use xmm7360_mvp.Prelude.{
  ℕ, ◌==◌, ==_iff, ◌^◌, ◌<◌, ◌≡◌, ◌≢◌, refl, ap, sym, ◌∙◌, true, false, not, ◌||◌, List, [], ◌∷◌,
  ◌++◌, append_assoc, map, length, All, arith, inl, inr, ◌⊎◌,
}
use xmm7360_mvp.Result.{Result, ok, err, io}
use mathlib.Core.List.{map-append}
use xmm7360_mvp.Bytes.{Bytes, le_bytes}
use xmm7360_mvp.Bytes.Laws.{pack_le-eq-ok}
use xmm7360_mvp.Rpc.Take.{Field, num}
use xmm7360_mvp.Rpc.Take.Agree.{unpack-unpack_unknown}
use xmm7360_mvp.Rpc.Session.{step}
use xmm7360_mvp.Rpc.Session.Answered.{IsAnswer, state}
use xmm7360_mvp.Rpc.Fcc.Attempts.{
  Accepts, Refuses, IsDigest, query_frame, challenge_frame, attempt_frame, queried, challenged,
  try_keys-Refuses, try_keys-accepted,
}
use xmm7360_mvp.Rpc.Fcc.{keys, try_keys, answer_challenge, do_fcc_unlock}

module _ (sha256 : Bytes → Bytes) where
  -- What the modem answers to the attempts, the keys that are tried, and how the loop ends: some key
  -- is accepted after those in front of it were refused, or all are refused.
  pub data Verdict : List Bytes → List Bytes → Result (Unit {0}) → Type 0 where
    one_accepted :
        (refusals : List Bytes) (m : Bytes) (before : List Bytes) (k : Bytes) (after : List Bytes)
        → keys ≡ before ++ (k ∷ after)
        → length refusals ≡ length before
        → All Refuses refusals
        → Accepts m
        → Verdict (refusals ++ (m ∷ [])) (before ++ (k ∷ [])) (ok tt)
    all_refused :
        (refusals : List Bytes)
        → length refusals ≡ length keys
        → All Refuses refusals
        → Verdict refusals keys (err io)

  -- The modem's answers to the procedure, the messages that are written, and the outcome: a lock that
  -- is not in force or is open already, or one that is in force and challenges.
  pub data Exchange : List Bytes → List Bytes → Result (Unit {0}) → Type 0 where
    idle :
        (q : Bytes) (first fcc_state fcc_mode : ℕ)
        → IsAnswer q (num first ∷ num fcc_state ∷ num fcc_mode ∷ [])
        → (fcc_mode ≡ 0) ⊎ (fcc_state ≢ 0)
        → Exchange (q ∷ []) (query_frame ∷ []) (ok tt)
    locked :
        (q c : Bytes) (first second fcc_mode chal : ℕ) (ms tried : List Bytes)
        (result : Result (Unit {0}))
        → IsAnswer q (num first ∷ num 0 ∷ num fcc_mode ∷ [])
        → fcc_mode ≢ 0
        → IsAnswer c (num second ∷ num chal ∷ [])
        → chal < 256 ^ 4
        → Verdict ms tried result
        → Exchange
            (q ∷ c ∷ ms)
            (query_frame ∷ challenge_frame ∷ map (attempt_frame sha256 chal) tried)
            result

  module _ (digest : IsDigest sha256) (chal : ℕ) where
    -- The loop over the keys, where the modem answers every attempt.
    try_keys-Verdict :
        (ms tried : List Bytes) (result : Result (Unit {0})) (rest outbox : List Bytes)
        (allowed : Field)
        → Verdict ms tried result
        → try_keys sha256 (le_bytes 4 chal) keys (state (ms ++ rest) outbox allowed)
          ≡ (result, state rest (outbox ++ map (attempt_frame sha256 chal) tried) allowed)
    unfolding try_keys
    try_keys-Verdict _ _ _ rest outbox allowed
          (one_accepted refusals m before k after split size refused is) =
        ap
          (λ ks.
            try_keys sha256 (le_bytes 4 chal) ks
              (state ((refusals ++ (m ∷ [])) ++ rest) outbox allowed))
          split
        ∙ ap
            (λ ms.
              try_keys sha256 (le_bytes 4 chal) (before ++ (k ∷ after)) (state ms outbox allowed))
            (append_assoc refusals (m ∷ []) rest)
        ∙ try_keys-Refuses sha256 digest chal before (k ∷ after) refusals (m ∷ rest) outbox allowed
            size refused
        ∙ try_keys-accepted sha256 digest chal k m after rest
            (outbox ++ map (attempt_frame sha256 chal) before) allowed is
        ∙ ap (λ sent. (ok tt, state rest sent allowed))
            (append_assoc outbox (map (attempt_frame sha256 chal) before)
                (attempt_frame sha256 chal k ∷ [])
              ∙ ap (λ sent. outbox ++ sent)
                  (sym (map-append (attempt_frame sha256 chal) before (k ∷ []))))
    try_keys-Verdict _ _ _ rest outbox allowed (all_refused refusals size refused) =
        try_keys-Refuses sha256 digest chal keys [] refusals rest outbox allowed size refused

    -- The challenge and the attempts.
    answer_challenge-Verdict :
        (c : Bytes) (second : ℕ) (ms tried : List Bytes) (result : Result (Unit {0}))
        (rest outbox : List Bytes) (allowed : Field)
        → IsAnswer c (num second ∷ num chal ∷ [])
        → chal < 256 ^ 4
        → Verdict ms tried result
        → answer_challenge sha256 (state (c ∷ (ms ++ rest)) outbox allowed) ≡ (
          result,
          state rest (outbox ++ (challenge_frame ∷ map (attempt_frame sha256 chal) tried)) allowed,
        )
    unfolding answer_challenge
    answer_challenge-Verdict c second ms tried result rest outbox allowed is small verdict =
        rw
          (
            challenged c (ms ++ rest) outbox allowed is,
            unpack-unpack_unknown is.answer.body (num second ∷ num chal ∷ []) is.read,
            pack_le-eq-ok 4 chal small,
          )
          (try_keys-Verdict ms tried result rest (outbox ++ (challenge_frame ∷ [])) allowed verdict
            ∙ rw
                (append_assoc outbox (challenge_frame ∷ []) (map (attempt_frame sha256 chal) tried))
                refl)

  idle_tested :
      (fcc_state fcc_mode : ℕ)
      → (fcc_mode ≡ 0) ⊎ (fcc_state ≢ 0)
      → (fcc_mode == 0 || not (fcc_state == 0)) ≡ true
  idle_tested st mode (inl off) = rw ((==_iff mode 0).1 off) refl
  idle_tested st mode (inr open_already) = ground arith

  -- Let the modem answer each request with the next message, and let the hash return 32 bytes. Where
  -- the query's answer says that the lock is not in force (mode 0) or open (state not 0), the procedure
  -- returns after the query alone. Otherwise it asks for the challenge, a 32-bit number, and sends for
  -- each key in turn the first four bytes of the hash of challenge and key, as a number, up to the
  -- first attempt that is answered with 1, where it returns; if both keys are answered with another
  -- number it ends with an input/output error. It reads these answers and no further message.
  pub do_fcc_unlock-Exchange :
      IsDigest sha256
      → (ms sent : List Bytes) (result : Result (Unit {0})) (rest outbox : List Bytes)
        (allowed : Field)
      → Exchange ms sent result
      → do_fcc_unlock sha256 (state (ms ++ rest) outbox allowed)
        ≡ (result, state rest (outbox ++ sent) allowed)
  unfolding do_fcc_unlock
  do_fcc_unlock-Exchange digest _ _ _ rest outbox allowed (idle q first st mode is off) =
      rw
        (
          queried q rest outbox allowed is,
          unpack-unpack_unknown is.answer.body (num first ∷ num st ∷ num mode ∷ []) is.read,
        )
        (rw (idle_tested st mode off, step) refl)
  do_fcc_unlock-Exchange digest _ _ _ rest outbox allowed
        (locked q c first second mode chal ms tried result is_q on is_c small verdict) =
      let in_force : (mode == 0 || not (0 == 0)) ≡ false = ground arith in
      rw
        (
          queried q (c ∷ (ms ++ rest)) outbox allowed is_q,
          unpack-unpack_unknown is_q.answer.body (num first ∷ num 0 ∷ num mode ∷ []) is_q.read,
        )
        (rw (in_force, step)
          (answer_challenge-Verdict digest chal c second ms tried result rest
              (outbox ++ (query_frame ∷ [])) allowed is_c small verdict
            ∙ rw
                (append_assoc outbox (query_frame ∷ [])
                  (challenge_frame ∷ map (attempt_frame sha256 chal) tried))
                refl))
