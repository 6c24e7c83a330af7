-- ===== src/Bringup/Unlock.antt =====
-- `do_fcc_unlock` and `UtaModeSet` in the protocol.
use xmm7360_mvp.Prelude.{
  ℕ, suc, ◌≡◌, refl, arith, Bool, true, false, not, ◌||◌, ◌==◌, [], ◌∷◌, take, length, codes, ◌++◌,
}
use xmm7360_mvp.Result.{io}
use xmm7360_mvp.Bytes.{Bytes}
use xmm7360_mvp.Rpc.Take.{Field}
use xmm7360_mvp.Rpc.Take.Ends.{unpack-Ends}
use xmm7360_mvp.Rpc.Pack.{int}
use xmm7360_mvp.Rpc.Pack.Ends.{pack-Ends}
use xmm7360_mvp.Rpc.Message.{is_num}
use xmm7360_mvp.Bytes.Ends.{unpack_le-Ends, pack_le-Ends}
use xmm7360_mvp.Rpc.Message.Ends.{field_at-Ends}
use xmm7360_mvp.Rpc.Session.{Modem, check, await_mode, uta_mode_set}
use xmm7360_mvp.Rpc.Session.Effects.{Holds, Quiet, Quiet-refl, Holds-weaken}
use xmm7360_mvp.Rpc.Session.Modes.{check-Holds, await_mode-Holds}
use xmm7360_mvp.Rpc.Fcc.{keys, answer, try_key, try_keys, answer_challenge, do_fcc_unlock}
use xmm7360_mvp.Rpc.Fcc.Ends.{lock_fields-Ends, challenge_field-Ends}
use xmm7360_mvp.Bringup.Protocol.{
  Stage, unlock, mode_asked, Step, challenge, first_key, second_key, set_mode,
}
use xmm7360_mvp.Bringup.Follows.{
  Follows, Follows-bind, Follows-lift, Follows-Quiet, Follows-Quiet_end, Follows-pure,
  Follows-raise, Follows-execute, Follows-execute_default, Follows-at, Follows-if,
}

-- One of the stages of an attempt to unlock.
abbrev pub Unlocking : Bool → Stage → Type 0
Unlocking late q = (n : ℕ) × (q ≡ unlock late n)

module _ (sha256 : Bytes → Bytes) (late : Bool) (E : Stage → Type 0)
    (any : (n : ℕ) → E (unlock late n)) where
  try_key-Follows :
      (n : ℕ) (chal k : Bytes)
      → Step (unlock late n) "CsiFccLockVerChallengeReq" (unlock late (suc n))
      → Follows (unlock late n) (λ z. z ≡ unlock late (suc n)) E (try_key sha256 chal k)
  unfolding try_key answer
  try_key-Follows n chal k st =
      Follows-lift (unpack_le-Ends 4 (take 4 (sha256 (chal ++ k)))) (any n) λ resp.
        Follows-lift (pack-Ends (codes "L") (int resp ∷ [])) (any n) λ body.
          Follows-execute "CsiFccLockVerChallengeReq" body true st (any n) (any (suc n)) λ reply.
            Follows-lift (unpack-Ends (codes "n") reply.body) (any (suc n)) λ fields.
              Follows-lift (field_at-Ends 0 fields) (any (suc n))
                λ first. Follows-pure (is_num 1 first) refl

  try_keys-Follows :
      (chal : Bytes) → Follows (unlock late 2) (Unlocking late) E (try_keys sha256 chal keys)
  unfolding try_keys
  try_keys-Follows chal = Follows-bind (try_key-Follows 2 chal _ (first_key late)) λ took z e.
      Follows-at (unlock late 3) z e (
        Follows-if took _ _ (Follows-pure tt (3, refl)) (
          Follows-bind (try_key-Follows 3 chal _ (second_key late)) λ took' z' e'.
            Follows-at (unlock late 4) z' e' (
              Follows-if took' _ _ (Follows-pure tt (4, refl))
                (Follows-raise io (λ x. cc) (any 4)))))

  answer_challenge-Follows : Follows (unlock late 1) (Unlocking late) E (answer_challenge sha256)
  unfolding answer_challenge
  answer_challenge-Follows =
      Follows-execute_default "CsiFccLockGenChallengeReq" true (challenge late) (any 1) (any 2)
        λ reply. Follows-lift (unpack-Ends (codes "nn") reply.body) (any 2) λ fields.
          Follows-lift (challenge_field-Ends fields) (any 2)
            λ chal. Follows-lift (pack_le-Ends 4 chal) (any 2) λ bytes. try_keys-Follows bytes

  pub do_fcc_unlock-Follows :
      (p : Stage)
      → Step p "CsiFccLockQueryReq" (unlock late 1)
      → E p
      → Follows p (Unlocking late) E (do_fcc_unlock sha256)
  unfolding do_fcc_unlock
  do_fcc_unlock-Follows p st e =
      Follows-execute_default "CsiFccLockQueryReq" true st e (any 1) λ reply.
        Follows-lift (unpack-Ends (codes "nnn") reply.body) (any 1) λ fields.
          Follows-lift (lock_fields-Ends fields) (any 1) λ lock.
            Follows-if (lock.1 == 0 || not (lock.0 == 0)) _ _ (Follows-pure tt (1, refl))
              answer_challenge-Follows

-- Nothing is asked of the stage.
abbrev pub Anywhere : Stage → Type 0
Anywhere q = Unit {0}

pub uta_mode_set-Follows :
    (mode n : ℕ) → Follows (unlock true n) (λ z. z ≡ mode_asked) Anywhere (uta_mode_set mode)
unfolding uta_mode_set
uta_mode_set-Follows mode n =
    Follows-lift (pack-Ends (codes "LLL") (int 0 ∷ int 15 ∷ int mode ∷ [])) tt λ body.
      Follows-execute "UtaModeSetReq" body false (set_mode n) tt tt λ resp.
        Follows-lift (field_at-Ends 0 resp.content) tt
          λ first. Follows-Quiet (checked first) tt λ _. Follows-Quiet_end waited refl tt
  where
    checked :
        (first : Field) (s : Modem)
        → Holds (λ _ t. Quiet s t) (Quiet s) (check (is_num 0 first) io s)
    checked first s =
        Holds-weaken (check-Holds (is_num 0 first) io s (λ x. cc) (Quiet-refl s))
          (λ _ t (same, _). rw same (Quiet-refl s)) (λ t q. q)

    waited :
        (s : Modem) → Holds (λ _ t. Quiet s t) (Quiet s) (await_mode (suc (length s.inbox)) mode s)
    waited s =
        Holds-weaken (await_mode-Holds (suc (length s.inbox)) mode s (omega arith))
          (λ _ t (out, got, split, _). (out, got, split)) (λ t q. q)
