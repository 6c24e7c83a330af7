-- ===== src/Rpc/Fcc/Ends.antt =====
-- About `do_fcc_unlock`: its fuel, and how many requests it sends.
use xmm7360_mvp.Prelude.{
  ℕ, ◌+◌, ◌≤◌, Bool, true, false, not, ◌||◌, String, List, [], ◌∷◌, ◌++◌, arith, length, take, ◌==◌,
  codes,
}
use xmm7360_mvp.Result.{Result, ok, err}
use xmm7360_mvp.Result.Ends.{Ends, raises, Ends-of_ne}
use xmm7360_mvp.Bytes.{Bytes, pack_le}
use xmm7360_mvp.Rpc.Take.{Field, unpack}
use xmm7360_mvp.Rpc.Take.Ends.{unpack-Ends}
use xmm7360_mvp.Rpc.Pack.{int, pack, asn_int4}
use xmm7360_mvp.Rpc.Pack.Ends.{pack-Ends, asn_int4-Ends}
use xmm7360_mvp.Rpc.Message.{name, Command, is_num, field_at}
use xmm7360_mvp.Bytes.Ends.{unpack_le-Ends, pack_le-Ends}
use xmm7360_mvp.Rpc.Message.Ends.{field_at-Ends}
use xmm7360_mvp.Rpc.Session.{Modem, M, step, pure, execute, execute_default}
use xmm7360_mvp.Rpc.Session.Effects.{Holds, gave, threw, Holds-step, Holds-weaken}
use xmm7360_mvp.Rpc.Session.Await.{execute-Holds}
use xmm7360_mvp.Rpc.Session.Modes.{Sent, Requested-Sent, failed-Sent}
use xmm7360_mvp.Rpc.Fcc.{
  lock_fields, challenge_field, keys, answer, try_key, try_keys, answer_challenge, do_fcc_unlock,
}

-- From a state after `k` requests a call sends at most `n` more.
abbrev Adds {ℓ} : {A : Type ℓ} → ℕ → M A → Type ℓ
Adds {A = A} n m = (s : Modem) → Holds {A = A} (λ _ t. Sent n s t) (Sent n s) (m s)

Adds-bind {ℓ κ} :
    {A : Type ℓ} {B : Type κ} (k n : ℕ) (m : M A) (f : A → M B)
    → Adds k m
    → ((a : A) → Adds n (f a))
    → (s : Modem) → Holds (λ _ t. Sent (k + n) s t) (Sent (k + n) s) (step (m s) f)
Adds-bind k n m f hm hf s =
    Holds-step (Holds-weaken (hm s) (λ a t h. h) (λ t h. omega arith))
      λ a t h. Holds-weaken (hf a t) (λ b u h'. omega arith) (λ u h'. omega arith)

Adds-lift {ℓ κ} :
    {A : Type ℓ} {B : Type κ} (n : ℕ) (r : Result A) (f : A → M B)
    → Ends (λ _. Unit {0}) r
    → ((a : A) → Adds n (f a))
    → (s : Modem) → Holds (λ _ t. Sent n s t) (Sent n s) (step (r, s) f)
Adds-lift n (ok a) f h hf s = hf a s
Adds-lift n (err e) f (raises ne) hf s = threw ne (omega arith)

Adds-pure {ℓ} : {A : Type ℓ} (n : ℕ) (a : A) → Adds n (pure a)
Adds-pure n a s = gave (omega arith)

execute-Adds : (cmd : Command) (body : Bytes) (is_async : Bool) → Adds 1 (execute cmd body is_async)
execute-Adds cmd body is_async s =
    Holds-weaken (execute-Holds cmd body is_async s)
      (λ r t (is, req). Requested-Sent cmd body is_async s t req) (failed-Sent cmd body is_async s)

execute_default-Adds : (cmd : String) (is_async : Bool) → Adds 1 (execute_default cmd is_async)
unfolding execute_default
execute_default-Adds cmd is_async =
    Adds-lift 1 (asn_int4 0) (λ body. execute (name cmd) body is_async) (asn_int4-Ends 0)
      λ body. execute-Adds (name cmd) body is_async

pub lock_fields-Ends : (xs : List Field) → Ends (λ _. Unit {0}) (lock_fields xs)
lock_fields-Ends xs = Ends-of_ne (lock_fields xs) (λ e. ground arith)

pub challenge_field-Ends : (xs : List Field) → Ends (λ _. Unit {0}) (challenge_field xs)
challenge_field-Ends xs = Ends-of_ne (challenge_field xs) (λ e. ground arith)

module _ (sha256 : Bytes → Bytes) where
  try_key-Adds : (chal k : Bytes) → Adds 1 (try_key sha256 chal k)
  unfolding try_key
  try_key-Adds chal k =
      Adds-lift 1 (answer sha256 chal k) _
        (unfold answer in unpack_le-Ends 4 (take 4 (sha256 (chal ++ k))))
        λ resp.
          Adds-lift 1 (pack (codes "L") (int resp ∷ [])) _ (pack-Ends (codes "L") (int resp ∷ []))
            λ body.
              Adds-bind 1 0 (execute (name "CsiFccLockVerChallengeReq") body true) _
                (execute-Adds (name "CsiFccLockVerChallengeReq") body true)
                λ reply.
                  Adds-lift 0 (unpack (codes "n") reply.body) _ (unpack-Ends (codes "n") reply.body)
                    λ fields.
                      Adds-lift 0 (field_at 0 fields) _ (field_at-Ends 0 fields)
                        λ first. Adds-pure 0 (is_num 1 first)

  branch-Adds :
      (n : ℕ) (b : Bool) (x y : M (Unit {0}))
      → Adds n x
      → Adds n y
      → Adds n (elim b [ true ↦ x | false ↦ y ])
  branch-Adds n true x y hx hy = hx
  branch-Adds n false x y hx hy = hy

  try_keys-Adds : (chal : Bytes) (ks : List Bytes) → Adds (length ks) (try_keys sha256 chal ks)
  unfolding try_keys
  try_keys-Adds chal [] s = threw (λ e. cc) (omega arith)
  try_keys-Adds chal (k ∷ ks) s =
      Holds-weaken
        (Adds-bind 1 (length ks) (try_key sha256 chal k) _ (try_key-Adds chal k)
          (λ took.
            branch-Adds (length ks) took (pure tt) (try_keys sha256 chal ks)
              (Adds-pure (length ks) tt) (try_keys-Adds chal ks))
          s)
        (λ _ t h. omega arith) (λ t h. omega arith)

  answer_challenge-Adds : Adds 3 (answer_challenge sha256)
  unfolding answer_challenge
  answer_challenge-Adds =
      Adds-bind 1 2 (execute_default "CsiFccLockGenChallengeReq" true) _
        (execute_default-Adds "CsiFccLockGenChallengeReq" true)
        λ reply.
          Adds-lift 2 (unpack (codes "nn") reply.body) _ (unpack-Ends (codes "nn") reply.body)
            λ fields. Adds-lift 2 (challenge_field fields) _ (challenge_field-Ends fields) λ chal.
              Adds-lift 2 (pack_le 4 chal) _ (pack_le-Ends 4 chal)
                λ chal_bytes. try_keys-Adds chal_bytes keys

  do_fcc_unlock-Adds : Adds 4 (do_fcc_unlock sha256)
  unfolding do_fcc_unlock
  do_fcc_unlock-Adds =
      Adds-bind 1 3 (execute_default "CsiFccLockQueryReq" true) _
        (execute_default-Adds "CsiFccLockQueryReq" true)
        λ reply.
          Adds-lift 3 (unpack (codes "nnn") reply.body) _ (unpack-Ends (codes "nnn") reply.body)
            λ fields. Adds-lift 3 (lock_fields fields) _ (lock_fields-Ends fields) λ lock.
              branch-Adds 3 (lock.1 == 0 || not (lock.0 == 0)) (pure tt) (answer_challenge sha256)
                (Adds-pure 3 tt) answer_challenge-Adds

  -- For every hash the procedure never runs out of fuel, and whether it returns, raises or is left
  -- waiting it has sent at most four requests: the query, the challenge and an answer for each key.
  pub do_fcc_unlock-Holds :
      (s : Modem)
      → Holds
          (λ _ t. length t.outbox ≤ length s.outbox + 4)
          (λ t. length t.outbox ≤ length s.outbox + 4)
          (do_fcc_unlock sha256 s)
  do_fcc_unlock-Holds s = do_fcc_unlock-Adds s
