-- ===== src/Rpc/Fcc.antt =====
-- `do_fcc_unlock`. The hash of `hashlib.sha256` is a parameter.
pub mod Attempts
pub mod Answered
pub mod Ends
use xmm7360_mvp.Prelude.{
  ℕ, zero, suc, ◌==◌, String, Bool, true, false, not, ◌||◌, List, [], ◌∷◌, ◌++◌, take, codes,
  if◌then◌else◌,
}
use xmm7360_mvp.Result.{Result, ok, err, io, value}
use xmm7360_mvp.Bytes.{Bytes, pack_le, unpack_le}
use xmm7360_mvp.Rpc.Take.{Field, num, str, unpack}
use xmm7360_mvp.Rpc.Pack.{Arg, int, pack}
use xmm7360_mvp.Rpc.Message.{name, field_at, is_num}
use xmm7360_mvp.Rpc.Session.{M, pure, raise, lift, ◌>>=◌, ◌>>◌, execute, execute_default}

-- `_, fcc_state, fcc_mode = …` and `_, fcc_chal = …`
abbrev pub lock_fields : List Field → Result (ℕ × ℕ)
lock_fields (_ ∷ num fcc_state ∷ num fcc_mode ∷ []) = ok (fcc_state, fcc_mode)
lock_fields _ = err value

abbrev pub challenge_field : List Field → Result ℕ
challenge_field (_ ∷ num fcc_chal ∷ []) = ok fcc_chal
challenge_field _ = err value

-- The keys, in the order in which they are tried.
abbrev pub keys : List Bytes
keys = (0x3d ∷ 0xf8 ∷ 0xc7 ∷ 0x19 ∷ []) ∷ (0x00 ∷ 0x00 ∷ 0x00 ∷ 0x00 ∷ []) ∷ []

module _ (sha256 : Bytes → Bytes) where
  -- `struct.unpack('<L', hashlib.sha256(chal_bytes + key).digest()[:4])[0]`
  unfoldable pub answer : Bytes → Bytes → Result ℕ
  answer chal_bytes fcc_key = unpack_le 4 (take 4 (sha256 (chal_bytes ++ fcc_key)))

  -- The body of the loop over the keys: whether the modem took the answer.
  unfoldable pub try_key : Bytes → Bytes → M Bool
  unfolding answer
  try_key chal_bytes fcc_key = do
    resp ← lift (answer chal_bytes fcc_key)
    body ← lift (pack (codes "L") (int resp ∷ []))
    unlock_resp ← execute (name "CsiFccLockVerChallengeReq") body true
    fields ← lift (unpack (codes "n") unlock_resp.body)
    first ← lift (field_at 0 fields)
    pure (is_num 1 first)

  unfoldable pub try_keys : Bytes → List Bytes → M (Unit {0})
  unfolding try_key
  try_keys chal_bytes [] = raise io
  try_keys chal_bytes (k ∷ ks) = do
    accepted ← try_key chal_bytes k
    elim accepted [ true ↦ pure tt | false ↦ try_keys chal_bytes ks ]

  unfoldable pub answer_challenge : M (Unit {0})
  unfolding try_keys
  answer_challenge = do
    fcc_chal_resp ← execute_default "CsiFccLockGenChallengeReq" true
    fields ← lift (unpack (codes "nn") fcc_chal_resp.body)
    fcc_chal ← lift (challenge_field fields)
    chal_bytes ← lift (pack_le 4 fcc_chal)
    try_keys chal_bytes keys

  unfoldable pub do_fcc_unlock : M (Unit {0})
  unfolding answer_challenge
  do_fcc_unlock = do
    fcc_status_resp ← execute_default "CsiFccLockQueryReq" true
    fields ← lift (unpack (codes "nnn") fcc_status_resp.body)
    (fcc_state, fcc_mode) ← lift (lock_fields fields)
    elim (fcc_mode == 0 || not (fcc_state == 0)) [ true ↦ pure tt | false ↦ answer_challenge ]
