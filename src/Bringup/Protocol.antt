-- ===== src/Bringup/Protocol.antt =====
-- The order in which the bring-up script talks to the modem, as a step relation on the names of the
-- calls, and the requests in the outbox that follow it.
use xmm7360_mvp.Prelude.{
  ℕ, ◌≡◌, refl, ◌∙◌, sym, String, Bool, true, false, List, [], ◌∷◌, ◌++◌, append_assoc, append-nil,
}
use xmm7360_mvp.Result.{ok}
use xmm7360_mvp.Bytes.{Bytes}
use xmm7360_mvp.Rpc.Message.{name, request}
use xmm7360_mvp.Rpc.Session.{Modem}
use xmm7360_mvp.Rpc.Session.Await.{Requested}

-- How far the script is. `unlock late n` is the first or the second attempt to unlock, with `n`
-- requests sent, and `init n` is behind `n` of the initialising calls.
pub data Stage : Type 0 where
  unlock : Bool → ℕ → Stage
  init : ℕ → Stage
  mode_asked apn_set : Stage
  attach_asked : Bool → Stage
  ip_asked dns_asked connected channel_open set_up : Stage

-- Which call may come next.
pub data Step : Stage → String → Stage → Type 0 where
  query : (late : Bool) → Step (unlock late 0) "CsiFccLockQueryReq" (unlock late 1)
  challenge : (late : Bool) → Step (unlock late 1) "CsiFccLockGenChallengeReq" (unlock late 2)
  first_key : (late : Bool) → Step (unlock late 2) "CsiFccLockVerChallengeReq" (unlock late 3)
  second_key : (late : Bool) → Step (unlock late 3) "CsiFccLockVerChallengeReq" (unlock late 4)
  sms_init : (n : ℕ) → Step (unlock false n) "UtaMsSmsInit" (init 1)
  cbs_init : Step (init 1) "UtaMsCbsInit" (init 2)
  net_open : Step (init 2) "UtaMsNetOpen" (init 3)
  call_cs_init : Step (init 3) "UtaMsCallCsInit" (init 4)
  call_ps_initialize : Step (init 4) "UtaMsCallPsInitialize" (init 5)
  ss_init : Step (init 5) "UtaMsSsInit" (init 6)
  sim_open : Step (init 6) "UtaMsSimOpenReq" (init 7)
  query_again : Step (init 7) "CsiFccLockQueryReq" (unlock true 1)
  set_mode : (n : ℕ) → Step (unlock true n) "UtaModeSetReq" mode_asked
  set_apn : Step mode_asked "UtaMsCallPsAttachApnConfigReq" apn_set
  attach : Step apn_set "UtaMsNetAttachReq" (attach_asked false)
  attach_again : Step (attach_asked false) "UtaMsNetAttachReq" (attach_asked true)
  ask_ip : (again : Bool) → Step (attach_asked again) "UtaMsCallPsGetNegIpAddrReq" ip_asked
  ask_dns : Step ip_asked "UtaMsCallPsGetNegotiatedDnsReq" dns_asked
  ask_ip_again : Step dns_asked "UtaMsCallPsGetNegIpAddrReq" ip_asked
  connect_ps : Step dns_asked "UtaMsCallPsConnectReq" connected
  open_datachannel : Step connected "UtaRPCPsConnectToDatachannelReq" channel_open
  setup : Step channel_open "UtaRPCPSConnectSetupReq" set_up

pub data Steps : Stage → List String → Stage → Type 0 where
  stay : (p : Stage) → Steps p [] p
  go :
      {p q r : Stage} {w : String} {ws : List String}
      → Step p w q
      → Steps q ws r
      → Steps p (w ∷ ws) r

Steps-append :
    {p q r : Stage} {ws vs : List String} → Steps p ws q → Steps q vs r → Steps p (ws ++ vs) r
Steps-append (stay p) more = more
Steps-append (go first rest) more = go first (Steps-append rest more)

-- The frames are requests for these calls.
abbrev IsRequest : String → Bytes → Type 0
IsRequest w frame = (body : Bytes) × (is_async : Bool) × (request (name w) body is_async ≡ ok frame)

pub data Requests : List String → List Bytes → Type 0 where
  none_sent : Requests [] []
  sent :
      {w : String} {ws : List String} {frame : Bytes} {frames : List Bytes}
      → IsRequest w frame
      → Requests ws frames
      → Requests (w ∷ ws) (frame ∷ frames)

pub Requests-append :
    {ws vs : List String} {fs gs : List Bytes}
    → Requests ws fs
    → Requests vs gs
    → Requests (ws ++ vs) (fs ++ gs)
Requests-append none_sent more = more
Requests-append (sent r rest) more = sent r (Requests-append rest more)

-- What was written from `s` to `t` leads from one stage to the other, call by call.
abbrev pub Talk : Stage → Stage → Modem → Modem → Type 0
Talk p q s t =
    (ws : List String) × (frames : List Bytes) × Steps p ws q
    × Requests ws frames
    × (t.outbox ≡ s.outbox ++ frames)

pub Talk-none : (p : Stage) (s t : Modem) → t.outbox ≡ s.outbox → Talk p p s t
Talk-none p s t e = ([], [], stay p, none_sent, e ∙ sym (append-nil s.outbox))

pub Talk-trans : (p q r : Stage) (s t u : Modem) → Talk p q s t → Talk q r t u → Talk p r s u
Talk-trans p q r s t u (ws, fs, moves, reqs, e) (vs, gs, moves', reqs', e') = (
  ws ++ vs,
  fs ++ gs,
  Steps-append moves moves',
  Requests-append reqs reqs',
  e' ∙ rw (e, append_assoc) refl,
)

pub Talk-one :
    {p q : Stage} {w : String} (s t : Modem) (body : Bytes) (is_async : Bool)
    → Step p w q
    → Requested (name w) body is_async s t
    → Talk p q s t
Talk-one {w} s t body is_async st (frame, e, out, _, _) =
    (w ∷ [], frame ∷ [], go st (stay _), sent (body, is_async, e) none_sent, out)
