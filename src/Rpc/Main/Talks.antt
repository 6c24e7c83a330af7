-- ===== src/Rpc/Main/Talks.antt =====
-- The requests of the script of rpc.py, in the order of the bring-up's protocol.
use mathlib.Core.Path.{subst}
use xmm7360_mvp.Prelude.{
  ℕ, ◌≡◌, ◌≢◌, refl, ap, ◌∙◌, sym, String, Bool, true, false, Option, none, some, List, [], ◌∷◌,
  ◌++◌, ◌⊎◌, inl, inr, codes, All, Bool-cases,
}
use xmm7360_mvp.Result.{Result, Error, ok, err, out_of_fuel}
use xmm7360_mvp.Result.Ends.{Ends, Ends-bind, Ends-of_ne}
use xmm7360_mvp.Bytes.{Bytes}
use xmm7360_mvp.Rpc.Take.{Field}
use xmm7360_mvp.Rpc.Take.Ends.{unpack-Ends}
use xmm7360_mvp.Rpc.Pack.Ends.{pack-Ends}
use xmm7360_mvp.Rpc.Message.{name}
use xmm7360_mvp.Rpc.Calls.{pack_uta_sys_get_info, unpack_uta_sys_get_info, last_field}
use xmm7360_mvp.Rpc.Session.{Modem, step, uta_sys_get_info}
use xmm7360_mvp.Rpc.Session.Effects.{Holds, gave, threw, Holds-step, Holds-weaken, Holds-lift}
use xmm7360_mvp.Rpc.Session.Await.{Requested, execute-Holds}
use xmm7360_mvp.Bringup.Protocol.{
  Stage, unlock, init, mode_asked, query, sms_init, cbs_init, net_open, call_cs_init,
  call_ps_initialize, ss_init, sim_open, query_again, Steps, stay, Requests, none_sent, sent,
  Requests-append, Talk,
}
use xmm7360_mvp.Bringup.Follows.{Follows, Follows-bind, Follows-execute_default, Follows-at}
use xmm7360_mvp.Bringup.Unlock.{Anywhere, do_fcc_unlock-Follows, uta_mode_set-Follows}
use xmm7360_mvp.Rpc.Main.{
  opened, open_interface, select_interface, default_interfaces, prepare, main, on_device, script,
}

module _ (sha256 : Bytes → Bytes) where
  prepare-Follows : Follows (unlock false 0) (λ z. z ≡ mode_asked) Anywhere (prepare sha256)
  unfolding prepare
  prepare-Follows = Follows-execute_default "CsiFccLockQueryReq" true (query false) tt tt λ _.
      Follows-execute_default "UtaMsSmsInit" false (sms_init 1) tt tt λ _.
        Follows-execute_default "UtaMsCbsInit" false cbs_init tt tt λ _.
          Follows-execute_default "UtaMsNetOpen" false net_open tt tt λ _.
            Follows-execute_default "UtaMsCallCsInit" false call_cs_init tt tt λ _.
              Follows-execute_default "UtaMsCallPsInitialize" false call_ps_initialize tt tt λ _.
                Follows-execute_default "UtaMsSsInit" false ss_init tt tt λ _.
                  Follows-execute_default "UtaMsSimOpenReq" false sim_open tt tt λ _.
                    Follows-bind
                      (do_fcc_unlock-Follows sha256 true Anywhere (λ _. tt) (init 7) query_again tt)
                      λ _ q (n, e). Follows-at (unlock true n) q e (uta_mode_set-Follows 1 n)

last_field-Ends : (xs : List Field) → Ends (λ _. Unit {0}) (last_field xs)
unfolding last_field
last_field-Ends [] = Ends-of_ne _ (λ e. cc)
last_field-Ends (x ∷ []) = Ends-of_ne _ (λ e. cc)
last_field-Ends (x ∷ y ∷ xs) = last_field-Ends (y ∷ xs)

info-Ends : (body : Bytes) → Ends (λ _. Unit {0}) (unpack_uta_sys_get_info body)
unfolding unpack_uta_sys_get_info
info-Ends body = Ends-bind (unpack-Ends (codes "nns") body) λ fields _. last_field-Ends fields

-- The one request of `UtaSysGetInfo`.
abbrev Asked : Modem → Modem → Type 0
Asked s t = (body : Bytes) × Requested (name "UtaSysGetInfo") body false s t

asked :
    (body : Bytes) (s t u : Modem)
    → t ≡ s
    → Requested (name "UtaSysGetInfo") body false t u ⊎ (u ≡ t)
    → Asked s u ⊎ (u ≡ s)
asked body s t u same (inl req) = inl (body, rw same at req)
asked body s t u same (inr e) = inr (e ∙ same)

uta_sys_get_info-Holds :
    (i : ℕ) (s : Modem) → Holds (λ _ t. Asked s t) (λ t. Asked s t ⊎ (t ≡ s)) (uta_sys_get_info i s)
unfolding uta_sys_get_info pack_uta_sys_get_info
uta_sys_get_info-Holds i s =
    Holds-step {P = λ _ t. t ≡ s} (Holds-lift (pack-Ends (codes "Ls0L") _) (λ _ _. refl) (inr refl))
      λ body t same.
        Holds-step
          (Holds-weaken (execute-Holds (name "UtaSysGetInfo") body false t)
            (λ r u (_, req). rw same at req) (λ u h. asked body s t u same h))
          λ r u req. Holds-lift (info-Ends r.body) (λ _ _. (body, req)) (inl (body, req))

-- The calls up to the mode, and the question for the version behind them.
abbrev pub Complete : List String → Type 0
Complete ws =
    (vs : List String) × Steps (unlock false 0) vs mode_asked × (ws ≡ vs ++ ("UtaSysGetInfo" ∷ []))

-- What was written is requests for these calls: all of them if the script came to its end, and
-- otherwise the protocol up to some stage or all of them.
pub data Ran : Result Field × List Bytes → Type 0 where
  finished :
      {version : Field} {ws : List String} {frames : List Bytes}
      → Complete ws
      → Requests ws frames
      → Ran (ok version, frames)
  ended :
      {e : Error} {ws : List String} {frames : List Bytes}
      → e ≢ out_of_fuel
      → ((q : Stage) × Steps (unlock false 0) ws q) ⊎ Complete ws
      → Requests ws frames
      → Ran (err e, frames)

Asked-Complete :
    (s t u : Modem)
    → s.outbox ≡ []
    → Talk (unlock false 0) mode_asked s t
    → Asked t u
    → (ws : List String) × Complete ws × Requests ws u.outbox
Asked-Complete s t u empty (ws, frames, steps, reqs, out) (body, (frame, e, out', _, _)) = (
  ws ++ ("UtaSysGetInfo" ∷ []),
  (ws, steps, refl),
  rw (out' ∙ ap (λ fs. fs ++ (frame ∷ [])) (out ∙ ap (λ fs. fs ++ frames) empty))
      (Requests-append reqs (sent (body, false, e) none_sent)),
)

Talk-Steps :
    (s t : Modem) (q : Stage)
    → s.outbox ≡ []
    → Talk (unlock false 0) q s t
    → (ws : List String) × Steps (unlock false 0) ws q × Requests ws t.outbox
Talk-Steps s t q empty (ws, frames, steps, reqs, out) =
    (ws, steps, rw (out ∙ ap (λ fs. fs ++ frames) empty) reqs)

module _ (sha256 : Bytes → Bytes) where
  -- The last call, from where the mode was asked for.
  last_call :
      (s t : Modem) (r : Result Field × Modem)
      → s.outbox ≡ []
      → Talk (unlock false 0) mode_asked s t
      → Holds (λ _ u. Asked t u) (λ u. Asked t u ⊎ (u ≡ t)) r
      → Ran (r.0, r.1.outbox)
  last_call s t (ok v, u) empty talk (gave h) =
      let (ws, all, reqs) = Asked-Complete s t u empty talk h in finished all reqs
  last_call s t (err e, u) empty talk (threw ne (inl h)) =
      let (ws, all, reqs) = Asked-Complete s t u empty talk h in ended ne (inr all) reqs
  last_call s t (err e, u) empty talk (threw ne (inr same)) =
      let (ws, steps, reqs) = Talk-Steps s t mode_asked empty talk in
      ended ne (inl (mode_asked, steps)) (rw same reqs)

  main-Ran : (s : Modem) → s.outbox ≡ [] → let r = main sha256 s in Ran (r.0, r.1.outbox)
  unfolding main
  main-Ran s empty = from (prepare sha256 s) (prepare-Follows sha256 s)
    where
      from :
          (r : Result (Unit {0}) × Modem)
          → Holds
              (λ _ t. (q : Stage) × (q ≡ mode_asked) × Talk (unlock false 0) q s t)
              (λ t. (q : Stage) × Anywhere q × Talk (unlock false 0) q s t)
              r
          → let r' = step r (λ _. uta_sys_get_info 0) in Ran (r'.0, r'.1.outbox)
      from (ok _, t) (gave (q, e, talk)) =
          last_call s t (uta_sys_get_info 0 t) empty
            (subst (λ z. Talk (unlock false 0) z s t) e talk) (uta_sys_get_info-Holds 0 t)
      from (err e, t) (threw ne (q, _, talk)) =
          let (ws, steps, reqs) = Talk-Steps s t q empty talk in ended ne (inl (q, steps)) reqs

-- The first of the files that is there.
abbrev pub Chosen : (String → Bool) → List String → String → Type 0
Chosen exists interfaces file =
    (before after : List String) × (interfaces ≡ before ++ (file ∷ after))
    × All (λ i. exists i ≡ false) before
    × (exists file ≡ true)

select_interface-Chosen :
    (exists : String → Bool) (interfaces : List String) (file : String)
    → select_interface exists interfaces ≡ some file
    → Chosen exists interfaces file
unfolding select_interface
select_interface-Chosen exists [] file e = cc
select_interface-Chosen exists (i ∷ interfaces) file e = elim (Bool-cases (exists i)) [
  | inl here ↦
      let same : i ≡ file = cc (rw here at e) in
      ([], interfaces, ap (λ f. f ∷ interfaces) same, tt, ap exists (sym same) ∙ here)
  | inr other ↦
      let (before, after, split, none_there, there) =
        select_interface-Chosen exists interfaces file (rw other at e) in
      (i ∷ before, after, ap (λ is. i ∷ is) split, (other, none_there), there)
]

-- Nothing was written, or the first file that is there was opened.
abbrev pub Opened : (String → Bool) → (String → Result (List Bytes)) → List Bytes → Type 0
Opened exists os_open frames =
    (frames ≡ [])
    ⊎ ((file : String) × (inbox : List Bytes) × Chosen exists default_interfaces file
        × (os_open file ≡ ok inbox))

-- Where no file is refused with the model’s own exception: the script never runs out of fuel, and
-- what it writes to the device is the requests of the bring-up’s protocol up to some stage. If it
-- ends without an exception, they lead up to the mode, and the question for the version follows.
-- Nothing is written unless the first file of the two that is there could be opened.
pub script-Ran :
    (sha256 : Bytes → Bytes) (exists : String → Bool) (os_open : String → Result (List Bytes))
    → ((file : String) → os_open file ≢ err out_of_fuel)
    → Ran (script sha256 exists os_open) × Opened exists os_open (script sha256 exists os_open).1
unfolding script
script-Ran sha256 exists os_open lawful = from (select_interface exists default_interfaces) refl
  where
    on_opened :
        (file : String) (r : Result (List Bytes))
        → r ≢ err out_of_fuel
        → Chosen exists default_interfaces file
        → os_open file ≡ r
        → let out = on_device sha256 (opened r) in Ran out × Opened exists os_open out.1
    on_opened file (ok inbox) ne chosen e = (main-Ran sha256 _ refl, inr (file, inbox, chosen, e))
    on_opened file (err x) ne chosen e =
        (ended (λ same. ne (cc)) (inl (unlock false 0, stay _)) none_sent, inl refl)

    from :
        (found : Option String)
        → select_interface exists default_interfaces ≡ found
        → let out = on_device sha256 (open_interface os_open found) in
          Ran out × Opened exists os_open out.1
    from none e = (ended (λ e. cc) (inl (unlock false 0, stay _)) none_sent, inl refl)
    from (some file) e =
        on_opened file (os_open file) (lawful file)
          (select_interface-Chosen exists default_interfaces file e) refl
