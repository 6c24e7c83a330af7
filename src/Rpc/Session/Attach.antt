-- ===== src/Rpc/Session/Attach.antt =====
-- What makes `attach_allowed` change.
use xmm7360_mvp.Prelude.{◌≡◌, ◌≢◌, refl, ap, ◌∙◌, true, List, [], ◌∷◌, Bool-cases, inl, inr, ◌⊎◌}
use xmm7360_mvp.Result.{Result, ok}
use xmm7360_mvp.Bytes.{Bytes}
use xmm7360_mvp.Rpc.Take.{Field}
use xmm7360_mvp.Rpc.Message.{Response, Kind, unsolicited, handle_unsolicited, unsol_is, field_at}
use xmm7360_mvp.Rpc.Message.Ends.{handle_message-Ends, handle_unsolicited-Ends, format_unknown-Ends}
use xmm7360_mvp.Rpc.Session.{Modem, pump, note_unsolicited, read, read_from}
use xmm7360_mvp.Rpc.Session.Effects.{Holds, gave, threw, Holds-step, Holds-lift, Holds-ok}

-- The notice that says whether attaching is allowed.
abbrev pub Notifies : Response → Field → Type 0
Notifies r allowed =
    (r.kind ≡ unsolicited)
    × (unsol_is "UtaMsNetIsAttachAllowedIndCb" r.code ≡ true)
    × (field_at 2 r.content ≡ ok allowed)

abbrev Keeps : Modem → Response → Modem → Type 0
Keeps s r t = (t.attach_allowed ≡ s.attach_allowed) ⊎ Notifies r t.attach_allowed

handled :
    (r : Response) (old new : Field)
    → r.kind ≡ unsolicited
    → handle_unsolicited r old ≡ ok new
    → (new ≡ old) ⊎ Notifies r new
unfolding handle_unsolicited
handled r old new k e = elim (Bool-cases (unsol_is "UtaMsNetIsAttachAllowedIndCb" r.code)) [
  | inl notice ↦ inr (k, notice, rw notice at e)
  | inr other ↦ let same : Result.ok old ≡ ok new = rw other at e in inl (cc same)
]

abbrev Whatever : Modem → Type 0
Whatever t = Unit

read-attach : (s : Modem) → Holds (λ m t. t.attach_allowed ≡ s.attach_allowed) Whatever (read s)
unfolding read
read-attach s = from s.inbox
  where
    from :
        (ms : List Bytes)
        → Holds (λ m t. t.attach_allowed ≡ s.attach_allowed) Whatever (read_from ms s)
    from [] = threw (λ h. cc) tt
    from (m ∷ ms) = gave refl

note_unsolicited-Keeps :
    (kind : Kind) (r : Response) (s : Modem)
    → r.kind ≡ kind
    → Holds (λ _ t. Keeps s r t) Whatever (note_unsolicited kind r s)
unfolding note_unsolicited
note_unsolicited-Keeps unsolicited r s k =
    Holds-step {P = λ allowed t. (allowed ≡ s.attach_allowed) ⊎ Notifies r allowed}
      (Holds-lift (handle_unsolicited-Ends r s.attach_allowed)
        (λ allowed e. handled r s.attach_allowed allowed k e) tt)
      λ allowed t h. gave h
note_unsolicited-Keeps _ r s k = gave (inl refl)

pump-Keeps : (s : Modem) → Holds (Keeps s) Whatever (pump s)
unfolding pump
pump-Keeps s = Holds-step (read-attach s) λ m t e.
    Holds-step {P = λ _ u. u ≡ t} (Holds-lift (handle_message-Ends m) (λ _ _. refl) tt) λ r u same.
      Holds-step (note_unsolicited-Keeps r.kind r u refl) λ _ v kept.
        Holds-step {P = λ _ w. w ≡ v} (Holds-lift (format_unknown-Ends r.body) (λ _ _. refl) tt)
          λ _ w same'. gave (rw same' (carry r t u v e same kept))
  where
    carry :
        (r : Response) (t u v : Modem)
        → t.attach_allowed ≡ s.attach_allowed
        → u ≡ t
        → Keeps u r v
        → Keeps s r v
    carry r t u v e same (inl h) = inl (h ∙ ap (λ (w : Modem). w.attach_allowed) same ∙ e)
    carry r t u v e same (inr h) = inr h

-- Where `pump` returns and `attach_allowed` has changed, the message was an unsolicited one with the
-- code of UtaMsNetIsAttachAllowedIndCb, and the new value is its third field.
pub pump_attach_allowed :
    (s t : Modem) (r : Response)
    → pump s ≡ (ok r, t)
    → t.attach_allowed ≢ s.attach_allowed
    → (r.kind ≡ unsolicited)
      × (unsol_is "UtaMsNetIsAttachAllowedIndCb" r.code ≡ true)
      × (field_at 2 r.content ≡ ok t.attach_allowed)
pump_attach_allowed s t r e changed = changed_by (Holds-ok (pump-Keeps s) e)
  where
    changed_by : Keeps s r t → Notifies r t.attach_allowed
    changed_by (inl same) = absurd (changed same)
    changed_by (inr notice) = notice
