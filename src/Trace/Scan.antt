-- ===== src/Trace/Scan.antt =====
-- The framing of the trace as a scanner that sees one byte after another and keeps no buffer of
-- reads, and what `find` finds.
use xmm7360_mvp.Prelude.{
  ℕ, ◌==◌, ==_iff, ◌≡◌, ◌≢◌, refl, ◌∙◌, false, none, some, List, [], ◌∷◌, ◌++◌, append_assoc,
  append-nil, All, if◌then◌else◌, ◌⊎◌, inl, inr, Bool-cases,
}
use xmm7360_mvp.Bytes.{Bytes}
use xmm7360_mvp.Trace.{flag, find_flag, keep}

-- No flag has been seen, or these bytes stand behind the last one.
pub data Scanner : Type 0 where
  searching : Scanner
  inside : Bytes → Scanner

abbrev pub see : Scanner → ℕ → List Bytes × Scanner
see searching b = ([], if b == flag then inside [] else searching)
see (inside acc) b = if b == flag then (keep acc [], inside []) else ([], inside (acc ++ (b ∷ [])))

unfoldable pub scan : Scanner → Bytes → List Bytes × Scanner
scan st [] = ([], st)
scan st (b ∷ bs) =
    let (out, st') = see st b in let (more, st'') = scan st' bs in (out ++ more, st'')

abbrev pub NoFlag : Bytes → Type 0
NoFlag bs = All (λ b. b ≢ flag) bs

not_flag : (b : ℕ) → b ≢ flag → (b == flag) ≡ false
not_flag b h = elim (Bool-cases (b == flag)) [
  | inl here ↦ absurd (h ((==_iff b flag).0 here))
  | inr other ↦ other
]

pub scan-append :
    (st : Scanner) (xs ys : Bytes)
    → scan st (xs ++ ys)
      ≡ ((scan st xs).0 ++ (scan (scan st xs).1 ys).0, (scan (scan st xs).1 ys).1)
unfolding scan
scan-append st [] ys = refl
scan-append st (x ∷ xs) ys =
    rw
      (
        scan-append (see st x).1 xs ys,
        append_assoc (see st x).0 (scan (see st x).1 xs).0 (scan (scan (see st x).1 xs).1 ys).0,
      )
      refl

pub scan-inside :
    (acc p ys : Bytes) → NoFlag p → scan (inside acc) (p ++ ys) ≡ scan (inside (acc ++ p)) ys
unfolding scan
scan-inside acc [] ys h = rw (append-nil acc) refl
scan-inside acc (b ∷ p) ys (hb, hp) =
    rw (not_flag b hb)
      (scan-inside (acc ++ (b ∷ [])) p ys hp ∙ rw (append_assoc acc (b ∷ []) p) refl)

pub scan-searching : (p ys : Bytes) → NoFlag p → scan searching (p ++ ys) ≡ scan searching ys
unfolding scan
scan-searching [] ys h = refl
scan-searching (b ∷ p) ys (hb, hp) = rw (not_flag b hb) (scan-searching p ys hp)

-- What stands in front of the first flag holds none, and the flag is the first byte of the rest.
abbrev pub Found : Bytes → Type 0
Found bs =
    (p : Bytes) × (r : Bytes) × NoFlag p
    × (bs ≡ p ++ (flag ∷ r))
    × (find_flag bs ≡ some (p, flag ∷ r))

pub find_flag-cases : (bs : Bytes) → (NoFlag bs × (find_flag bs ≡ none)) ⊎ Found bs
unfolding find_flag
find_flag-cases [] = inl (tt, refl)
find_flag-cases (b ∷ bs) = elim (Bool-cases (b == flag)) [
  | inl here ↦ (let e = (==_iff b flag).0 here in inr ([], bs, tt, rw e refl, rw (here, e) refl))
  | inr other ↦ (elim (find_flag-cases bs) [
    | inl (none_in, e) ↦ inl (((λ h. cc), none_in), rw (other, e) refl)
    | inr (p, r, hp, parts, e) ↦
        inr (b ∷ p, r, ((λ h. cc), hp), rw (← parts) refl, rw (other, e) refl)
  ])
]
