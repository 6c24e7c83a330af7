-- ===== src/Trace/Log/Lines.antt =====
-- What `log` prints: the tests for the three texts, and what `strip` takes away.
use xmm7360_mvp.Prelude.{
  ℕ, ◌==◌, ==_iff, ◌≡◌, ◌↔◌, ◌⊎◌, refl, ap, sym, ◌∙◌, true, false, Bool-cases, inl, inr, some, List,
  [], ◌∷◌, ◌++◌, append-nil, reverse, reverse-append, reverse-reverse, All, All-reverse, codes,
}
use mathlib.Core.Path.{subst}
use xmm7360_mvp.Bytes.{starts_with}
use xmm7360_mvp.Bytes.Laws.{starts_with-append}
use xmm7360_mvp.Trace.Printf.{is_space}
use xmm7360_mvp.Trace.Log.{contains, strip_left, strip, is_noise, log}

-- A text that stands somewhere in another.
abbrev pub Occurs : List ℕ → List ℕ → Type 0
Occurs sub msg = (before after : List ℕ) × (msg ≡ before ++ (sub ++ after))

starts_with-rest :
    (sub msg : List ℕ) → starts_with sub msg ≡ true → (after : List ℕ) × (msg ≡ sub ++ after)
unfolding starts_with
starts_with-rest [] msg h = (msg, refl)
starts_with-rest (p ∷ ps) [] h = cc
starts_with-rest (p ∷ ps) (c ∷ msg) h = elim (Bool-cases (p == c)) [
  | inl same ↦
      let (after, e) = starts_with-rest ps msg (rw same at h) in
      (after, rw ((==_iff p c).0 same) (ap (λ r. c ∷ r) e))
  | inr other ↦ cc (rw other at h)
]

contains-Occurs : (sub msg : List ℕ) → contains sub msg ≡ true → Occurs sub msg
unfolding contains
contains-Occurs sub [] h = let (after, e) = starts_with-rest sub [] h in ([], after, e)
contains-Occurs sub (c ∷ msg) h = elim (Bool-cases (starts_with sub (c ∷ msg))) [
  | inl here ↦ (let (after, e) = starts_with-rest sub (c ∷ msg) here in ([], after, e))
  | inr later ↦
      let (before, after, e) = contains-Occurs sub msg (rw later at h) in
      (c ∷ before, after, ap (λ r. c ∷ r) e)
]

contains-start : (sub msg : List ℕ) → starts_with sub msg ≡ true → contains sub msg ≡ true
unfolding contains
contains-start sub [] h = h
contains-start sub (c ∷ msg) h = rw h refl

contains-append : (before sub after : List ℕ) → contains sub (before ++ (sub ++ after)) ≡ true
unfolding contains
contains-append [] sub after = contains-start sub (sub ++ after) (starts_with-append sub after)
contains-append (c ∷ before) sub after =
    elim (Bool-cases (starts_with sub (c ∷ (before ++ (sub ++ after))))) [
      | inl here ↦ rw here refl
      | inr later ↦ rw (later, contains-append before sub after) refl
    ]

Occurs-contains : (sub msg : List ℕ) → contains sub msg ≡ false → ¬ Occurs sub msg
Occurs-contains sub msg h (before, after, e) =
    cc (sym h ∙ ap (contains sub) e ∙ contains-append before sub after)

-- Which message is left out.
abbrev pub IsNoise : List ℕ → Type 0
IsNoise msg =
    Occurs (codes "shm_sensor") msg
    ⊎ (Occurs (codes "store_metric") msg ⊎ Occurs (codes "[ME]") msg)

is_noise-IsNoise :
    (msg : List ℕ)
    → ((is_noise msg ≡ true) × IsNoise msg) ⊎ ((is_noise msg ≡ false) × (¬ IsNoise msg))
is_noise-IsNoise msg = elim (Bool-cases (contains (codes "shm_sensor") msg)) [
  | inl a ↦ inl (rw a refl, inl (contains-Occurs (codes "shm_sensor") msg a))
  | inr a ↦ (elim (Bool-cases (contains (codes "store_metric") msg)) [
    | inl b ↦ inl (rw (a, b) refl, inr (inl (contains-Occurs (codes "store_metric") msg b)))
    | inr b ↦ (elim (Bool-cases (contains (codes "[ME]") msg)) [
      | inl c ↦ inl (rw (a, b, c) refl, inr (inr (contains-Occurs (codes "[ME]") msg c)))
      | inr c ↦ inr (
        rw (a, b, c) refl,
        λ noise. elim noise [
          | inl x ↦ Occurs-contains (codes "shm_sensor") msg a x
          | inr (inl y) ↦ Occurs-contains (codes "store_metric") msg b y
          | inr (inr z) ↦ Occurs-contains (codes "[ME]") msg c z
        ],
      )
    ])
  ])
]

abbrev pub AreSpaces : List ℕ → Type 0
AreSpaces cs = All (λ c. is_space c ≡ true) cs

-- A text without a space at its beginning.
abbrev pub Begins : List ℕ → Type 0
Begins [] = Unit
Begins (c ∷ cs) = is_space c ≡ false

-- The part of a text that is left without the spaces at both ends.
abbrev pub Stripped : List ℕ → List ℕ → Type 0
Stripped msg line =
    (before after : List ℕ) × (msg ≡ before ++ (line ++ after))
    × AreSpaces before
    × AreSpaces after
    × Begins line
    × Begins (reverse line)

strip_left-split :
    (msg : List ℕ)
    → (before : List ℕ) × (msg ≡ before ++ strip_left msg)
      × AreSpaces before
      × Begins (strip_left msg)
unfolding strip_left
strip_left-split [] = ([], refl, tt, tt)
strip_left-split (c ∷ msg) = elim (Bool-cases (is_space c)) [
  | inl space ↦
      let (before, e, h, plain) = strip_left-split msg in
      rw space (c ∷ before, ap (λ r. c ∷ r) e, (space, h), plain)
  | inr other ↦ rw other ([], refl, tt, other)
]

strip_left-append :
    (before msg : List ℕ) → AreSpaces before → strip_left (before ++ msg) ≡ strip_left msg
unfolding strip_left
strip_left-append [] msg h = refl
strip_left-append (c ∷ before) msg (space, h) = rw space (strip_left-append before msg h)

strip_left-Begins : (msg : List ℕ) → Begins msg → strip_left msg ≡ msg
unfolding strip_left
strip_left-Begins [] h = refl
strip_left-Begins (c ∷ msg) h = rw h refl

strip_left-middle :
    (line after : List ℕ)
    → Begins line
    → AreSpaces after
    → (rest : List ℕ) × (strip_left (line ++ after) ≡ line ++ rest) × AreSpaces rest
strip_left-middle [] after h spaces = (
  [],
  ap strip_left (sym (append-nil after))
      ∙ strip_left-append after [] spaces
      ∙ strip_left-Begins [] tt,
  tt,
)
strip_left-middle (c ∷ line) after h spaces =
    (after, strip_left-Begins (c ∷ (line ++ after)) h, spaces)

Begins-prefix : (line after : List ℕ) → Begins (line ++ after) → Begins line
Begins-prefix [] after h = tt
Begins-prefix (c ∷ line) after h = h

strip-Stripped : (msg : List ℕ) → Stripped msg (strip msg)
unfolding strip
strip-Stripped msg =
    let (before, e, spaces, begins) = strip_left-split msg in
    let left = strip_left msg in
    let (behind, e', spaces', begins') = strip_left-split (reverse left) in
    let kept = strip_left (reverse left) in
    let split : left ≡ reverse kept ++ reverse behind =
      sym (reverse-reverse left) ∙ ap reverse e' ∙ reverse-append behind kept in
    (
      before,
      reverse behind,
      e ∙ ap (λ r. before ++ r) split,
      spaces,
      All-reverse (λ c. is_space c ≡ true) behind spaces',
      Begins-prefix (reverse kept) (reverse behind) (rw split at begins),
      rw (reverse-reverse kept) begins',
    )

strip_unique : (msg line : List ℕ) → Stripped msg line → strip msg ≡ line
unfolding strip
strip_unique msg line (before, after, e, spaces, spaces', begins, ends) =
    let (rest, left, spaces'') = strip_left-middle line after begins spaces' in
    let right : strip_left (reverse (line ++ rest)) ≡ reverse line =
      ap strip_left (reverse-append line rest)
      ∙ strip_left-append (reverse rest) (reverse line)
          (All-reverse (λ c. is_space c ≡ true) rest spaces'')
      ∙ strip_left-Begins (reverse line) ends in
    ap (λ r. reverse (strip_left (reverse r)))
      (ap strip_left e ∙ strip_left-append before (line ++ after) spaces ∙ left)
    ∙ ap reverse right
    ∙ reverse-reverse line

-- A message is printed exactly if none of the three texts stands in it. The line is then the one part
-- of the message that has spaces only before and behind it, and none at its own ends.
pub log_iff : (msg line : List ℕ) → (log msg ≡ some line) ↔ ((¬ IsNoise msg) × Stripped msg line)
unfolding log
log_iff msg line = elim (is_noise-IsNoise msg) [
  | inl (noise, is) ↦ (λ e. cc (rw noise at e), λ (quiet, _). absurd (quiet is))
  | inr (quiet, is) ↦ rw quiet (
    λ e. let same : strip msg ≡ line = cc in (is, subst (Stripped msg) same (strip-Stripped msg)),
    λ (_, s). ap some (strip_unique msg line s),
  )
]
