-- ===== src/Rpc/Tables.antt =====
-- The two dictionaries: the numbers of the calls against the codes of the callbacks.
use xmm7360_mvp.Prelude.{
  ℕ, ◌<◌, ◌≡◌, refl, String, Bool, true, false, ◌&&◌, Option, none, some, List, [], ◌∷◌, ltb,
  ltb→lt, lookup_name, lookup_code, text_eq, Bool-cases, inl, inr,
}
use xmm7360_mvp.Rpc.CallIds.{call_ids}
use xmm7360_mvp.Rpc.UnsolTable.{xmm7360_unsol}

abbrev is_none {ℓ} : {A : Type ℓ} → Option A → Bool
is_none none = true
is_none (some a) = false

is_none→eq {ℓ} : {A : Type ℓ} (o : Option A) → is_none o ≡ true → o ≡ none
is_none→eq none h = refl
is_none→eq (some a) h = cc

-- A call's number is below 2000 and is the code of no callback.
abbrev good : ℕ → Bool
good n = ltb n 2000 && is_none (lookup_code n xmm7360_unsol)

all_good : List (String × ℕ) → Bool
unfolding lookup_code xmm7360_unsol
all_good [] = true
all_good ((k, v) ∷ table) = good v && all_good table

and_left : (a b : Bool) → (a && b) ≡ true → a ≡ true
and_left true b h = refl
and_left false b h = cc

and_right : (a b : Bool) → (a && b) ≡ true → b ≡ true
and_right true b h = h
and_right false b h = cc

some_eq : (a b : ℕ) → some a ≡ some b → a ≡ b
some_eq a b e = cc

lookup_name-good :
    (s : String) (table : List (String × ℕ)) (n : ℕ)
    → all_good table ≡ true
    → lookup_name s table ≡ some n
    → good n ≡ true
unfolding lookup_name all_good
lookup_name-good s [] n h e = cc
lookup_name-good s ((k, v) ∷ table) n h e = elim (Bool-cases (text_eq k s)) [
  | inl here ↦ rw (some_eq v n (rw here at e)) at (and_left (good v) (all_good table) h)
  | inr later ↦ lookup_name-good s table n (and_right (good v) (all_good table) h) (rw later at e)
]

call_ids_good : all_good call_ids ≡ true
unfolding all_good call_ids
call_ids_good = refl

-- Every call of the table has a number below 2000, the least that an answer to an asynchronous
-- request must have to be taken for a mere acknowledgement, and no callback has that number.
pub call_ids_apart :
    (s : String) (n : ℕ)
    → lookup_name s call_ids ≡ some n
    → (n < 2000) × (lookup_code n xmm7360_unsol ≡ none)
call_ids_apart s n e =
    let h = lookup_name-good s call_ids n call_ids_good e in
    (ltb→lt n 2000 (and_left (ltb n 2000) _ h), is_none→eq _ (and_right (ltb n 2000) _ h))
