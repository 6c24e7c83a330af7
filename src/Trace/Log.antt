-- ===== src/Trace/Log.antt =====
-- trace.py: `log`, and what the program prints.
pub mod Lines
pub mod Sent
use xmm7360_mvp.Prelude.{
  ℕ, Bool, true, false, ◌||◌, Option, none, some, List, [], ◌∷◌, reverse, codes, if◌then◌else◌,
}
use xmm7360_mvp.Result.{Error}
use xmm7360_mvp.Bytes.{Bytes, starts_with}
use xmm7360_mvp.Trace.{Entry, printed, formatted, run}
use xmm7360_mvp.Trace.Printf.{Argument, Tried, ascii, decode_ascii, is_space, decode_printf}

-- `sub in msg`
unfoldable pub contains : List ℕ → List ℕ → Bool
unfolding starts_with
contains sub [] = starts_with sub []
contains sub (c ∷ msg) = starts_with sub (c ∷ msg) || contains sub msg

unfoldable pub strip_left : List ℕ → List ℕ
strip_left [] = []
strip_left (c ∷ msg) = let rest = strip_left msg in if is_space c then rest else c ∷ msg

-- `msg.strip()`
unfoldable pub strip : List ℕ → List ℕ
unfolding strip_left
strip msg = reverse (strip_left (reverse (strip_left msg)))

-- The three tests, in their order.
abbrev pub is_noise : List ℕ → Bool
is_noise msg =
    contains (codes "shm_sensor") msg
    || contains (codes "store_metric") msg
    || contains (codes "[ME]") msg

-- What is printed, if anything is.
unfoldable pub log : List ℕ → Option (List ℕ)
unfolding contains strip
log msg = if is_noise msg then none else some (strip msg)

abbrev pub line : Option (List ℕ) → List (List ℕ) → List (List ℕ)
line none lines = lines
line (some l) lines = l ∷ lines

module _ (percent : List ℕ → List Argument → Tried (List ℕ)) where
  -- The text that `handle_packet` hands to `log`.
  unfoldable pub entry_text : Entry → List ℕ
  unfolding decode_printf
  entry_text (printed payload) = decode_ascii payload
  entry_text (formatted payload) = decode_printf percent payload

  unfoldable pub print_all : List Entry → List (List ℕ)
  unfolding log entry_text
  print_all [] = []
  print_all (e ∷ entries) = line (log (entry_text e)) (print_all entries)

  -- The program: the lines that it prints, and the exception that ended it.
  unfoldable pub output : List Bytes → List (List ℕ) × Option Error
  unfolding run print_all
  output reads = let (entries, ended) = run reads in (print_all entries, ended)
