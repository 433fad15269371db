-- ===== src/Daemon/Log.antt =====
-- Reading the end of the daemon's log (`tail_daemon_log` of server/daemon.py).
use coda_node.Prelude.{
  ℕ, zero, suc, ◌-◌, min, ◌≡◌, refl, ap, ◌∙◌, Bool, true, List, [], ◌∷◌, ◌++◌, length, take, drop,
  if◌then◌else◌, splitlines, ℤ, pos, negsuc, arith, not,
}
use coda_node.Exec.{connection, Result, ok, err}

abbrev pub Text : Type 0
Text = List ℕ

-- `all_lines[-lines:]`, where -0 is 0
abbrev pub last_lines : ℤ → List Text → List Text
last_lines (pos zero) all_lines = all_lines
last_lines (pos (suc n)) all_lines = drop (length all_lines - suc n) all_lines
last_lines (negsuc n) all_lines = drop (suc n) all_lines

-- `"\n".join(lines)`
unfoldable pub join_lines : List Text → Text
join_lines [] = []
join_lines (l ∷ ls) = let rest = join_lines ls in elim ls [ [] ↦ l | _ ∷ _ ↦ l ++ b'\n' ∷ rest ]

abbrev pub tail_of : ℤ → Result Text → Result Text
tail_of lines (ok content) = ok (join_lines (last_lines lines (splitlines content)))
tail_of lines (err (connection e)) = ok []
tail_of lines (err e) = err e

-- tail_daemon_log, where the log exists or not, and reading it comes to a text
unfoldable pub tail_daemon_log : Bool → Result Text → ℤ → Result Text
tail_daemon_log exists content lines = if not exists then ok [] else tail_of lines content

take-drop : (n : ℕ) (ls : List Text) → take n ls ++ drop n ls ≡ ls
take-drop zero ls = refl
take-drop (suc n) [] = refl
take-drop (suc n) (l ∷ ls) = ap (λ ks. l ∷ ks) (take-drop n ls)

length-drop : (n : ℕ) (ls : List Text) → length (drop n ls) ≡ length ls - n
length-drop zero ls = omega arith
length-drop (suc n) [] = omega arith
length-drop (suc n) (l ∷ ls) = length-drop n ls ∙ omega arith

-- The last `n` lines, or all if there are fewer.
abbrev pub LastLines : ℕ → List Text → List Text → Type 0
LastLines n all_lines shown =
    ((before : List Text) × (before ++ shown ≡ all_lines))
    × (length shown ≡ min n (length all_lines))

last_lines-LastLines :
    (n : ℕ) (all_lines : List Text)
    → LastLines (suc n) all_lines (last_lines (pos (suc n)) all_lines)
last_lines-LastLines n all_lines = (
  (take (length all_lines - suc n) all_lines, take-drop (length all_lines - suc n) all_lines),
  length-drop (length all_lines - suc n) all_lines ∙ omega arith,
)

-- The text that is shown of a log, for a positive number of lines, is its last lines, so many or all
-- if there are fewer, joined by line feeds; for no lines it is the whole log.
pub tail_daemon_log-LastLines :
    (content : Text) (n : ℕ)
    → ((shown : List Text) × LastLines (suc n) (splitlines content) shown
        × (tail_daemon_log true (ok content) (pos (suc n)) ≡ ok (join_lines shown)))
      × (tail_daemon_log true (ok content) (pos 0) ≡ ok (join_lines (splitlines content)))
unfolding tail_daemon_log
tail_daemon_log-LastLines content n = (
  (
    last_lines (pos (suc n)) (splitlines content),
    last_lines-LastLines n (splitlines content),
    refl,
  ),
  refl,
)
