-- ===== src/Recovery/Wordlist.antt =====
-- internal/recovery/code.go: the binary search of a word. The list of words is an argument.
pub mod Search
pub mod Ordered
use slivingdoc.Base.{
  ℕ, zero, suc, ◌+◌, ◌/◌, ◌-◌, Option, none, some, List, Bytes, length, get_elem?, ltb, bytes_less,
  ◌==◌, bytes_eq, if◌then◌else◌,
}

-- What one turn of the loop decides: a position, the end of the search, or the narrowed range.
pub data Turn : Type 0 where
  found : ℕ → Turn
  missed : Turn
  narrowed : (lo end : ℕ) → Turn

abbrev pub midpoint : (lo end : ℕ) → ℕ
midpoint lo end = (lo + (end - 1)) / 2

unfoldable pub compared : Bytes → (lo mid end : ℕ) → Option Bytes → Turn
compared word lo mid end none = Turn.missed
compared word lo mid end (some w) =
    if w == word
    then Turn.found mid
    else if bytes_less w word
    then Turn.narrowed (mid + 1) end
    else Turn.narrowed lo mid

-- The range ends before `end`, which is `hi + 1`: `hi` may be -1 in the source.
unfoldable pub turn : List Bytes → Bytes → (lo end : ℕ) → Turn
turn words word lo end =
    if ltb lo end
    then compared word lo (midpoint lo end) end (get_elem? words (midpoint lo end))
    else Turn.missed

unfoldable pub resumed : (again : ℕ → ℕ → Option ℕ) → Turn → Option ℕ
resumed again (Turn.found i) = some i
resumed again Turn.missed = none
resumed again (Turn.narrowed lo end) = again lo end

unfoldable pub search_word : List Bytes → Bytes → (fuel lo end : ℕ) → Option ℕ
search_word words word zero lo end = none
search_word words word (suc n) lo end = resumed (search_word words word n) (turn words word lo end)

-- A range of as many words as the list has takes at most that many turns.
unfoldable pub index : List Bytes → Bytes → Option ℕ
index words word = search_word words word (length words) 0 (length words)
