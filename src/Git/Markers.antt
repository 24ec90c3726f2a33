-- ===== src/Git/Markers.antt =====
-- internal/git/merge.go: the conflict-marker blocks of a file, and the block that reports a
-- deletion on one side.
pub mod Ranges
use slivingdoc.Base.{
  ℕ, zero, suc, ◌+◌, Bool, true, false, Option, none, some, List, [], ◌∷◌, ◌++◌, ◌==◌, nat_eq,
  bytes_eq, Bytes, codes, onto_first, if◌then◌else◌, ends_with, trim_suffix_byte,
}

abbrev pub marker_open : Bytes
marker_open = codes "<<<<<<< local"

abbrev pub marker_sep : Bytes
marker_sep = codes "======="

abbrev pub marker_close : Bytes
marker_close = codes ">>>>>>> remote"

abbrev pub newline : ℕ
newline = 10

abbrev pub carriage_return : ℕ
carriage_return = 13

pub record MarkerRange : Type 0 where
  pub start : ℕ
  pub end : ℕ

-- The lines that the loop of `FindConflictBlocks` cuts off one by one, without their newlines.
unfoldable pub lines : Bytes → List Bytes
lines [] = []
lines (c ∷ cs) = let rest = lines cs in if c == newline then [] ∷ rest else onto_first c rest

-- The local variable `state`: 0, 1 and 2.
pub data ScanState : Type 0 where
  outside : ScanState
  opened : ScanState
  separated : ScanState

-- The variables of the loop.
pub record Scan : Type 0 where
  pub ranges : List MarkerRange
  pub start : ℕ
  pub state : ScanState
  pub row : ℕ

-- The cases of the `switch`, each with its test of `state`.
abbrev pub on_open : ScanState → Scan → Scan
on_open ScanState.outside s = record s { start = s.row; state = ScanState.opened }
on_open _ s = s

abbrev pub on_sep : ScanState → Scan → Scan
on_sep ScanState.opened s = record s { state = ScanState.separated }
on_sep _ s = s

abbrev pub on_close : ScanState → Scan → Scan
on_close ScanState.separated s = record s {
  ranges = s.ranges ++ record { start = s.start; end = s.row } ∷ [];
  state = ScanState.outside;
}
on_close _ s = s

unfoldable pub scan_text : Bytes → Scan → Scan
scan_text text s =
    if text == marker_open
    then on_open s.state s
    else if text == marker_sep
    then on_sep s.state s
    else if text == marker_close
    then on_close s.state s
    else s

-- One round of the loop on a line.
unfoldable pub scan_line : Bytes → Scan → Scan
scan_line line s =
    let s' = scan_text (trim_suffix_byte carriage_return line) s in record s' { row = s'.row + 1 }

unfoldable pub scan_lines : List Bytes → Scan → Scan
scan_lines [] s = s
scan_lines (l ∷ ls) s = scan_lines ls (scan_line l s)

abbrev pub scan_start : Scan
scan_start = record { ranges = []; start = 0; state = ScanState.outside; row = 1 }

unfoldable pub find_conflict_blocks : Bytes → List MarkerRange
find_conflict_blocks contents = (scan_lines (lines contents) scan_start).ranges

-- `b.Write(side)`, and a newline where the side does not end in one.
unfoldable pub side_lines : Bytes → Bytes
side_lines side = if ends_with newline side then side else side ++ newline ∷ []

unfoldable pub format_delete_conflict : Bytes → Bytes → Bytes
format_delete_conflict local remote =
    marker_open
    ++ (newline
        ∷ (side_lines local
            ++ (marker_sep ++ (newline ∷ (side_lines remote ++ (marker_close ++ newline ∷ []))))))
