-- ===== src/Git/Markers/Ranges.antt =====
-- The ranges that `FindConflictBlocks` reports: in order, apart, and inside the file.
use slivingdoc.Base.{
  ℕ, ◌+◌, ◌≤◌, ◌≡◌, refl, List, [], ◌∷◌, ◌++◌, ◌==◌, bytes_eq, Bytes, length, if_both, sym, ap,
  arith, if◌then◌else◌, trim_suffix_byte,
}
use mathlib.Core.Path.{subst}
use slivingdoc.Git.Markers.{
  MarkerRange, ScanState, Scan, on_open, on_sep, on_close, scan_text, scan_line, scan_lines,
  scan_start, lines, find_conflict_blocks, marker_open, marker_sep, marker_close, carriage_return,
}

-- Ranges one behind another: each has its three marker lines and ends before the next starts.
abbrev pub AreBlocks : ℕ → List MarkerRange → ℕ → Type 0
AreBlocks from [] to = from ≤ to
AreBlocks from (r ∷ rs) to = (from ≤ r.start) × (r.start + 2 ≤ r.end) × AreBlocks (r.end + 1) rs to

AreBlocks-snoc :
    (from : ℕ) (rs : List MarkerRange) (mid : ℕ) (r : MarkerRange) (to : ℕ)
    → AreBlocks from rs mid
    → mid ≤ r.start
    → r.start + 2 ≤ r.end
    → r.end + 1 ≤ to
    → AreBlocks from (rs ++ r ∷ []) to
AreBlocks-snoc from [] mid r to h a b c = (omega arith, b, c)
AreBlocks-snoc from (x ∷ rs) mid r to h a b c =
    (h.0, h.1, AreBlocks-snoc (x.end + 1) rs mid r to h.2 a b c)

AreBlocks-grow :
    (from : ℕ) (rs : List MarkerRange) (to to' : ℕ)
    → AreBlocks from rs to
    → to ≤ to'
    → AreBlocks from rs to'
AreBlocks-grow from [] to to' h le = omega arith
AreBlocks-grow from (x ∷ rs) to to' h le = (h.0, h.1, AreBlocks-grow (x.end + 1) rs to to' h.2 le)

-- What holds between two rounds: the blocks found so far end at `done`, and an open block started
-- at or behind it, with a row for each marker met.
abbrev Pending : ScanState → ℕ → ℕ → ℕ → Type 0
Pending ScanState.outside done start row = done ≤ row
Pending ScanState.opened done start row = (done ≤ start) × (start + 1 ≤ row)
Pending ScanState.separated done start row = (done ≤ start) × (start + 2 ≤ row)

abbrev IsScan : ScanState → Scan → Type 0
IsScan st s = (done : ℕ) × AreBlocks 1 s.ranges done × Pending st done s.start s.row

abbrev next : Scan → Scan
next s = record s { row = s.row + 1 }

next-IsScan : (st : ScanState) (s : Scan) → IsScan st s → IsScan st (next s)
next-IsScan ScanState.outside s (done, found, p) = (done, found, omega arith)
next-IsScan ScanState.opened s (done, found, p) = (done, found, (p.0, omega arith))
next-IsScan ScanState.separated s (done, found, p) = (done, found, (p.0, omega arith))

unchanged-IsScan :
    (st : ScanState) (s : Scan) → s.state ≡ st → IsScan st s → IsScan s.state (next s)
unchanged-IsScan st s at h = subst (λ t. IsScan t (next s)) (sym at) (next-IsScan st s h)

on_open-IsScan :
    (st : ScanState) (s : Scan)
    → s.state ≡ st
    → IsScan st s
    → IsScan (on_open st s).state (next (on_open st s))
on_open-IsScan ScanState.outside s at (done, found, p) = (done, found, (p, omega arith))
on_open-IsScan ScanState.opened s at h = unchanged-IsScan ScanState.opened s at h
on_open-IsScan ScanState.separated s at h = unchanged-IsScan ScanState.separated s at h

on_sep-IsScan :
    (st : ScanState) (s : Scan)
    → s.state ≡ st
    → IsScan st s
    → IsScan (on_sep st s).state (next (on_sep st s))
on_sep-IsScan ScanState.opened s at (done, found, p) = (done, found, (p.0, omega arith))
on_sep-IsScan ScanState.outside s at h = unchanged-IsScan ScanState.outside s at h
on_sep-IsScan ScanState.separated s at h = unchanged-IsScan ScanState.separated s at h

on_close-IsScan :
    (st : ScanState) (s : Scan)
    → s.state ≡ st
    → IsScan st s
    → IsScan (on_close st s).state (next (on_close st s))
on_close-IsScan ScanState.separated s at (done, found, p) =
    let block : MarkerRange = record { start = s.start; end = s.row } in
    (
      s.row + 1,
      AreBlocks-snoc 1 s.ranges done block (s.row + 1) found p.0 p.1 (omega arith),
      omega arith,
    )
on_close-IsScan ScanState.outside s at h = unchanged-IsScan ScanState.outside s at h
on_close-IsScan ScanState.opened s at h = unchanged-IsScan ScanState.opened s at h

scan_text-IsScan :
    (text : Bytes) (s : Scan)
    → IsScan s.state s
    → IsScan (scan_text text s).state (next (scan_text text s))
unfolding scan_text
scan_text-IsScan text s h =
    let closed : Scan = if text == marker_close then on_close s.state s else s in
    let split : Scan = if text == marker_sep then on_sep s.state s else closed in
    if_both Kept (text == marker_open) (on_open s.state s) split (on_open-IsScan s.state s refl h) (
      if_both Kept (text == marker_sep) (on_sep s.state s) closed (on_sep-IsScan s.state s refl h) (
        if_both Kept (text == marker_close) (on_close s.state s) s
          (on_close-IsScan s.state s refl h) (next-IsScan s.state s h)))
  where
    Kept : Scan → Type 0
    Kept t = IsScan t.state (next t)

scan_line-IsScan :
    (line : Bytes) (s : Scan)
    → IsScan s.state s
    → IsScan (scan_line line s).state (scan_line line s)
unfolding scan_line
scan_line-IsScan line s h = scan_text-IsScan (trim_suffix_byte carriage_return line) s h

on_open-row : (st : ScanState) (s : Scan) → (on_open st s).row ≡ s.row
on_open-row ScanState.outside s = refl
on_open-row ScanState.opened s = refl
on_open-row ScanState.separated s = refl

on_sep-row : (st : ScanState) (s : Scan) → (on_sep st s).row ≡ s.row
on_sep-row ScanState.outside s = refl
on_sep-row ScanState.opened s = refl
on_sep-row ScanState.separated s = refl

on_close-row : (st : ScanState) (s : Scan) → (on_close st s).row ≡ s.row
on_close-row ScanState.outside s = refl
on_close-row ScanState.opened s = refl
on_close-row ScanState.separated s = refl

scan_line-row : (line : Bytes) (s : Scan) → (scan_line line s).row ≡ s.row + 1
unfolding scan_line scan_text
scan_line-row line s = text_row (trim_suffix_byte carriage_return line)
  where
    AtRow : Scan → Type 0
    AtRow t = t.row + 1 ≡ s.row + 1

    text_row : (text : Bytes) → AtRow (scan_text text s)
    text_row text =
        if_both AtRow (text == marker_open) (on_open s.state s)
          (if text == marker_sep
            then on_sep s.state s
            else if text == marker_close
            then on_close s.state s
            else s)
          (ap (λ n. n + 1) (on_open-row s.state s))
          (if_both AtRow (text == marker_sep) (on_sep s.state s)
            (if text == marker_close then on_close s.state s else s)
            (ap (λ n. n + 1) (on_sep-row s.state s))
            (if_both AtRow (text == marker_close) (on_close s.state s) s
              (ap (λ n. n + 1) (on_close-row s.state s)) refl))

scan_lines-row : (ls : List Bytes) (s : Scan) → (scan_lines ls s).row ≡ s.row + length ls
unfolding scan_lines
scan_lines-row [] s = omega arith
scan_lines-row (l ∷ ls) s = omega (arith, scan_lines-row ls (scan_line l s), scan_line-row l s)

scan_lines-IsScan :
    (ls : List Bytes) (s : Scan)
    → IsScan s.state s
    → IsScan (scan_lines ls s).state (scan_lines ls s)
unfolding scan_lines
scan_lines-IsScan [] s h = h
scan_lines-IsScan (l ∷ ls) s h = scan_lines-IsScan ls (scan_line l s) (scan_line-IsScan l s h)

done-row : (st : ScanState) (done start row : ℕ) → Pending st done start row → done ≤ row
done-row ScanState.outside done start row h = h
done-row ScanState.opened done start row h = omega (arith, h.0, h.1)
done-row ScanState.separated done start row h = omega (arith, h.0, h.1)

-- For every file content, the ranges of `find_conflict_blocks` follow one another without overlap:
-- each starts at row 1 or later and behind the end of the one before it, holds at least three
-- rows, and ends at or before the file's last row.
pub find_conflict_blocks-AreBlocks :
    (contents : Bytes) → AreBlocks 1 (find_conflict_blocks contents) (1 + length (lines contents))
unfolding find_conflict_blocks
find_conflict_blocks-AreBlocks contents =
    let final = scan_lines (lines contents) scan_start in
    let (done, found, pending) = scan_lines-IsScan (lines contents) scan_start start_IsScan in
    AreBlocks-grow 1 final.ranges done (1 + length (lines contents)) found (
      omega (
        arith,
        done-row final.state done final.start final.row pending,
        scan_lines-row (lines contents) scan_start,
      ))
  where
    start_IsScan : IsScan ScanState.outside scan_start
    start_IsScan = (1, omega arith, omega arith)
