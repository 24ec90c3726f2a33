-- ===== src/Git/Samples.antt =====
-- Sample paths, policies and contents for internal/git.
use slivingdoc.Base.{
  ◌+◌, ◌≤◌, ◌≡◌, ◌↔◌, refl, true, List, [], ◌∷◌, Bytes, codes, map, length, ok, All, split, ◌∷◌,
  bytes_beq, has_prefix, ends_with, runes, has_byte, before, trim_suffix_byte,
}
use slivingdoc.Git.Path.{
  TextLibrary, to_lower, to_upper, is_windows_device_name, is_control, check_runes,
  validate_segment, validate_segments, validate_path,
}
use slivingdoc.Git.Path.Segments.{IsText, IsSegment, validate_path-segments}
use slivingdoc.Git.Entries.{
  EntryItem, validate_entries, set_of, collapse_entries, keep_entries, is_redundant,
  is_entry_ancestor, entry_between, has_folded, sort_entries, insert_entry,
}
use slivingdoc.Git.Policy.{PathPolicy, new_policy, protects, collapsed, overlapping}
use slivingdoc.Git.Policy.Decides.{Protected}
use slivingdoc.Git.Policy.Lossless.{new_policy-protects}
use slivingdoc.Git.Policy.Rebuild.{rebuild-protects}
use slivingdoc.Git.Markers.{find_conflict_blocks, lines}
use slivingdoc.Git.Markers.Ranges.{AreBlocks, find_conflict_blocks-AreBlocks}
use slivingdoc.Base.{arith, ◌⊎◌, In, lookup, contains, false}
use slivingdoc.Git.Path.{validate_content}
use slivingdoc.Git.Snapshot.{
  File, Snapshot, directories, file_directory_collision, first_below, exact_file, check_files,
  validate_snapshot,
}
use slivingdoc.Git.Snapshot.Apart.{IsFile, AreApart, validate_snapshot-AreApart}
use slivingdoc.Git.Pin.{covers_path, pin}
use slivingdoc.Git.Pin.Holds.{pin-In}

-- Case folding of ASCII.
abbrev ascii_text : TextLibrary
ascii_text = record { fold = map to_lower; is_nfc = λ s. true }

abbrev sample_conflict : Bytes
sample_conflict = codes "a\n<<<<<<< local\nb\n=======\nc\n>>>>>>> remote\n"

find_conflict_blocks-AreBlocks_example :
    AreBlocks 1 (find_conflict_blocks sample_conflict) (1 + length (lines sample_conflict))
find_conflict_blocks-AreBlocks_example = find_conflict_blocks-AreBlocks sample_conflict

sample_path : validate_path ascii_text (codes "docs/a.md") ≡ ok tt
unfolding validate_path validate_segments validate_segment check_runes is_control
    is_windows_device_name to_lower to_upper split ends_with has_prefix has_byte runes before
    bytes_beq trim_suffix_byte
sample_path = refl

validate_path-segments_example :
    (9 ≤ 4096)
    × IsText (codes "docs/a.md")
    × (true ≡ true)
    × All IsSegment (codes "docs" ∷ codes "a.md" ∷ [])
unfolding split
validate_path-segments_example = validate_path-segments ascii_text (codes "docs/a.md") sample_path

abbrev read_only_entries : List EntryItem
read_only_entries = record { raw = codes "docs"; folded = codes "docs" } ∷ []

abbrev writable_entries : List EntryItem
writable_entries = record { raw = codes "docs/Open"; folded = codes "docs/open" } ∷ []

abbrev sample_policy : PathPolicy
sample_policy = record { read_only = set_of read_only_entries; writable = set_of writable_entries }

read_only_valid : validate_entries ascii_text (codes "docs" ∷ []) ≡ ok read_only_entries
unfolding validate_entries validate_path validate_segments validate_segment check_runes is_control
    is_windows_device_name to_lower to_upper split ends_with has_prefix has_byte runes before
    bytes_beq trim_suffix_byte
read_only_valid = refl

writable_valid : validate_entries ascii_text (codes "docs/Open" ∷ []) ≡ ok writable_entries
unfolding validate_entries validate_path validate_segments validate_segment check_runes is_control
    is_windows_device_name to_lower to_upper split ends_with has_prefix has_byte runes before
    bytes_beq trim_suffix_byte
writable_valid = refl

policy_made : new_policy ascii_text (codes "docs" ∷ []) (codes "docs/Open" ∷ []) ≡ ok sample_policy
unfolding new_policy validate_entries validate_path validate_segments validate_segment check_runes
    is_control is_windows_device_name to_lower to_upper split ends_with has_prefix has_byte runes
    before bytes_beq trim_suffix_byte collapsed overlapping collapse_entries keep_entries
    is_redundant is_entry_ancestor entry_between has_folded sort_entries insert_entry
policy_made = refl

new_policy-protects_example :
    (protects ascii_text sample_policy (codes "Docs/x") ≡ true)
    ↔ Protected read_only_entries writable_entries (codes "docs/x")
unfolding to_lower
new_policy-protects_example =
    new_policy-protects ascii_text (codes "docs" ∷ []) (codes "docs/Open" ∷ []) sample_policy
      read_only_entries writable_entries policy_made read_only_valid writable_valid (codes "Docs/x")

rebuild-protects_example :
    (q : PathPolicy) × (new_policy ascii_text sample_policy.read_only.entries
        sample_policy.writable.entries
      ≡ ok q)
    × ((path : Bytes) → protects ascii_text q path ≡ protects ascii_text sample_policy path)
rebuild-protects_example =
    rebuild-protects ascii_text (codes "docs" ∷ []) (codes "docs/Open" ∷ []) sample_policy
      policy_made

abbrev sample_snapshot : Snapshot
sample_snapshot =
    record { path = codes "docs/a.md"; contents = codes "x" }
    ∷ record { path = codes "b.md"; contents = codes "y" }
    ∷ []

sample_snapshot_valid : validate_snapshot ascii_text sample_snapshot ≡ ok tt
unfolding validate_snapshot check_files lookup directories file_directory_collision first_below
    exact_file contains validate_content validate_path validate_segments validate_segment
    check_runes is_control is_windows_device_name to_lower to_upper split ends_with has_prefix
    has_byte runes before bytes_beq
sample_snapshot_valid = refl

validate_snapshot-AreApart_example :
    All (IsFile ascii_text) sample_snapshot
    × AreApart ascii_text sample_snapshot
    × ((f g : File)
        → In f sample_snapshot
        → In g sample_snapshot
        → ¬ In f.path (directories g.path))
validate_snapshot-AreApart_example =
    validate_snapshot-AreApart ascii_text sample_snapshot sample_snapshot_valid

abbrev base_file : File
base_file = record { path = codes "docs/a.md"; contents = codes "old" }

pin-In_example :
    (In base_file (pin ascii_text (set_of read_only_entries) sample_snapshot (base_file ∷ []))) ↔ (
      (In base_file sample_snapshot
        × (covers_path ascii_text (set_of read_only_entries) (codes "docs/a.md") ≡ false))
      ⊎ (In base_file (base_file ∷ [])
          × (covers_path ascii_text (set_of read_only_entries) (codes "docs/a.md") ≡ true)))
pin-In_example =
    pin-In ascii_text (set_of read_only_entries) sample_snapshot (base_file ∷ []) base_file
      (λ p. omega arith)
