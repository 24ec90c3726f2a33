-- ===== src/Git/Path.antt =====
-- internal/git/path.go: the paths and the contents that a notebook may hold.
pub mod Segments
use slivingdoc.Base.{
  ℕ, ◌<◌, ◌≤◌, ◌+◌, ◌-◌, Bool, true, false, not, ◌&&◌, ◌||◌, Option, none, some, List, [], ◌∷◌, map,
  ◌==◌, nat_eq, bytes_eq, Bytes, codes, ltb, leb, length, get_elem?, if◌then◌else◌, Result, ok, err,
  ◌>>=◌, ◌>>◌, require, has_prefix, ends_with, split, before, has_byte, runes, range_runes,
}

-- The functions of golang.org/x/text: Unicode case folding, and the test for the form NFC.
pub record TextLibrary : Type 0 where
  pub fold : Bytes → Bytes
  pub is_nfc : Bytes → Bool

pub data PathError : Type 0 where
  empty_path : PathError
  path_too_long : PathError
  invalid_utf8 : PathError
  not_nfc : PathError
  outer_slash : PathError
  empty_segment : PathError
  dot_segment : PathError
  git_segment : PathError
  segment_too_long : PathError
  trailing_space_or_dot : PathError
  device_name : PathError
  control_character : PathError
  reserved_character : PathError

abbrev pub max_path_bytes : ℕ
max_path_bytes = 4096

abbrev pub max_segment_bytes : ℕ
max_segment_bytes = 255

-- `\:*?"<>|`
abbrev pub invalid_segment_chars : Bytes
invalid_segment_chars = codes "\\:*?\"<>|"

-- ASCII case mapping. It gives the answers of `strings.EqualFold` and `strings.ToUpper` for the
-- words below: no other rune folds to a letter of `.git` or maps to one of a device name.
unfoldable pub to_lower : ℕ → ℕ
to_lower c = if leb b'A' c && leb c b'Z' then c + 32 else c

unfoldable pub to_upper : ℕ → ℕ
to_upper c = if leb b'a' c && leb c b'z' then c - 32 else c

-- the last byte of a four-byte name
numbered : Option ℕ → Bool
numbered none = false
numbered (some d) = leb b'1' d && leb d b'9'

unfoldable pub is_windows_device_name : Bytes → Bool
unfolding numbered to_upper before
is_windows_device_name seg =
    let upper = map to_upper (before b'.' seg) in
    (upper == codes "CON" || upper == codes "PRN" || upper == codes "AUX" || upper == codes "NUL")
    || (length upper == 4
        && ((has_prefix upper (codes "COM") || has_prefix upper (codes "LPT"))
            && numbered (get_elem? upper 3)))

-- `unicode.IsControl`
unfoldable pub is_control : ℕ → Bool
is_control r = ltb r 0x20 || (leb 0x7f r && leb r 0x9f)

unfoldable pub check_runes : List ℕ → Result PathError (Unit {0})
unfolding is_control
check_runes [] = ok tt
check_runes (r ∷ rs) = do
  require (not (is_control r)) PathError.control_character
  require (not (has_byte r invalid_segment_chars)) PathError.reserved_character
  check_runes rs

unfoldable pub validate_segment : Bytes → Result PathError (Unit {0})
validate_segment seg = do
  require (not (seg == [])) PathError.empty_segment
  require (not (seg == codes "." || seg == codes "..")) PathError.dot_segment
  require (not (map to_lower seg == codes ".git")) PathError.git_segment
  require (leb (length seg) max_segment_bytes) PathError.segment_too_long
  require (not (ends_with b' ' seg || ends_with b'.' seg)) PathError.trailing_space_or_dot
  require (not (is_windows_device_name seg)) PathError.device_name
  check_runes (range_runes 0 seg)

unfoldable pub validate_segments : List Bytes → Result PathError (Unit {0})
validate_segments [] = ok tt
validate_segments (s ∷ ss) = do validate_segment s; validate_segments ss

abbrev pub is_valid_utf8 : Bytes → Bool
is_valid_utf8 s = elim (runes s) [ none ↦ false | some rs ↦ true ]

module _ (text : TextLibrary) where
  unfoldable pub validate_path : Bytes → Result PathError (Unit {0})
  validate_path path = do
    require (not (path == [])) PathError.empty_path
    require (leb (length path) max_path_bytes) PathError.path_too_long
    require (is_valid_utf8 path) PathError.invalid_utf8
    require (text.is_nfc path) PathError.not_nfc
    require (not (has_prefix path (codes "/") || ends_with b'/' path)) PathError.outer_slash
    validate_segments (split b'/' path)

-- `ValidateContent`
pub data ContentError : Type 0 where
  content_utf8 : ContentError
  content_nul : ContentError

unfoldable pub validate_content : Bytes → Result ContentError (Unit {0})
validate_content contents = do
  require (is_valid_utf8 contents) ContentError.content_utf8
  require (not (has_byte 0 contents)) ContentError.content_nul
