-- ===== src/Git/Path/Segments.antt =====
-- What an accepted path is made of.
use slivingdoc.Base.{
  ℕ, ◌≤◌, ◌≡◌, ◌≢◌, refl, Bool, true, false, Option, none, some, not, ◌||◌, List, [], ◌∷◌, map,
  ◌==◌, nat_eq, bytes_eq, bytes_beq_iff, Bytes, codes, length, All, inl, inr, ok, has_byte, runes,
  range_runes, ends_with, split, arith, Bool-cases, onto_first,
}
use slivingdoc.Git.Path.{
  TextLibrary, max_path_bytes, max_segment_bytes, invalid_segment_chars, to_lower,
  is_windows_device_name, is_control, check_runes, validate_segment, validate_segments,
  validate_path, is_valid_utf8,
}

abbrev pub IsPlainRune : ℕ → Type 0
IsPlainRune r = (is_control r ≡ false) × (has_byte r invalid_segment_chars ≡ false)

-- A name that every supported file system can hold, and that leads nowhere else.
pub record IsSegment (s : Bytes) : Type 0 where
  pub not_empty : s ≢ []
  pub not_here : s ≢ codes "."
  pub not_up : s ≢ codes ".."
  pub not_git : map to_lower s ≢ codes ".git"
  pub no_end : (ends_with b' ' s ≡ false) × (ends_with b'.' s ≡ false)
  pub bounded : length s ≤ max_segment_bytes
  pub no_slash : has_byte b'/' s ≡ false
  pub no_device : is_windows_device_name s ≡ false
  -- Every rune that `range` gives, which is U+FFFD at an invalid byte.
  pub plain : All IsPlainRune (range_runes 0 s)

abbrev NoSlash : ℕ → Bytes → Type 0
NoSlash c s = has_byte c s ≡ false

onto_first-NoSlash :
    (c x : ℕ) (pieces : List Bytes)
    → (x == c) ≡ false
    → All (NoSlash c) pieces
    → All (NoSlash c) (onto_first x pieces)
unfolding has_byte
onto_first-NoSlash c x [] e h = (ground arith, tt)
onto_first-NoSlash c x (p ∷ ps) e h = (ground (arith, h.0), h.1)

-- No piece of a split holds the separator.
split-NoSlash : (c : ℕ) (xs : Bytes) → All (NoSlash c) (split c xs)
unfolding split has_byte
split-NoSlash c [] = (refl, tt)
split-NoSlash c (x ∷ xs) = elim (Bool-cases (x == c)) [
  | inl here ↦ rw here (refl, split-NoSlash c xs)
  | inr other ↦ rw other (onto_first-NoSlash c x (split c xs) other (split-NoSlash c xs))
]

check_runes-plain : (rs : List ℕ) → check_runes rs ≡ ok tt → All IsPlainRune rs
unfolding check_runes
check_runes-plain [] h = tt
check_runes-plain (r ∷ rs) h = ((ground arith, ground arith), check_runes-plain rs (ground arith))

module _ (s : Bytes) (h : validate_segment s ≡ ok tt) (whole : NoSlash b'/' s) where
  segment_named :
      (not (s == []) ≡ true)
      × (not (s == codes "." || s == codes "..") ≡ true)
      × (not (map to_lower s == codes ".git") ≡ true)
  unfolding validate_segment
  segment_named = (ground arith, ground arith, ground arith)

  segment_runes : check_runes (range_runes 0 s) ≡ ok tt
  unfolding validate_segment
  segment_runes = ground arith

  accepted-IsSegment : IsSegment s
  unfolding validate_segment
  accepted-IsSegment =
      let (named, dots, git) = segment_named in
      record {
        not_empty = λ p. ground (arith, bytes_beq_iff s []);
        not_here = λ p. ground (arith, bytes_beq_iff s (codes "."));
        not_up = λ p. ground (arith, bytes_beq_iff s (codes ".."));
        not_git = λ p. ground (arith, bytes_beq_iff (map to_lower s) (codes ".git"));
        no_end = (ground arith, ground arith);
        bounded = ground arith;
        no_slash = whole;
        no_device = ground arith;
        plain = check_runes-plain (range_runes 0 s) segment_runes;
      }

validate_segments-IsSegment :
    (ss : List Bytes) → validate_segments ss ≡ ok tt → All (NoSlash b'/') ss → All IsSegment ss
unfolding validate_segments
validate_segments-IsSegment [] h n = tt
validate_segments-IsSegment (s ∷ ss) h n =
    (accepted-IsSegment s (ground arith) n.0, validate_segments-IsSegment ss (ground arith) n.1)

-- The bytes are valid UTF-8.
abbrev pub IsText : Bytes → Type 0
IsText s = (rs : List ℕ) × (runes s ≡ some rs)

is_valid_utf8-IsText : (s : Bytes) → is_valid_utf8 s ≡ true → IsText s
is_valid_utf8-IsText s h = on_runes (runes s) refl h
  where
    on_runes :
        (o : Option (List ℕ))
        → runes s ≡ o
        → elim o as (λ _. Bool) [ none ↦ false | some rs ↦ true ] ≡ true
        → IsText s
    on_runes none q g = absurd (ground arith)
    on_runes (some rs) q g = (rs, q)

-- `ValidatePath` accepts only a path of at most 4096 bytes that is valid UTF-8 in the form NFC, whose
-- every segment between slashes is not empty, does not end in a space or a dot, is neither `.` nor
-- `..` nor, in any case, `.git`, has at most 255 bytes, is no device name, and has no control and no
-- reserved character among its runes.
pub validate_path-segments :
    (text : TextLibrary) (path : Bytes)
    → validate_path text path ≡ ok tt
    → (length path ≤ max_path_bytes)
      × IsText path
      × (text.is_nfc path ≡ true)
      × All IsSegment (split b'/' path)
unfolding validate_path
validate_path-segments text path h = (
  ground arith,
  is_valid_utf8-IsText path (ground arith),
  ground arith,
  validate_segments-IsSegment (split b'/' path) (ground arith) (split-NoSlash b'/' path),
)

pub validate_path-outer :
    (text : TextLibrary) (path : Bytes)
    → validate_path text path ≡ ok tt
    → ends_with b'/' path ≡ false
unfolding validate_path
validate_path-outer text path h = ground arith
