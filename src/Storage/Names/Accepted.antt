-- ===== src/Storage/Names/Accepted.antt =====
-- internal/storage/key.go and name.go: what the tests of prefixes and names let through.
use slivingdoc.Base.{
  ℕ, ◌≤◌, ◌≡◌, ◌≢◌, refl, Bool, true, false, ◌||◌, List, [], ◌∷◌, ◌++◌, ◌==◌, nat_eq, bytes_eq,
  bytes_beq_iff, Bytes, codes, length, All, arith, ok, has_prefix, ends_with, split, onto_first,
  has_byte, eq_decided, inl, inr,
}
use slivingdoc.Storage.Names.{
  is_alnum, name_chars_from, new_space_name_chars, any_prefix, any_suffix, is_new_space_name,
  reserved_name_prefixes, reserved_name_suffixes, check_prefix_segments, check_prefix,
  validate_prefix, join_key,
}

-- A letter, a digit or a hyphen.
abbrev pub IsNameChar : ℕ → Type 0
IsNameChar c = (is_alnum c || c == b'-') ≡ true

name_chars-All :
    (edge : Bool) (name : Bytes) → name_chars_from edge name ≡ true → All IsNameChar name
unfolding name_chars_from
name_chars-All edge [] h = tt
name_chars-All edge (c ∷ cs) h = (ground arith, name_chars-All false cs (ground arith))

name_chars-last :
    (edge : Bool) (name : Bytes) → name_chars_from edge name ≡ true → ends_with b'-' name ≡ false
unfolding name_chars_from ends_with
name_chars-last edge [] h = refl
name_chars-last edge (c ∷ []) h = ground (arith, bytes_beq_iff [] [])
name_chars-last edge (c ∷ d ∷ ds) h = name_chars-last false (d ∷ ds) (ground arith)

name_chars-first :
    (name : Bytes) → name_chars_from true name ≡ true → has_prefix name (codes "-") ≡ false
unfolding name_chars_from has_prefix
name_chars-first [] h = refl
name_chars-first (c ∷ cs) h = ground arith

-- A name that may be created has 3 to 63 characters, all of them lower-case letters, digits and
-- hyphens, no hyphen at either end, and none of the reserved prefixes and suffixes.
pub is_new_space_name-chars :
    (name : Bytes)
    → is_new_space_name name ≡ true
    → (3 ≤ length name)
      × (length name ≤ 63)
      × All IsNameChar name
      × (has_prefix name (codes "-") ≡ false)
      × (ends_with b'-' name ≡ false)
      × (any_prefix reserved_name_prefixes name ≡ false)
      × (any_suffix reserved_name_suffixes name ≡ false)
unfolding is_new_space_name new_space_name_chars
is_new_space_name-chars name h = (
  ground arith,
  ground arith,
  name_chars-All true name (ground arith),
  name_chars-first name (ground arith),
  name_chars-last true name (ground arith),
  ground arith,
  ground arith,
)

onto_first-append :
    (x : ℕ) (ss ts : List Bytes) → ss ≢ [] → onto_first x (ss ++ ts) ≡ onto_first x ss ++ ts
onto_first-append x [] ts h = absurd (h refl)
onto_first-append x (s ∷ ss) ts h = refl

split-some : (c : ℕ) (xs : Bytes) → split c xs ≢ []
unfolding split
split-some c [] p = ground arith
split-some c (x ∷ xs) p = ground (arith, onto_some (split c xs))
  where
    onto_some : (ss : List Bytes) → ¬ (onto_first x ss ≡ [])
    onto_some [] q = ground arith
    onto_some (s ∷ ss) q = ground arith

split-append : (c : ℕ) (xs ys : Bytes) → split c (xs ++ (c ∷ ys)) ≡ split c xs ++ split c ys
unfolding split
split-append c [] ys = ground arith
split-append c (x ∷ xs) ys = elim (eq_decided x c) [
  | inl same ↦ ground (arith, split-append c xs ys)
  | inr differ ↦
      ground (
        arith,
        split-append c xs ys,
        onto_first-append x (split c xs) (split c ys) (split-some c xs),
      )
]

-- No segment is empty, `.` or `..`, and none holds a backslash.
pub record IsPrefixSegment (seg : Bytes) : Type 0 where
  pub filled : ¬ (seg ≡ [])
  pub not_dot : ¬ (seg ≡ codes ".")
  pub not_dots : ¬ (seg ≡ codes "..")
  pub no_backslash : has_byte b'\\' seg ≡ false

prefix_segments-All :
    (segs : List Bytes) → check_prefix_segments segs ≡ ok tt → All IsPrefixSegment segs
unfolding check_prefix_segments
prefix_segments-All [] h = tt
prefix_segments-All (seg ∷ segs) h = (
  record {
    filled = λ p. ground (arith, bytes_beq_iff seg []);
    not_dot = λ p. ground (arith, bytes_beq_iff seg (codes "."));
    not_dots = λ p. ground (arith, bytes_beq_iff seg (codes ".."));
    no_backslash = ground arith;
  },
  prefix_segments-All segs (ground arith),
)

-- Under a valid prefix that is not empty, the segments of a joined key are those of the prefix,
-- none of which leaves the prefix, followed by those of the key.
pub split-join_key :
    (prefix key : Bytes)
    → validate_prefix prefix ≡ ok tt
    → ¬ (prefix ≡ [])
    → (split b'/' (join_key prefix key) ≡ split b'/' prefix ++ split b'/' key)
      × All IsPrefixSegment (split b'/' prefix)
unfolding validate_prefix check_prefix join_key
split-join_key prefix key valid filled = (
  ground (arith, bytes_beq_iff prefix [], split-append b'/' prefix key),
  prefix_segments-All (split b'/' prefix) (ground (arith, bytes_beq_iff prefix [])),
)
