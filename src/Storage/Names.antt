-- ===== src/Storage/Names.antt =====
-- internal/storage/key.go: `ValidatePrefix` and `JoinKey`; internal/storage/name.go: the names of
-- new spaces.
pub mod Accepted
use slivingdoc.Base.{
  ℕ, ◌+◌, Bool, true, false, not, ◌&&◌, ◌||◌, List, [], ◌∷◌, ◌++◌, ◌==◌, ltb, leb, nat_eq, bytes_eq,
  Bytes, codes, if◌then◌else◌, length, Result, ok, err, ◌>>=◌, ◌>>◌, require, has_prefix, ends_with,
  split, has_byte,
}

pub data PrefixError : Type 0 where
  leading_slash : PrefixError
  trailing_slash : PrefixError
  empty_segment : PrefixError
  dot_segment : PrefixError
  backslash : PrefixError

unfoldable pub check_prefix_segments : List Bytes → Result PrefixError (Unit {0})
check_prefix_segments [] = ok tt
check_prefix_segments (seg ∷ segs) = do
  require (not (seg == [])) PrefixError.empty_segment
  require (not (seg == codes "." || seg == codes "..")) PrefixError.dot_segment
  require (not (has_byte b'\\' seg)) PrefixError.backslash
  check_prefix_segments segs

unfoldable pub check_prefix : Bytes → Result PrefixError (Unit {0})
check_prefix prefix = do
  require (not (has_prefix prefix (codes "/"))) PrefixError.leading_slash
  require (not (ends_with b'/' prefix)) PrefixError.trailing_slash
  check_prefix_segments (split b'/' prefix)

unfoldable pub validate_prefix : Bytes → Result PrefixError (Unit {0})
validate_prefix prefix = if prefix == [] then ok tt else check_prefix prefix

unfoldable pub join_key : Bytes → Bytes → Bytes
join_key prefix key = if prefix == [] then key else prefix ++ (b'/' ∷ key)

-- `strings.HasSuffix`
unfoldable pub has_suffix : Bytes → Bytes → Bool
has_suffix [] suffix = [] == suffix
has_suffix (x ∷ xs) suffix = (x ∷ xs) == suffix || has_suffix xs suffix

abbrev pub is_alnum : ℕ → Bool
is_alnum c = leb b'a' c && leb c b'z' || leb b'0' c && leb c b'9'

-- The loop of `newSpaceNameChars`; `edge` is the test `i == 0`.
unfoldable pub name_chars_from : Bool → Bytes → Bool
name_chars_from edge [] = true
name_chars_from edge (c ∷ cs) =
    (if edge || cs == [] then is_alnum c else is_alnum c || c == b'-') && name_chars_from false cs

unfoldable pub new_space_name_chars : Bytes → Bool
new_space_name_chars = name_chars_from true

unfoldable pub any_prefix : List Bytes → Bytes → Bool
any_prefix [] name = false
any_prefix (p ∷ ps) name = has_prefix name p || any_prefix ps name

unfoldable pub any_suffix : List Bytes → Bytes → Bool
any_suffix [] name = false
any_suffix (s ∷ ss) name = has_suffix name s || any_suffix ss name

abbrev pub reserved_name_prefixes : List Bytes
reserved_name_prefixes = codes "xn--" ∷ codes "sthree-" ∷ []

abbrev pub reserved_name_suffixes : List Bytes
reserved_name_suffixes =
    codes "-s3alias" ∷ codes "--ol-s3" ∷ codes "--x-s3" ∷ codes "--table-s3" ∷ []

-- `ValidateNewSpaceName`: does it return nil?
unfoldable pub is_new_space_name : Bytes → Bool
is_new_space_name name =
    not (ltb (length name) 3 || ltb 63 (length name) || not (new_space_name_chars name))
    && (not (any_prefix reserved_name_prefixes name)
        && not (any_suffix reserved_name_suffixes name))
