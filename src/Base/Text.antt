-- ===== src/Base/Text.antt =====
-- The functions of Go's `strings` and `utf8` packages that the program uses, over bytes.
use Prim.Native.Nat.{ℕ, zero, suc, ◌+◌, ◌-◌, ◌*◌}
use mathlib.Core.Path.{◌≡◌, refl, ap}
use mathlib.Core.Bool.{Bool, true, false, ◌&&◌, ◌||◌}
use mathlib.Core.Option.{Option, none, some}
use mathlib.Core.List.{List, [], ◌∷◌, ◌++◌}
use native.Mathlib.Omega.{arith}
use slivingdoc.Base.Equality.{Bytes, ◌==◌, nat_eq, bytes_eq, ltb, leb, if◌then◌else◌}

-- `strings.HasPrefix`
unfoldable pub has_prefix : Bytes → Bytes → Bool
has_prefix xs [] = true
has_prefix [] (p ∷ ps) = false
has_prefix (x ∷ xs) (p ∷ ps) = x == p && has_prefix xs ps

pub has_prefix_append : (ps xs : Bytes) → has_prefix (ps ++ xs) ps ≡ true
unfolding has_prefix
has_prefix_append [] xs = refl
has_prefix_append (p ∷ ps) xs = ground (arith, has_prefix_append ps xs)

pub has_prefix-split :
    (xs ps : Bytes) → has_prefix xs ps ≡ true → (rest : Bytes) × (xs ≡ ps ++ rest)
unfolding has_prefix
has_prefix-split xs [] h = (xs, refl)
has_prefix-split [] (p ∷ ps) h = absurd (ground arith)
has_prefix-split (x ∷ xs) (p ∷ ps) h =
    let (rest, e) = has_prefix-split xs ps (ground arith) in (rest, ground (arith, e))

-- `strings.HasSuffix` of one byte
unfoldable pub ends_with : ℕ → Bytes → Bool
ends_with c [] = false
ends_with c (x ∷ []) = x == c
ends_with c (x ∷ y ∷ ys) = ends_with c (y ∷ ys)

-- `strings.TrimSuffix` by one byte
unfoldable pub trim_suffix_byte : ℕ → Bytes → Bytes
trim_suffix_byte c [] = []
trim_suffix_byte c (x ∷ []) = if x == c then [] else x ∷ []
trim_suffix_byte c (x ∷ y ∷ ys) = x ∷ trim_suffix_byte c (y ∷ ys)

pub trim_none : (c : ℕ) (xs : Bytes) → ends_with c xs ≡ false → trim_suffix_byte c xs ≡ xs
unfolding ends_with trim_suffix_byte
trim_none c [] h = refl
trim_none c (x ∷ []) h = rw h refl
trim_none c (x ∷ y ∷ ys) h = ap (λ t. x ∷ t) (trim_none c (y ∷ ys) h)

-- a byte in front of the first piece
abbrev pub onto_first : ℕ → List Bytes → List Bytes
onto_first x [] = (x ∷ []) ∷ []
onto_first x (s ∷ ss) = (x ∷ s) ∷ ss

-- `strings.Split` by one byte: never the empty list.
unfoldable pub split : ℕ → Bytes → List Bytes
split c [] = [] ∷ []
split c (x ∷ xs) = let rest = split c xs in if x == c then [] ∷ rest else onto_first x rest

-- `strings.Cut` by one byte
unfoldable pub before : ℕ → Bytes → Bytes
before c [] = []
before c (x ∷ xs) = let rest = before c xs in if x == c then [] else x ∷ rest

-- `strings.ContainsRune` of an ASCII rune, `bytes.IndexByte(…) >= 0`
unfoldable pub has_byte : ℕ → Bytes → Bool
has_byte c [] = false
has_byte c (x ∷ xs) = x == c || has_byte c xs

-- Go's `<` on strings, bytewise.
unfoldable pub bytes_less : Bytes → Bytes → Bool
bytes_less xs [] = false
bytes_less [] (y ∷ ys) = true
bytes_less (x ∷ xs) (y ∷ ys) = ltb x y || (x == y && bytes_less xs ys)

-- A lead byte of UTF-8: how many bytes follow, the range of the next, and the bits so far.
abbrev pub utf8_lead : ℕ → Option (ℕ × ℕ × ℕ × ℕ)
utf8_lead c =
    if ltb c 0x80
    then some (0, 0x80, 0xbf, c)
    else if ltb c 0xc2
    then none
    else if ltb c 0xe0
    then some (1, 0x80, 0xbf, c - 0xc0)
    else if c == 0xe0
    then some (2, 0xa0, 0xbf, 0)
    else if c == 0xed
    then some (2, 0x80, 0x9f, 0xd)
    else if ltb c 0xf0
    then some (2, 0x80, 0xbf, c - 0xe0)
    else if c == 0xf0
    then some (3, 0x90, 0xbf, 0)
    else if ltb c 0xf4
    then some (3, 0x80, 0xbf, c - 0xf0)
    else if c == 0xf4
    then some (3, 0x80, 0x8f, 4)
    else none

abbrev pub cons_rune : ℕ → Option (List ℕ) → Option (List ℕ)
cons_rune r none = none
cons_rune r (some rs) = some (r ∷ rs)

-- The runes of a text, `none` where `utf8.ValidString` is false. Between runes `need` is 0;
-- inside one, `need` bytes follow, the next of them from `lo` to `hi`.
runes_from : ℕ → ℕ → ℕ → ℕ → Bytes → Option (List ℕ)
runes_from zero lo hi acc [] = some []
runes_from (suc need) lo hi acc [] = none
runes_from zero lo hi acc (c ∷ cs) = elim (utf8_lead c) [
  | none ↦ none
  | some (zero, _, _, r) ↦ cons_rune r (runes_from zero 0 0 0 cs)
  | some (suc need, lo', hi', bits) ↦ runes_from (suc need) lo' hi' bits cs
]
runes_from (suc zero) lo hi acc (c ∷ cs) =
    let rest = runes_from zero 0 0 0 cs in
    if leb lo c && leb c hi then cons_rune (acc * 64 + (c - 0x80)) rest else none
runes_from (suc (suc need)) lo hi acc (c ∷ cs) =
    let rest = runes_from (suc need) 0x80 0xbf (acc * 64 + (c - 0x80)) cs in
    if leb lo c && leb c hi then rest else none

unfoldable pub runes : Bytes → Option (List ℕ)
unfolding runes_from
runes = runes_from zero 0 0 0

-- The bytes of a rune behind its lead byte, `none` where they do not continue it.
abbrev pub rune_tail : (need lo hi acc : ℕ) → Bytes → Option ℕ
rune_tail zero lo hi acc cs = some acc
rune_tail (suc need) lo hi acc [] = none
rune_tail (suc need) lo hi acc (c ∷ cs) =
    let rest = rune_tail need 0x80 0xbf (acc * 64 + (c - 0x80)) cs in
    if leb lo c && leb c hi then rest else none

-- The first rune and how many bytes it has more than one: U+FFFD and none for an invalid byte.
abbrev pub rune_at : ℕ → Bytes → ℕ × ℕ
rune_at c cs = elim (utf8_lead c) [
  | none ↦ (0xfffd, 0)
  | some (need, lo, hi, bits) ↦ elim (rune_tail need lo hi bits cs) [
    | none ↦ (0xfffd, 0)
    | some r ↦ (r, need)
  ]
]

-- What Go's `range` over a string gives, past the first `skip` bytes.
abbrev pub range_runes : (skip : ℕ) → Bytes → List ℕ
range_runes skip [] = []
range_runes zero (c ∷ cs) = (rune_at c cs).0 ∷ range_runes (rune_at c cs).1 cs
range_runes (suc skip) (c ∷ cs) = range_runes skip cs
