-- ===== src/Crypt/Wire.antt =====
-- internal/crypt/envelope.go: big-endian numbers, and the reader that keeps its first failure.
pub mod Reads
use slivingdoc.Base.{
  ℕ, zero, suc, ◌+◌, ◌*◌, ◌/◌, ◌%◌, Bool, true, false, List, [], ◌∷◌, ◌++◌, Bytes, length, take,
  drop, leb, if◌then◌else◌,
}

-- `binary.BigEndian.AppendUint16`, `AppendUint32` and `AppendUint64` for 2, 4 and 8 bytes.
abbrev pub big_endian : ℕ → ℕ → Bytes
big_endian zero v = []
big_endian (suc n) v = big_endian n (v / 256) ++ (v % 256 ∷ [])

-- `binary.BigEndian.Uint16`, `Uint32` and `Uint64`.
abbrev pub value_from : ℕ → Bytes → ℕ
value_from acc [] = acc
value_from acc (x ∷ xs) = value_from (acc * 256 + x) xs

abbrev pub value_of : Bytes → ℕ
value_of b = value_from 0 b

-- `reader`: the bytes from `off` on, the offset, and whether there was an error.
pub record Reader : Type 0 where
  pub rest : Bytes
  pub off : ℕ
  pub failed : Bool

abbrev pub reader_of : Bytes → Reader
reader_of b = record { rest = b; off = 0; failed = false }

abbrev pub failing : Reader → Reader
failing r = record r { failed = true }

abbrev pub first_byte : Reader → Bytes → ℕ × Reader
first_byte r [] = (0, failing r)
first_byte r (x ∷ xs) = (x, record r { rest = xs; off = r.off + 1 })

-- `u8`
unfoldable pub read_u8 : Reader → ℕ × Reader
read_u8 r = if r.failed then (0, r) else first_byte r r.rest

-- `take`
unfoldable pub read_take : ℕ → Reader → Bytes × Reader
read_take n r =
    if r.failed
    then ([], r)
    else if leb n (length r.rest)
    then (take n r.rest, record r { rest = drop n r.rest; off = r.off + n })
    else ([], failing r)

abbrev pub numbered : Bytes × Reader → ℕ × Reader
numbered (b, r) = (if r.failed then 0 else value_of b, r)

-- `u16`, `u32` and `u64` for 2, 4 and 8 bytes.
unfoldable pub read_number : ℕ → Reader → ℕ × Reader
read_number n r = numbered (read_take n r)
