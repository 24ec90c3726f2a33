-- ===== src/Git/Entries/Ancestors.antt =====
-- Entries as prefixes on a segment boundary: what `is_entry_ancestor` decides, and the order of
-- the entries over one path.
use slivingdoc.Base.{
  ℕ, ◌<◌, ◌≡◌, refl, sym, ap, ◌∙◌, ◌⊎◌, inl, inr, Bool, true, false, some, [], ◌∷◌, ◌++◌, ◌==◌,
  nat_eq, bytes_eq, bytes_beq_iff, Bytes, length, get_elem?, arith, has_prefix-split,
  has_prefix_append, length-append,
}
use slivingdoc.Git.Entries.{is_slash, is_entry_ancestor, covers}

-- `path` lies strictly below `entry`.
abbrev pub Below : Bytes → Bytes → Type 0
Below entry path = (rest : Bytes) × (path ≡ entry ++ b'/' ∷ rest)

slash_after : (e rest : Bytes) → get_elem? (e ++ b'/' ∷ rest) (length e) ≡ some b'/'
slash_after [] rest = refl
slash_after (x ∷ e) rest = slash_after e rest

slash_at :
    (e rest : Bytes)
    → is_slash (get_elem? (e ++ rest) (length e)) ≡ true
    → (tail : Bytes) × (rest ≡ b'/' ∷ tail)
slash_at [] [] h = absurd (ground arith)
slash_at [] (c ∷ cs) h = (cs, ground arith)
slash_at (x ∷ e) rest h = slash_at e rest h

pub is_entry_ancestor-Below : (e p : Bytes) → is_entry_ancestor e p ≡ true → Below e p
unfolding is_entry_ancestor
is_entry_ancestor-Below e p h =
    let (rest, same) = has_prefix-split p e (ground arith) in
    let (tail, at) = slash_at e rest (rw same at (slash e p h)) in
    (tail, same ∙ ap (λ r. e ++ r) at)
  where
    slash : (a b : Bytes) → is_entry_ancestor a b ≡ true → is_slash (get_elem? b (length a)) ≡ true
    slash a b k = ground arith

pub Below-is_entry_ancestor : (e p : Bytes) → Below e p → is_entry_ancestor e p ≡ true
unfolding is_entry_ancestor
Below-is_entry_ancestor e p (rest, same) = ground (
  arith,
  same,
  slash_after e rest,
  has_prefix_append e (b'/' ∷ rest),
  length-append e (b'/' ∷ rest),
)

-- `entry` decides for `path`: it names it, or names something above it.
abbrev pub Covers : Bytes → Bytes → Type 0
Covers entry path = (path ≡ entry) ⊎ Below entry path

pub covers-Covers : (e p : Bytes) → covers e p ≡ true → Covers e p
unfolding covers
covers-Covers e p h = go (p == e) refl
  where
    go : (b : Bool) → (p == e) ≡ b → Covers e p
    go true q = inl ((bytes_beq_iff p e).0 q)
    go false q = inr (is_entry_ancestor-Below e p (ground arith))

pub Covers-covers : (e p : Bytes) → Covers e p → covers e p ≡ true
unfolding covers
Covers-covers e p (inl q) = ground (arith, bytes_beq_iff p e)
Covers-covers e p (inr b) = ground (arith, Below-is_entry_ancestor e p b)

pub Below-longer : (e p : Bytes) → Below e p → length e < length p
Below-longer e p (rest, same) = rw same (omega (arith, length-append e (b'/' ∷ rest)))

++-assoc_slash : (a r s : Bytes) → (a ++ b'/' ∷ r) ++ b'/' ∷ s ≡ a ++ b'/' ∷ (r ++ b'/' ∷ s)
++-assoc_slash [] r s = refl
++-assoc_slash (x ∷ a) r s = ap (λ t. x ∷ t) (++-assoc_slash a r s)

pub Below-trans : (a b p : Bytes) → Below a b → Below b p → Below a p
Below-trans a b p (r, e) (s, f) =
    (r ++ b'/' ∷ s, f ∙ ap (λ t. t ++ b'/' ∷ s) e ∙ ++-assoc_slash a r s)

pub Below-Covers : (a b p : Bytes) → Below a b → Covers b p → Below a p
Below-Covers a b p d (inl e) = rw e d
Below-Covers a b p d (inr c) = Below-trans a b p d c

abbrev Ordered : Bytes → Bytes → Type 0
Ordered a b = (a ≡ b) ⊎ (Below a b ⊎ Below b a)

Ordered-cons : (x y : ℕ) (a b : Bytes) → x ≡ y → Ordered a b → Ordered (x ∷ a) (y ∷ b)
Ordered-cons x y a b e (inl p) = inl (ground arith)
Ordered-cons x y a b e (inr (inl (r, p))) = inr (inl (r, ground arith))
Ordered-cons x y a b e (inr (inr (r, p))) = inr (inr (r, ground arith))

Ordered-prefixes : (a b r s : Bytes) → a ++ b'/' ∷ r ≡ b ++ b'/' ∷ s → Ordered a b
Ordered-prefixes [] [] r s e = inl refl
Ordered-prefixes [] (y ∷ b) r s e = inr (inl (b, ground arith))
Ordered-prefixes (x ∷ a) [] r s e = inr (inr (a, ground arith))
Ordered-prefixes (x ∷ a) (y ∷ b) r s e =
    Ordered-cons x y a b (ground arith) (Ordered-prefixes a b r s (ground arith))

-- Of two entries over one path, one lies below the other or they are the same.
pub Covers-Ordered : (a b p : Bytes) → Covers a p → Covers b p → Ordered a b
Covers-Ordered a b p (inl e) (inl f) = inl (sym e ∙ f)
Covers-Ordered a b p (inl e) (inr d) = inr (inr (rw e at d))
Covers-Ordered a b p (inr d) (inl f) = inr (inl (rw f at d))
Covers-Ordered a b p (inr (r, e)) (inr (s, f)) = Ordered-prefixes a b r s (sym e ∙ f)

-- Two entries of one length over one path are the same.
pub Covers-same_length : (a b p : Bytes) → Covers a p → Covers b p → length a ≡ length b → a ≡ b
Covers-same_length a b p c d e = elim (Covers-Ordered a b p c d) [
  | inl same ↦ same
  | inr (inl below) ↦ absurd (omega (arith, Below-longer a b below))
  | inr (inr above) ↦ absurd (omega (arith, Below-longer b a above))
]

-- Of two entries over one path, the shorter one is above the longer one.
pub Covers-shorter : (a b p : Bytes) → Covers a p → Covers b p → length a < length b → Below a b
Covers-shorter a b p c d e = elim (Covers-Ordered a b p c d) [
  | inl same ↦ absurd (omega (arith, ap length same))
  | inr (inl below) ↦ below
  | inr (inr above) ↦ absurd (omega (arith, Below-longer b a above))
]
