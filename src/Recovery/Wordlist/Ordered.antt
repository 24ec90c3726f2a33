-- ===== src/Recovery/Wordlist/Ordered.antt =====
-- A test of the order that the binary search of internal/recovery/code.go needs.
use mathlib.Core.Path.{subst}
use slivingdoc.Base.{
  zero, suc, ◌≡◌, List, [], ◌∷◌, Bool, true, Bool-cases, inl, inr, Bytes, arith, get_elem?,
  bytes_less, ◌&&◌, ℕ, some, refl, Option,
}
use slivingdoc.Recovery.Wordlist.Search.{IsSorted}

-- Each word is less than the next one.
unfoldable pub ordered : List Bytes → Bool
ordered [] = true
ordered (v ∷ []) = true
ordered (v ∷ w ∷ ws) = bytes_less v w && ordered (w ∷ ws)

bytes_less_trans :
    (u v w : Bytes) → bytes_less u v ≡ true → bytes_less v w ≡ true → bytes_less u w ≡ true
unfolding bytes_less
bytes_less_trans u v [] h k = absurd (ground arith)
bytes_less_trans [] v (z ∷ zs) h k = refl
bytes_less_trans (x ∷ xs) [] (z ∷ zs) h k = absurd (ground arith)
bytes_less_trans (x ∷ xs) (y ∷ ys) (z ∷ zs) h k = elim (Bool-cases (bytes_less xs ys)) [
  | inl p ↦ elim (Bool-cases (bytes_less ys zs)) [
    | inl q ↦ ground (arith, h, k, bytes_less_trans xs ys zs p q)
    | inr q ↦ ground (arith, h, k, q)
  ]
  | inr p ↦ ground (arith, h, k, p)
]

first_less :
    (v : Bytes) (ws : List Bytes)
    → ordered (v ∷ ws) ≡ true
    → (j : ℕ) (w : Bytes) → get_elem? ws j ≡ some w
    → bytes_less v w ≡ true
unfolding ordered
first_less v [] h j w e = absurd (ground arith)
first_less v (x ∷ ws) h zero w e =
    let same : ◌≡◌ {A = Option Bytes} (some x) (some w) = e in
    let is_word : x ≡ w = ground (arith, same) in
    subst (λ w. bytes_less v w ≡ true) is_word (ground (arith, h))
first_less v (x ∷ ws) h (suc j) w e =
    bytes_less_trans v x w (ground (arith, h)) (first_less x ws (ground (arith, h)) j w e)

ordered_tail : (v : Bytes) (ws : List Bytes) → ordered (v ∷ ws) ≡ true → ordered ws ≡ true
unfolding ordered
ordered_tail v [] h = refl
ordered_tail v (w ∷ ws) h = ground (arith, h)

pub ordered-IsSorted : (words : List Bytes) → ordered words ≡ true → IsSorted words
ordered-IsSorted [] h i j v w lt e f = absurd (ground arith)
ordered-IsSorted (x ∷ xs) h i zero v w lt e f = absurd (omega arith)
ordered-IsSorted (x ∷ xs) h zero (suc j) v w lt e f =
    let same : ◌≡◌ {A = Option Bytes} (some x) (some v) = e in
    let is_word : x ≡ v = ground (arith, same) in
    subst (λ v. bytes_less v w ≡ true) is_word (first_less x xs h j w f)
ordered-IsSorted (x ∷ xs) h (suc i) (suc j) v w lt e f =
    ordered-IsSorted xs (ordered_tail x xs h) i j v w (omega arith) e f
