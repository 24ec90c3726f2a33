-- ===== src/Recovery/Wordlist/Search.antt =====
-- The binary search of internal/recovery/code.go on a list in order.
use mathlib.Core.Path.{subst}
use slivingdoc.Base.{
  ℕ, zero, suc, ◌+◌, ◌≤◌, ◌<◌, ◌≡◌, ◌↔◌, refl, sym, ap, ◌∙◌, Option, none, some, List, [], ◌∷◌,
  Bool, true, false, Bool-cases, inl, inr, Bytes, arith, length, get_elem?, ltb, bytes_less, ◌==◌,
  bytes_eq, bytes_beq_iff, if◌then◌else◌,
}
use slivingdoc.Recovery.Wordlist.{Turn, midpoint, compared, turn, resumed, search_word, index}

-- An earlier word is less than a later one.
abbrev pub IsSorted : List Bytes → Type 0
IsSorted words =
    (i j : ℕ) (v w : Bytes)
    → i < j
    → get_elem? words i ≡ some v
    → get_elem? words j ≡ some w
    → bytes_less v w ≡ true

bytes_less_irrefl : (w : Bytes) → bytes_less w w ≡ false
unfolding bytes_less
bytes_less_irrefl [] = refl
bytes_less_irrefl (x ∷ xs) = ground (arith, bytes_less_irrefl xs)

bytes_less_asym : (v w : Bytes) → bytes_less v w ≡ true → bytes_less w v ≡ false
unfolding bytes_less
bytes_less_asym v [] h = absurd (ground arith)
bytes_less_asym [] (y ∷ ys) h = refl
bytes_less_asym (x ∷ xs) (y ∷ ys) h = elim (Bool-cases (bytes_less xs ys)) [
  | inl q ↦ ground (arith, h, q, bytes_less_asym xs ys q)
  | inr q ↦ ground (arith, h, q)
]

get_elem?-below :
    (words : List Bytes) (i : ℕ) → i < length words → (w : Bytes) × (get_elem? words i ≡ some w)
get_elem?-below [] i h = absurd (omega arith)
get_elem?-below (x ∷ xs) zero h = (x, refl)
get_elem?-below (x ∷ xs) (suc i) h = get_elem?-below xs i (omega arith)

get_elem?-bound :
    (words : List Bytes) (i : ℕ) (w : Bytes) → get_elem? words i ≡ some w → i < length words
get_elem?-bound [] i w h = absurd (ground arith)
get_elem?-bound (x ∷ xs) zero w h = omega arith
get_elem?-bound (x ∷ xs) (suc i) w h = omega (arith, get_elem?-bound xs i w h)

midpoint-bounds : (lo end : ℕ) → lo < end → (lo ≤ midpoint lo end) × (midpoint lo end < end)
midpoint-bounds lo end h = (omega arith, omega arith)

compared-found :
    (word : Bytes) (lo mid end i : ℕ) (w : Bytes)
    → compared word lo mid end (some w) ≡ Turn.found i
    → (mid ≡ i) × (w ≡ word)
unfolding compared
compared-found word lo mid end i w h = elim (Bool-cases (w == word)) [
  | inl q ↦ (ground (arith, h, q), (bytes_beq_iff w word).0 q)
  | inr q ↦ elim (Bool-cases (bytes_less w word)) [
    | inl r ↦ absurd (ground (arith, h, q, r))
    | inr r ↦ absurd (ground (arith, h, q, r))
  ]
]

module _ (words : List Bytes) (word : Bytes) where
  turn-found :
      (lo end i : ℕ) → turn words word lo end ≡ Turn.found i → get_elem? words i ≡ some word
  unfolding turn compared
  turn-found lo end i h = on_range (ltb lo end) refl h
    where
      on_word :
          (o : Option Bytes)
          → get_elem? words (midpoint lo end) ≡ o
          → compared word lo (midpoint lo end) end o ≡ Turn.found i
          → get_elem? words i ≡ some word
      on_word none e q = absurd (ground arith)
      on_word (some w) e q =
          let (same, is_word) = compared-found word lo (midpoint lo end) end i w q in
          subst (λ j. get_elem? words j ≡ some word) same (e ∙ ap some is_word)

      on_range :
          (b : Bool)
          → ltb lo end ≡ b
          → (if b
              then compared word lo (midpoint lo end) end (get_elem? words (midpoint lo end))
              else Turn.missed)
            ≡ Turn.found i
          → get_elem? words i ≡ some word
      on_range true e q = on_word (get_elem? words (midpoint lo end)) refl q
      on_range false e q = absurd (ground arith)

  search_word-word :
      (n lo end i : ℕ) → search_word words word n lo end ≡ some i → get_elem? words i ≡ some word
  unfolding search_word resumed
  search_word-word zero lo end i h = absurd (ground arith)
  search_word-word (suc n) lo end i h = on_turn (turn words word lo end) refl (search_word-word n) h
    where
      on_turn :
          (t : Turn)
          → turn words word lo end ≡ t
          → ((lo end i : ℕ)
              → search_word words word n lo end ≡ some i
              → get_elem? words i ≡ some word)
          → resumed (search_word words word n) t ≡ some i
          → get_elem? words i ≡ some word
      on_turn (Turn.found j) q again g =
          let same : ◌≡◌ {A = Option ℕ} (some j) (some i) = g in
          turn-found lo end i (q ∙ ap Turn.found (ground (arith, same)))
      on_turn Turn.missed q again g = absurd (ground arith)
      on_turn (Turn.narrowed lo2 end2) q again g = again lo2 end2 i g

  -- What a turn tells of a range that holds the word at `i`.
  data Holds (i lo end : ℕ) : Turn → Type 0 where
    at_word : Holds i lo end (Turn.found i)
    inside :
        (lo_next end_next : ℕ)
        → lo_next ≤ i
        → i < end_next
        → end_next ≤ end
        → end_next + lo < end + lo_next
        → Holds i lo end (Turn.narrowed lo_next end_next)

  module _ (sorted : IsSorted words) (i : ℕ) (here : get_elem? words i ≡ some word) where
    not_after :
        (mid : ℕ) (w : Bytes)
        → get_elem? words mid ≡ some w
        → bytes_less w word ≡ false
        → ¬ (mid < i)
    not_after mid w e r later = ground (arith, r, sorted mid i w word later e here)

    not_before :
        (mid : ℕ) (w : Bytes)
        → get_elem? words mid ≡ some w
        → bytes_less word w ≡ false
        → ¬ (i < mid)
    not_before mid w e r earlier = ground (arith, r, sorted i mid word w earlier here e)

    same_position :
        (mid : ℕ) (w : Bytes) → get_elem? words mid ≡ some w → (w == word) ≡ true → mid ≡ i
    same_position mid w e q =
        let p = (bytes_beq_iff w word).0 q in
        let r = subst (λ w. bytes_less w word ≡ false) (sym p) (bytes_less_irrefl word) in
        let l = subst (λ w. bytes_less word w ≡ false) (sym p) (bytes_less_irrefl word) in
        let after = not_after mid w e r in
        let before = not_before mid w e l in omega (arith, after, before)

    other_position :
        (mid : ℕ) (w : Bytes) → get_elem? words mid ≡ some w → (w == word) ≡ false → ¬ (mid ≡ i)
    other_position mid w e q same =
        let p : ◌≡◌ {A = Option Bytes} (some w) (some word) =
          sym e ∙ ap (get_elem? words) same ∙ here in
        let same_word : w ≡ word = ground (arith, p) in
        let differs = (bytes_beq_iff w word).1 same_word in ground (arith, q, differs)

    compared-Holds :
        (lo mid end : ℕ) (w : Bytes)
        → lo ≤ mid
        → mid < end
        → lo ≤ i
        → i < end
        → get_elem? words mid ≡ some w
        → Holds i lo end (compared word lo mid end (some w))
    unfolding compared
    compared-Holds lo mid end w low high from to e =
        on_equal (w == word) refl (bytes_less w word) refl
      where
        on_equal :
            (b : Bool)
            → (w == word) ≡ b
            → (c : Bool) → bytes_less w word ≡ c
            → Holds i lo end (
                if b
                then Turn.found mid
                else if c
                then Turn.narrowed (mid + 1) end
                else Turn.narrowed lo mid)
        on_equal true q c r =
            subst (λ j. Holds i lo end (Turn.found j)) (sym (same_position mid w e q)) Holds.at_word
        on_equal false q true r =
            let before = not_before mid w e (bytes_less_asym w word r) in
            let other = other_position mid w e q in
            Holds.inside (mid + 1) end (omega (arith, before, other)) to (omega arith) (omega arith)
        on_equal false q false r =
            let after = not_after mid w e r in
            let other = other_position mid w e q in
            Holds.inside lo mid from (omega (arith, after, other)) (omega arith) (omega arith)

    turn-Holds :
        (lo end : ℕ)
        → lo ≤ i
        → i < end
        → end ≤ length words
        → Holds i lo end (turn words word lo end)
    unfolding turn
    turn-Holds lo end from to within =
        let (low, high) = midpoint-bounds lo end (omega arith) in
        let (w, e) = get_elem?-below words (midpoint lo end) (omega arith) in
        let whole : ltb lo end ≡ true = ground arith in
        subst
          (λ b. Holds i lo end (
            if b
            then compared word lo (midpoint lo end) end (get_elem? words (midpoint lo end))
            else Turn.missed))
          (sym whole)
          (subst (λ o. Holds i lo end (compared word lo (midpoint lo end) end o)) (sym e)
            (compared-Holds lo (midpoint lo end) end w low high from to e))

    search_word-position :
        (n lo end : ℕ)
        → lo ≤ i
        → i < end
        → end ≤ length words
        → end ≤ lo + n
        → search_word words word n lo end ≡ some i
    unfolding search_word resumed
    search_word-position zero lo end from to within enough = absurd (omega arith)
    search_word-position (suc n) lo end from to within enough =
        on_turn (turn words word lo end) (turn-Holds lo end from to within) (search_word-position n)
      where
        on_turn :
            (t : Turn)
            → Holds i lo end t
            → ((lo end : ℕ)
                → lo ≤ i
                → i < end
                → end ≤ length words
                → end ≤ lo + n
                → search_word words word n lo end ≡ some i)
            → resumed (search_word words word n) t ≡ some i
        on_turn _ at_word again = refl
        on_turn _ (inside lo2 end2 a b c d) again = again lo2 end2 a b (omega arith) (omega arith)

-- In a list in order, the search answers a position exactly where the word stands at that position,
-- and so answers none for a word that the list does not hold.
pub index_iff :
    (words : List Bytes) (word : Bytes) (i : ℕ)
    → IsSorted words
    → (index words word ≡ some i) ↔ (get_elem? words i ≡ some word)
unfolding index
index_iff words word i sorted = (
  search_word-word words word (length words) 0 (length words) i,
  λ here.
      search_word-position words word sorted i here (length words) 0 (length words) (omega arith)
        (get_elem?-bound words i word here) (omega arith) (omega arith),
)
