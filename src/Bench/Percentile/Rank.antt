-- ===== src/Bench/Percentile/Rank.antt =====
-- The nearest rank.
use secure_tunnel.Prelude.{
  ℕ, zero, suc, ◌+◌, ◌*◌, ◌≤◌, ◌<◌, ◌^◌, ◌≡◌, refl, subst, ◌∙◌, List, [], ◌∷◌, some, Bool-cases,
  inl, inr, leb, ltb, if◌then◌else◌, length, All, arith,
}
use secure_tunnel.Bench.Percentile.{
  Duration, insert, sort, get_elem?, at_rank, rank_95, percentile_95,
}

-- How many samples are at most, and how many are less than, a value.
abbrev pub count_le : Duration → List Duration → ℕ
count_le v [] = 0
count_le v (x ∷ xs) = (if leb x v then 1 else 0) + count_le v xs

abbrev pub count_lt : Duration → List Duration → ℕ
count_lt v [] = 0
count_lt v (x ∷ xs) = (if ltb x v then 1 else 0) + count_lt v xs

count_le-insert :
    (v x : Duration) (ys : List Duration) → count_le v (insert x ys) ≡ count_le v (x ∷ ys)
count_le-insert v x [] = refl
count_le-insert v x (y ∷ ys) = ground (arith, count_le-insert v x ys)

count_lt-insert :
    (v x : Duration) (ys : List Duration) → count_lt v (insert x ys) ≡ count_lt v (x ∷ ys)
count_lt-insert v x [] = refl
count_lt-insert v x (y ∷ ys) = ground (arith, count_lt-insert v x ys)

length-insert : (x : Duration) (ys : List Duration) → length (insert x ys) ≡ suc (length ys)
length-insert x [] = refl
length-insert x (y ∷ ys) = ground (arith, length-insert x ys)

count_le-sort : (v : Duration) (xs : List Duration) → count_le v (sort xs) ≡ count_le v xs
unfolding sort
count_le-sort v [] = refl
count_le-sort v (x ∷ xs) = count_le-insert v x (sort xs) ∙ omega (arith, count_le-sort v xs)

count_lt-sort : (v : Duration) (xs : List Duration) → count_lt v (sort xs) ≡ count_lt v xs
unfolding sort
count_lt-sort v [] = refl
count_lt-sort v (x ∷ xs) = count_lt-insert v x (sort xs) ∙ omega (arith, count_lt-sort v xs)

length-sort : (xs : List Duration) → length (sort xs) ≡ length xs
unfolding sort
length-sort [] = refl
length-sort (x ∷ xs) = length-insert x (sort xs) ∙ omega (arith, length-sort xs)

abbrev IsAscending : List Duration → Type 0
IsAscending [] = Unit {0}
IsAscending (x ∷ xs) = All (λ y. x ≤ y) xs × IsAscending xs

All-le_trans :
    (a b : Duration) (xs : List Duration) → a ≤ b → All (λ y. b ≤ y) xs → All (λ y. a ≤ y) xs
All-le_trans a b [] h u = tt
All-le_trans a b (x ∷ xs) h (le, rest) = (omega arith, All-le_trans a b xs h rest)

All-insert :
    (a x : Duration) (ys : List Duration)
    → a ≤ x
    → All (λ y. a ≤ y) ys
    → All (λ y. a ≤ y) (insert x ys)
All-insert a x [] h u = (h, tt)
All-insert a x (y ∷ ys) h (le, rest) = elim (Bool-cases (leb x y)) [
  | inl e ↦ rw e (h, (le, rest))
  | inr e ↦ rw e (le, All-insert a x ys h rest)
]

insert-IsAscending :
    (x : Duration) (ys : List Duration) → IsAscending ys → IsAscending (insert x ys)
insert-IsAscending x [] u = (tt, tt)
insert-IsAscending x (y ∷ ys) (above, rest) = elim (Bool-cases (leb x y)) [
  | inl e ↦ rw e ((ground arith, All-le_trans x y ys (ground arith) above), (above, rest))
  | inr e ↦ rw e (All-insert y x ys (ground arith) above, insert-IsAscending x ys rest)
]

sort-IsAscending : (xs : List Duration) → IsAscending (sort xs)
unfolding sort
sort-IsAscending [] = tt
sort-IsAscending (x ∷ xs) = insert-IsAscending x (sort xs) (sort-IsAscending xs)

count_lt-above : (v : Duration) (xs : List Duration) → All (λ y. v ≤ y) xs → count_lt v xs ≡ 0
count_lt-above v [] u = refl
count_lt-above v (x ∷ xs) (le, rest) = ground (arith, count_lt-above v xs rest)

-- The value at an index of an ascending list.
abbrev RankedAt : ℕ → List Duration → Type 0
RankedAt i xs =
    (v : Duration) × (get_elem? xs i ≡ some v) × (suc i ≤ count_le v xs) × (count_lt v xs ≤ i)

above-at :
    (x v : Duration) (xs : List Duration) (i : ℕ)
    → All (λ y. x ≤ y) xs
    → get_elem? xs i ≡ some v
    → x ≤ v
above-at x v [] i u e = cc
above-at x v (y ∷ ys) zero (le, rest) e = ground arith
above-at x v (y ∷ ys) (suc i) (le, rest) e = above-at x v ys i rest e

ranked : (xs : List Duration) (i : ℕ) → IsAscending xs → i < length xs → RankedAt i xs
ranked [] i u h = absurd (omega arith)
ranked (x ∷ xs) zero (above, rest) h =
    (x, refl, ground arith, ground (arith, count_lt-above x xs above))
ranked (x ∷ xs) (suc i) (above, rest) h =
    let (v, found, most, least) = ranked xs i rest (omega arith) in
    (v, found, ground (arith, above-at x v xs i above found), ground arith)

abbrev IsRank : ℕ → ℕ → Type 0
IsRank r n = (1 ≤ r) × (r ≤ n) × (95 * n ≤ 100 * r) × (100 * r < 95 * n + 100)

rank_95-IsRank : (n : ℕ) → 1 ≤ n → n < 2 ^ 57 → IsRank (rank_95 n) n
unfolding rank_95
rank_95-IsRank n h few = omega arith

sort-at_rank :
    (samples : List Duration) (r : ℕ)
    → IsRank r (length samples)
    → (v : Duration) × (at_rank (sort samples) r ≡ some v)
      × (95 * length samples ≤ 100 * count_le v samples)
      × (100 * count_lt v samples < 95 * length samples)
sort-at_rank samples zero (positive, fits, reaches, nearest) = absurd (omega arith)
sort-at_rank samples (suc i) (positive, fits, reaches, nearest) =
    let (v, found, most, least) =
      ranked (sort samples) i (sort-IsAscending samples) (omega (arith, length-sort samples)) in
    (v, found, omega (arith, count_le-sort v samples), omega (arith, count_lt-sort v samples))

-- On at least one sample, and fewer than 2^57, `percentile_95` returns the nearest-rank percentile: a
-- value with 95 % of the samples at most as large, while fewer than 95 % are smaller.
pub percentile_95_lem :
    (samples : List Duration)
    → 1 ≤ length samples
    → length samples < 2 ^ 57
    → (v : Duration) × (percentile_95 samples ≡ some v)
      × (95 * length samples ≤ 100 * count_le v samples)
      × (100 * count_lt v samples < 95 * length samples)
unfolding percentile_95 sort
percentile_95_lem [] h few = absurd (omega arith)
percentile_95_lem (x ∷ xs) h few =
    sort-at_rank (x ∷ xs) (rank_95 (length (x ∷ xs))) (rank_95-IsRank (length (x ∷ xs)) h few)

All-insert_one :
    (P : Duration → Type 0) (x : Duration) (ys : List Duration)
    → P x
    → All P ys
    → All P (insert x ys)
All-insert_one P x [] p u = (p, tt)
All-insert_one P x (y ∷ ys) p (q, u) = elim (Bool-cases (leb x y)) [
  | inl e ↦ rw e (p, (q, u))
  | inr e ↦ rw e (q, All-insert_one P x ys p u)
]

All-sort : (P : Duration → Type 0) (xs : List Duration) → All P xs → All P (sort xs)
unfolding sort
All-sort P [] u = tt
All-sort P (x ∷ xs) (p, u) = All-insert_one P x (sort xs) p (All-sort P xs u)

All-at_rank :
    (P : Duration → Type 0) (xs : List Duration) (r : ℕ) (v : Duration)
    → All P xs
    → at_rank xs r ≡ some v
    → P v
All-at_rank P xs zero v u e = absurd cc
All-at_rank P [] (suc i) v u e = absurd cc
All-at_rank P (x ∷ xs) (suc zero) v (p, u) e = subst P (cc) p
All-at_rank P (x ∷ xs) (suc (suc i)) v (p, u) e = All-at_rank P xs (suc i) v u e

-- The percentile is one of the samples.
pub All-percentile_95 :
    (P : Duration → Type 0) (samples : List Duration) (v : Duration)
    → All P samples
    → percentile_95 samples ≡ some v
    → P v
unfolding percentile_95 sort
All-percentile_95 P [] v u e = absurd cc
All-percentile_95 P (x ∷ xs) v u e =
    All-at_rank P (sort (x ∷ xs)) (rank_95 (length (x ∷ xs))) v (All-sort P (x ∷ xs) u) e
