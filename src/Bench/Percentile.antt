-- ===== src/Bench/Percentile.antt =====
-- `percentile_95` of bench/src/lib.rs.
pub mod Rank
use secure_tunnel.Prelude.{
  ℕ, zero, suc, ◌+◌, ◌-◌, ◌*◌, ◌/◌, ◌%◌, ◌^◌, List, [], ◌∷◌, Option, some, none, leb, if◌then◌else◌,
  length,
}

-- A duration is its number of nanoseconds.
abbrev pub Duration : Type 0
Duration = ℕ

abbrev pub usize_mod : ℕ
usize_mod = 2 ^ 64

-- `sort_unstable`; values that compare equal are equal, so that any sorting is this one.
abbrev pub insert : Duration → List Duration → List Duration
insert x [] = x ∷ []
insert x (y ∷ ys) = if leb x y then x ∷ (y ∷ ys) else (y ∷ insert x ys)

pub sort : List Duration → List Duration
sort [] = []
sort (x ∷ xs) = insert x (sort xs)

-- `n.div_ceil(d)`
abbrev pub div_ceil : ℕ → ℕ → ℕ
div_ceil n d = (n + (d - 1)) / d

-- The product wraps in a release build.
pub rank_95 : ℕ → ℕ
rank_95 count = div_ceil ((95 * count) % usize_mod) 100

-- `slice[i]`, which panics out of range.
abbrev pub get_elem? {ℓ} : {A : Type ℓ} → List A → ℕ → Option A
get_elem? [] i = none
get_elem? (x ∷ xs) zero = some x
get_elem? (x ∷ xs) (suc i) = get_elem? xs i

abbrev pub at_rank : List Duration → ℕ → Option Duration
at_rank sorted zero = none
at_rank sorted (suc i) = get_elem? sorted i

-- Nothing where the program panics: on no samples, by the `assert!`, and on an index out of range.
unfoldable pub percentile_95 : List Duration → Option Duration
unfolding sort rank_95
percentile_95 [] = none
percentile_95 (x ∷ xs) = at_rank (sort (x ∷ xs)) (rank_95 (length (x ∷ xs)))
