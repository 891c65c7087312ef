-- ===== src/Config/Values.antt =====
-- Addresses and paths, as far as the configurations look at them.
use secure_tunnel.Prelude.{
  ℕ, ◌≡◌, ◌≢◌, List, [], ◌∷◌, ◌++◌, Bool, true, false, ◌&&◌, ◌||◌, ◌==◌, if◌then◌else◌, Text,
  bytes_eq, is_empty, All, arith, refl, ◌↔◌,
}

-- An IPv6 address is its 128-bit number.
pub data IpAddr : Type 0 where
  v4 : (a b c d : ℕ) → IpAddr
  v6 : ℕ → IpAddr

pub record SocketAddr : Type 0 where
  pub ip : IpAddr
  pub port : ℕ

-- 127.0.0.0/8, and ::1.
abbrev pub is_loopback : IpAddr → Bool
is_loopback (v4 a b c d) = a == 127
is_loopback (v6 n) = n == 1

abbrev pub IsLoopback : IpAddr → Type 0
IsLoopback (v4 a b c d) = a ≡ 127
IsLoopback (v6 n) = n ≡ 1

pub is_loopback_iff : (ip : IpAddr) → (is_loopback ip ≡ true) ↔ IsLoopback ip
is_loopback_iff (v4 a b c d) = ground arith
is_loopback_iff (v6 n) = ground arith

pub is_empty_iff {ℓ} : {A : Type ℓ} (t : List A) → (is_empty t ≡ false) ↔ (t ≢ [])
is_empty_iff [] = ((λ e. cc), λ h. absurd (h refl))
is_empty_iff (c ∷ cs) = ((λ e p. cc), λ h. refl)

abbrev pub PathBuf : Type 0
PathBuf = Text

-- The parts of a path between slashes.
split_from : Text → Text → List Text
split_from part [] = part ∷ []
split_from part (c ∷ cs) =
    if c == b'/' then part ∷ split_from [] cs else split_from (part ++ c ∷ []) cs

abbrev drop_trivial : List Text → List Text
drop_trivial [] = []
drop_trivial (p ∷ ps) =
    if is_empty p || bytes_eq p (b'.' ∷ []) then drop_trivial ps else p ∷ drop_trivial ps

-- `Path::components`: repeated slashes and inner dots do not count; a root or a leading dot does.
components_of : List Text → List Text
components_of [] = []
components_of (first ∷ rest) =
    if is_empty first && is_empty rest
    then []
    else if is_empty first
    then (b'/' ∷ []) ∷ drop_trivial rest
    else first ∷ drop_trivial rest

pub components : PathBuf → List Text
unfolding split_from components_of
components p = components_of (split_from [] p)

abbrev texts_eq : List Text → List Text → Bool
texts_eq [] [] = true
texts_eq [] (y ∷ ys) = false
texts_eq (x ∷ xs) [] = false
texts_eq (x ∷ xs) (y ∷ ys) = bytes_eq x y && texts_eq xs ys

-- Two paths are equal if their components are.
unfoldable pub path_eq : PathBuf → PathBuf → Bool
unfolding components
path_eq p q = texts_eq (components p) (components q)

abbrev pub contains_path : List PathBuf → PathBuf → Bool
contains_path [] p = false
contains_path (q ∷ qs) p = path_eq q p || contains_path qs p

-- `any(|path| !seen.insert(path))`
unfoldable pub has_duplicate : List PathBuf → List PathBuf → Bool
has_duplicate seen [] = false
has_duplicate seen (p ∷ ps) = contains_path seen p || has_duplicate (p ∷ seen) ps

-- No path equals a later one.
abbrev pub IsDistinct : List PathBuf → Type 0
IsDistinct [] = Unit {0}
IsDistinct (p ∷ ps) = All (λ q. path_eq p q ≡ false) ps × IsDistinct ps

abbrev AllNew : List PathBuf → List PathBuf → Type 0
AllNew seen ps = All (λ p. contains_path seen p ≡ false) ps

AllNew-cons :
    (q : PathBuf) (seen ps : List PathBuf)
    → AllNew (q ∷ seen) ps ↔ (All (λ p. path_eq q p ≡ false) ps × AllNew seen ps)
AllNew-cons q seen [] = ((λ h. (tt, tt)), λ h. tt)
AllNew-cons q seen (p ∷ ps) = ground (arith, AllNew-cons q seen ps)

has_duplicate-AllNew :
    (seen ps : List PathBuf) → (has_duplicate seen ps ≡ false) ↔ (AllNew seen ps × IsDistinct ps)
unfolding has_duplicate
has_duplicate-AllNew seen [] = ((λ h. (tt, tt)), λ h. refl)
has_duplicate-AllNew seen (p ∷ ps) =
    ground (arith, has_duplicate-AllNew (p ∷ seen) ps, AllNew-cons p seen ps)

AllNew-nil : (ps : List PathBuf) → AllNew [] ps
AllNew-nil [] = tt
AllNew-nil (p ∷ ps) = (refl, AllNew-nil ps)

-- Starting from one path, the loop finds no duplicate exactly if that path and the others are
-- pairwise different.
pub has_duplicate_iff :
    (p : PathBuf) (ps : List PathBuf) → (has_duplicate (p ∷ []) ps ≡ false) ↔ IsDistinct (p ∷ ps)
has_duplicate_iff p ps =
    ground (arith, has_duplicate-AllNew (p ∷ []) ps, AllNew-cons p [] ps, AllNew-nil ps)

-- What a setting asks for when it is on.
abbrev pub When : Bool → Type 0 → Type 0
When true P = P
When false P = Unit {0}
