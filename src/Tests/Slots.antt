-- ===== src/Tests/Slots.antt =====
-- A radix tree for the tests of code/cow_brd.c: the list of its slots.
use mathlib.Core.Option.{some-ne-none}
use mathlib.Core.Path.{subst}
use crashmonkey.Common.{
  ℕ, zero, suc, ◌+◌, ◌≤◌, ◌<◌, ◌≡◌, ◌≢◌, refl, sym, ap, ◌∙◌, Option, none, some, List, [], ◌∷◌,
  length, All, arith,
}
use crashmonkey.CowBrd.{Page, RadixTree, IsRadixTree, IsAscendingFrom}

abbrev pub Slots : Type 0
Slots = List (Option Page)

unfoldable pub lookup : Slots → ℕ → Option Page
lookup [] i = none
lookup (x ∷ xs) zero = x
lookup (x ∷ xs) (suc i) = lookup xs i

unfoldable pub put : Slots → ℕ → Page → Slots
put [] zero p = some p ∷ []
put [] (suc i) p = none ∷ put [] i p
put (x ∷ xs) zero p = some p ∷ xs
put (x ∷ xs) (suc i) p = x ∷ put xs i p

unfoldable pub delete : Slots → ℕ → Slots
delete [] i = []
delete (x ∷ xs) zero = none ∷ xs
delete (x ∷ xs) (suc i) = x ∷ delete xs i

-- The slots from index i on: `skip` of them passed over, then at most n indices.
unfoldable pub walk : Slots → ℕ → ℕ → ℕ → List ℕ
walk [] i skip n = []
walk (x ∷ xs) i (suc skip) n = walk xs (suc i) skip n
walk (x ∷ xs) i zero zero = []
walk (none ∷ xs) i zero (suc n) = walk xs (suc i) zero (suc n)
walk (some p ∷ xs) i zero (suc n) = i ∷ walk xs (suc i) zero n

abbrev pub slots : RadixTree
slots = record {
  Tree = Slots;
  lookup = lookup;
  put = put;
  delete = delete;
  gang_lookup = λ t first n. walk t 0 first n;
  bound = length;
}

lookup-put_self : (t : Slots) (i : ℕ) (p : Page) → lookup (put t i p) i ≡ some p
unfolding lookup put
lookup-put_self [] zero p = refl
lookup-put_self [] (suc i) p = lookup-put_self [] i p
lookup-put_self (x ∷ xs) zero p = refl
lookup-put_self (x ∷ xs) (suc i) p = lookup-put_self xs i p

lookup-put_ne : (t : Slots) (i j : ℕ) (p : Page) → i ≢ j → lookup (put t i p) j ≡ lookup t j
unfolding lookup put
lookup-put_ne [] zero zero p h = absurd (h refl)
lookup-put_ne [] zero (suc j) p h = refl
lookup-put_ne [] (suc i) zero p h = refl
lookup-put_ne [] (suc i) (suc j) p h = lookup-put_ne [] i j p (λ e. h (ap suc e))
lookup-put_ne (x ∷ xs) zero zero p h = absurd (h refl)
lookup-put_ne (x ∷ xs) zero (suc j) p h = refl
lookup-put_ne (x ∷ xs) (suc i) zero p h = refl
lookup-put_ne (x ∷ xs) (suc i) (suc j) p h = lookup-put_ne xs i j p (λ e. h (ap suc e))

lookup-delete_self : (t : Slots) (i : ℕ) → lookup (delete t i) i ≡ none
unfolding lookup delete
lookup-delete_self [] i = refl
lookup-delete_self (x ∷ xs) zero = refl
lookup-delete_self (x ∷ xs) (suc i) = lookup-delete_self xs i

lookup-delete_ne : (t : Slots) (i j : ℕ) → i ≢ j → lookup (delete t i) j ≡ lookup t j
unfolding lookup delete
lookup-delete_ne [] i j h = refl
lookup-delete_ne (x ∷ xs) zero zero h = absurd (h refl)
lookup-delete_ne (x ∷ xs) zero (suc j) h = refl
lookup-delete_ne (x ∷ xs) (suc i) zero h = refl
lookup-delete_ne (x ∷ xs) (suc i) (suc j) h = lookup-delete_ne xs i j (λ e. h (ap suc e))

below-length : (t : Slots) (i : ℕ) → lookup t i ≢ none → i < length t
unfolding lookup
below-length [] i h = absurd (h refl)
below-length (x ∷ xs) zero h = omega arith
below-length (x ∷ xs) (suc i) h = omega (arith, below-length xs i h)

-- The laws of `walk` over the slots of t from index i on.
behind :
    (t : Slots) (x : Option Page) (xs : Slots) (i : ℕ)
    → ((k : ℕ) → lookup t (i + k) ≡ lookup (x ∷ xs) k)
    → (k : ℕ) → lookup t (suc i + k) ≡ lookup xs k
unfolding lookup
behind t x xs i h k = ap (lookup t) {y = i + suc k} (omega arith) ∙ h (suc k)

head-slot :
    (t : Slots) (x : Option Page) (xs : Slots) (i : ℕ)
    → ((k : ℕ) → lookup t (i + k) ≡ lookup (x ∷ xs) k)
    → lookup t i ≡ x
unfolding lookup
head-slot t x xs i h = ap (lookup t) {y = i + 0} (omega arith) ∙ h 0

walk-present :
    (t xs : Slots) (i skip n : ℕ)
    → ((k : ℕ) → lookup t (i + k) ≡ lookup xs k)
    → All (λ j. lookup t j ≢ none) (walk xs i skip n)
unfolding walk
walk-present t [] i skip n h = tt
walk-present t (x ∷ xs) i (suc skip) n h = walk-present t xs (suc i) skip n (behind t x xs i h)
walk-present t (x ∷ xs) i zero zero h = tt
walk-present t (none ∷ xs) i zero (suc n) h =
    walk-present t xs (suc i) zero (suc n) (behind t none xs i h)
walk-present t (some p ∷ xs) i zero (suc n) h = (
  λ e. some-ne-none p (sym (head-slot t (some p) xs i h) ∙ e),
  walk-present t xs (suc i) zero n (behind t (some p) xs i h),
)

walk-ascending :
    (xs : Slots) (i skip n first : ℕ) → first ≤ i + skip → IsAscendingFrom first (walk xs i skip n)
unfolding walk
walk-ascending [] i skip n first h = tt
walk-ascending (x ∷ xs) i (suc skip) n first h =
    walk-ascending xs (suc i) skip n first (omega arith)
walk-ascending (x ∷ xs) i zero zero first h = tt
walk-ascending (none ∷ xs) i zero (suc n) first h =
    walk-ascending xs (suc i) zero (suc n) first (omega arith)
walk-ascending (some p ∷ xs) i zero (suc n) first h =
    (omega arith, walk-ascending xs (suc i) zero n (1 + i) (omega arith))

suc-place : (i k : ℕ) → suc i + k ≡ i + suc k
suc-place i k = omega arith

walk_complete :
    (xs : Slots) (i skip n k : ℕ)
    → skip ≤ k
    → lookup xs k ≢ none
    → All (λ j. j ≢ i + k) (walk xs i skip n)
    → (length (walk xs i skip n) ≡ n) × All (λ j. j < i + k) (walk xs i skip n)
unfolding walk lookup
walk_complete [] i skip n k h here others = absurd (here refl)
walk_complete (x ∷ xs) i (suc skip) n zero h here others = elim h [ ]
walk_complete (x ∷ xs) i (suc skip) n (suc k) h here others =
    subst
      (λ m.
        All (λ j. j ≢ m) (walk xs (suc i) skip n)
        → (length (walk xs (suc i) skip n) ≡ n) × All (λ j. j < m) (walk xs (suc i) skip n))
      (suc-place i k) (walk_complete xs (suc i) skip n k (omega arith) here) others
walk_complete (x ∷ xs) i zero zero k h here others = (refl, tt)
walk_complete (none ∷ xs) i zero (suc n) zero h here others = absurd (here refl)
walk_complete (none ∷ xs) i zero (suc n) (suc k) h here others =
    subst
      (λ m.
        All (λ j. j ≢ m) (walk xs (suc i) zero (suc n))
        → (length (walk xs (suc i) zero (suc n)) ≡ suc n)
          × All (λ j. j < m) (walk xs (suc i) zero (suc n)))
      (suc-place i k) (walk_complete xs (suc i) zero (suc n) k (omega arith) here) others
walk_complete (some p ∷ xs) i zero (suc n) zero h here others = absurd (others.0 (omega arith))
walk_complete (some p ∷ xs) i zero (suc n) (suc k) h here others =
    let (count, below) =
      subst
        (λ m.
          All (λ j. j ≢ m) (walk xs (suc i) zero n)
          → (length (walk xs (suc i) zero n) ≡ n) × All (λ j. j < m) (walk xs (suc i) zero n))
        (suc-place i k) (walk_complete xs (suc i) zero n k (omega arith) here) others.1 in
    (ap suc count, (omega arith, below))

pub slots-IsRadixTree : IsRadixTree slots
unfolding lookup
slots-IsRadixTree = record {
  lookup-put_self = lookup-put_self;
  lookup-put_ne = λ t {i} {j} p ne. lookup-put_ne t i j p ne;
  lookup-delete_self = lookup-delete_self;
  lookup-delete_ne = λ t {i} {j} ne. lookup-delete_ne t i j ne;
  below-bound = below-length;
  gang-present = λ t first n. walk-present t t 0 first n (λ k. ap (lookup t) (omega arith));
  gang-ascending = λ t first n. walk-ascending t 0 first n first (omega arith);
  gang-complete = λ t first n i h here others.
      subst
        (λ m.
          All (λ j. j ≢ m) (walk t 0 first n)
          → (length (walk t 0 first n) ≡ n) × All (λ j. j < m) (walk t 0 first n))
        (omega arith) (walk_complete t 0 first n i h here) others;
}
