-- ===== src/Permuter.antt =====
-- code/permuter/Permuter.h and code/permuter/Permuter.cpp: the data of class Permuter, and the
-- equality and the hash of the index vectors that it remembers.
pub mod Init
pub mod Generate
pub mod Random
pub mod CrashStates
use Prim.Native.Nat.{bit_xor}
use crashmonkey.Common.{
  ℕ, ◌+◌, ◌*◌, ◌/◌, ◌%◌, ◌^◌, Bool, true, false, ◌&&◌, ◌==◌, List, [], ◌∷◌, length,
}
use crashmonkey.DiskWrite.{DiskWrite}

-- struct epoch_op
pub record EpochOp : Type 0 where
  pub abs_index : ℕ
  pub op : DiskWrite

-- struct epoch
pub record Epoch : Type 0 where
  pub num_meta : ℕ
  pub has_barrier : Bool
  pub overlaps : Bool
  pub ops : List EpochOp

unfoldable pub hash_from : ℕ → List ℕ → ℕ
hash_from seed [] = seed
hash_from seed (pos ∷ rest) =
    hash_from (bit_xor seed ((pos + 0x9e3779b9 + seed * 2 ^ 6 % 2 ^ 32 + seed / 2 ^ 2) % 2 ^ 32))
      rest

-- `BioVectorHash`: the seed is an unsigned int of 32 bits.
pub bio_vector_hash : List ℕ → ℕ
unfolding hash_from
bio_vector_hash permutation = hash_from (length permutation % 2 ^ 32) permutation

-- The loop of `BioVectorEqual` over two vectors of one size.
unfoldable pub same_elements : List ℕ → List ℕ → Bool
same_elements [] _ = true
same_elements (x ∷ xs) [] = false
same_elements (x ∷ xs) (y ∷ ys) = x == y && same_elements xs ys

-- `BioVectorEqual`
unfoldable pub bio_vector_equal : List ℕ → List ℕ → Bool
unfolding same_elements
bio_vector_equal a b = length a == length b && same_elements a b
