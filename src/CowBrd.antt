-- ===== src/CowBrd.antt =====
-- code/cow_brd.c, the RAM block device with copy-on-write snapshots: its constants, a device
-- (struct brd_device) and what it takes from the kernel.
use crashmonkey.Common.{
  ℕ, ◌≤◌, ◌<◌, ◌+◌, ◌*◌, ◌%◌, ◌≢◌, ◌≡◌, ◌⊎◌, Bool, Option, none, List, length, All,
}
pub mod Pages
pub mod Copy
pub mod Requests
pub mod Ioctl
pub mod View
pub mod Transfers
pub mod Branches
pub mod Writes
pub mod Reads
pub mod Segments
pub mod ReadAfterWrite
pub mod Frozen
pub mod Restore

-- PAGE_SIZE and PAGE_SECTORS with pages of 4096 bytes; a sector is `1 << SECTOR_SHIFT` bytes.
abbrev pub page_size : ℕ
page_size = 4096

abbrev pub page_sectors : ℕ
page_sectors = 8

abbrev pub sector_size : ℕ
sector_size = 512

-- What a kernel address of a page points to: a byte at each distance.
abbrev pub Page : Type 0
Page = ℕ → ℕ

-- linux/radix-tree.h over pages, each under its index. A page stands in one tree only, so that
-- a tree holds what its pages contain: `put` is radix_tree_insert at an index that is empty,
-- and a write through the pointer at one that is not. `bound` is above every index.
pub record RadixTree : Type 1 where
  pub Tree : Type 0
  pub lookup : Tree → ℕ → Option Page
  pub put : Tree → ℕ → Page → Tree
  pub delete : Tree → ℕ → Tree
  pub gang_lookup : Tree → ℕ → ℕ → List ℕ
  pub bound : Tree → ℕ

-- What linux/radix-tree.h documents: gang_lookup returns the indices from `first` on in
-- ascending order, and fewer than asked for only if there are no more.
abbrev pub IsAscendingFrom : ℕ → List ℕ → Type 0
IsAscendingFrom first List.[] = Unit
IsAscendingFrom first (List.◌∷◌ i is) = first ≤ i × IsAscendingFrom (1 + i) is

pub record IsRadixTree (radix : RadixTree) : Type 0 where
  pub lookup-put_self :
      (t : radix.Tree) (i : ℕ) (p : Page) → radix.lookup (radix.put t i p) i ≡ Option.some p
  pub lookup-put_ne :
      (t : radix.Tree) {i j : ℕ} (p : Page)
      → i ≢ j
      → radix.lookup (radix.put t i p) j ≡ radix.lookup t j
  pub lookup-delete_self : (t : radix.Tree) (i : ℕ) → radix.lookup (radix.delete t i) i ≡ none
  pub lookup-delete_ne :
      (t : radix.Tree) {i j : ℕ} → i ≢ j → radix.lookup (radix.delete t i) j ≡ radix.lookup t j
  pub below-bound : (t : radix.Tree) (i : ℕ) → radix.lookup t i ≢ none → i < radix.bound t
  pub gang-present :
      (t : radix.Tree) (first n : ℕ)
      → All (λ i. radix.lookup t i ≢ none) (radix.gang_lookup t first n)
  pub gang-ascending :
      (t : radix.Tree) (first n : ℕ) → IsAscendingFrom first (radix.gang_lookup t first n)
  pub gang-complete :
      (t : radix.Tree) (first n i : ℕ)
      → first ≤ i
      → radix.lookup t i ≢ none
      → All (λ j. j ≢ i) (radix.gang_lookup t first n)
      → (length (radix.gang_lookup t first n) ≡ n) × All (λ j. j < i) (radix.gang_lookup t first n)

-- The errors that the driver returns, negated in the source.
pub data Errno : Type 0 where
  success : Errno
  eio : Errno
  enomem : Errno
  enotty : Errno

unfoldable pub is_error : Errno → Bool
is_error success = Bool.false
is_error eio = Bool.true
is_error enomem = Bool.true
is_error enotty = Bool.true

-- struct brd_device less the kernel's own parts; `capacity` (in sectors) is what set_capacity
-- stored in its disk. What parent_brd points to is an argument of the operations.
pub record BrdDevice (radix : RadixTree) : Type 0 where
  pub brd_number : ℕ
  pub is_writable : Bool
  pub is_snapshot : Bool
  pub brd_pages : radix.Tree
  pub capacity : ℕ
