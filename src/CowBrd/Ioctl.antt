-- ===== src/CowBrd/Ioctl.antt =====
-- code/cow_brd.c: brd_ioctl and its commands.
use crashmonkey.Common.{ℕ, Bool, true, false, ◌>>=◌, Option, some}
use crashmonkey.CowBrd.{RadixTree, BrdDevice, Errno, success, enotty}
use crashmonkey.CowBrd.Pages.{brd_free_pages}
use crashmonkey.CowBrd.Requests.{set_pages}

-- The commands of code/disk_wrapper_ioctl.h that the driver knows, and any other.
pub data Command : Type 0 where
  cow_brd_snapshot : Command
  cow_brd_unsnapshot : Command
  cow_brd_restore_snapshot : Command
  cow_brd_wipe : Command
  other : ℕ → Command

module _ (radix : RadixTree) where
  unfoldable pub set_writable : BrdDevice radix → Bool → BrdDevice radix
  set_writable brd b = record {
    brd_number = brd.brd_number;
    is_writable = b;
    is_snapshot = brd.is_snapshot;
    brd_pages = brd.brd_pages;
    capacity = brd.capacity;
  }

  unfoldable pub free_all : BrdDevice radix → Option (Errno × BrdDevice radix)
  free_all brd = do t ← brd_free_pages radix brd.brd_pages; some (success, set_pages radix brd t)

  unfoldable pub brd_ioctl : BrdDevice radix → Command → Option (Errno × BrdDevice radix)
  brd_ioctl brd cow_brd_snapshot = elim brd.is_snapshot [
    | true ↦ some (enotty, brd)
    | false ↦ some (success, set_writable brd false)
  ]
  brd_ioctl brd cow_brd_unsnapshot = elim brd.is_snapshot [
    | true ↦ some (enotty, brd)
    | false ↦ some (success, set_writable brd true)
  ]
  brd_ioctl brd cow_brd_restore_snapshot = elim brd.is_snapshot [
    | true ↦ free_all brd
    | false ↦ some (enotty, brd)
  ]
  brd_ioctl brd cow_brd_wipe = elim brd.is_snapshot [
    | true ↦ some (enotty, brd)
    | false ↦ free_all brd
  ]
  brd_ioctl brd (other n) = some (enotty, brd)
