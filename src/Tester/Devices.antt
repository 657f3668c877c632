-- ===== src/Tester/Devices.antt =====
-- code/harness/Tester.cpp: the modules that Tester inserts and removes, its open devices, and
-- cleanup_harness. The system is the parameter Modules beside the Machine of Tester/Check.
pub mod Tracks
pub mod Calls
pub mod Mounts
pub mod Cleanup
use crashmonkey.Common.{Bool, true, false, Option, none, some}
use crashmonkey.Tester.Check.{Machine, State, mount_device, umount_device}
use crashmonkey.Sockets.{Fd}

pub data Module : Type 0 where
  cow_brd : Module
  disk_wrapper : Module

-- The commands that are run with `system`, with whether they return 0, open and close of
-- /dev/cow_ram0 and /dev/hwm, and unload_class of the permuter and of the test.
pub record Modules (G : Type 0) : Type 0 where
  pub insmod : G → Module → Bool × G
  pub rmmod : G → Module → Bool × G
  pub open_device : G → Module → Fd × G
  pub close : G → Fd → G
  pub unload_classes : G → G

pub data Code : Type 0 where
  harness_success : Code
  mnt_umnt_err : Code
  wrapper_insert_err : Code
  wrapper_remove_err : Code
  wrapper_open_dev_err : Code

-- Tester's fields for modules and devices.
pub record Harness (G : Type 0) : Type 0 where
  pub state : State G
  pub wrapper_inserted : Bool
  pub cow_brd_inserted : Bool
  pub cow_brd_fd : Fd
  pub ioctl_fd : Fd

unfoldable pub with_world : {G : Type 0} → Harness G → G → Harness G
with_world h g = record h { state = record (h.state) { world = g } }

-- What is kept of the result of a call.
unfoldable pub not_opened : {G : Type 0} → Harness G → Bool → Code × Harness G
not_opened h true = (harness_success, record h { cow_brd_inserted = true; cow_brd_fd = none })
not_opened h false = (wrapper_remove_err, record h { cow_brd_inserted = false; cow_brd_fd = none })

unfoldable pub removed_cow_brd : {G : Type 0} → Harness G → Bool → Code × Harness G
removed_cow_brd h true = (harness_success, h)
removed_cow_brd h false = (wrapper_remove_err, record h { cow_brd_inserted = true })

unfoldable pub inserted_wrapper : {G : Type 0} → Harness G → Bool → Code × Harness G
inserted_wrapper h true = (harness_success, record h { wrapper_inserted = true })
inserted_wrapper h false = (wrapper_insert_err, record h { wrapper_inserted = false })

unfoldable pub removed_wrapper : {G : Type 0} → Harness G → Bool → Code × Harness G
removed_wrapper h true = (harness_success, record h { wrapper_inserted = false })
removed_wrapper h false = (wrapper_remove_err, record h { wrapper_inserted = true })

unfoldable pub opened_wrapper : {G : Type 0} → Harness G → Fd → Code × Harness G
opened_wrapper h none = (wrapper_open_dev_err, record h { ioctl_fd = none })
opened_wrapper h (some f) = (harness_success, record h { ioctl_fd = some f })

unfoldable pub unmounted : {G : Type 0} → Harness G → Bool → Code × Harness G
unmounted h true = (harness_success, h)
unmounted h false = (mnt_umnt_err, h)

module _ {G : Type 0} (sys : Modules G) where
  -- What follows the open in insert_cow_brd.
  unfoldable pub opened_cow_brd : Harness G → Fd → Code × Harness G
  opened_cow_brd h (some f) =
      (harness_success, record h { cow_brd_inserted = true; cow_brd_fd = some f })
  opened_cow_brd h none =
      let (removed, g') = sys.rmmod h.state.world cow_brd in not_opened (with_world h g') removed

  unfoldable pub open_cow_brd : Harness G → Code × Harness G
  open_cow_brd h =
      let (fd, g') = sys.open_device h.state.world cow_brd in opened_cow_brd (with_world h g') fd

  unfoldable pub inserted_cow_brd : Harness G → Bool → Code × Harness G
  inserted_cow_brd h false = (wrapper_insert_err, record h { cow_brd_fd = none })
  inserted_cow_brd h true = open_cow_brd h

  -- The second argument is `cow_brd_fd`.
  unfoldable pub insert_cow_brd_at : Harness G → Fd → Code × Harness G
  insert_cow_brd_at h (some f) = open_cow_brd h
  insert_cow_brd_at h none =
      let (inserted, g') = sys.insmod h.state.world cow_brd in
      inserted_cow_brd (with_world h g') inserted

  unfoldable pub insert_cow_brd : Harness G → Code × Harness G
  insert_cow_brd h = insert_cow_brd_at h h.cow_brd_fd

  -- The second argument is `cow_brd_fd`.
  unfoldable pub close_cow_brd : Harness G → Fd → Harness G
  close_cow_brd h none = h
  close_cow_brd h (some f) = record (with_world h (sys.close h.state.world (some f))) {
    cow_brd_fd = none;
    cow_brd_inserted = false;
  }

  unfoldable pub rmmod_cow_brd : Harness G → Code × Harness G
  rmmod_cow_brd h =
      let (removed, g') = sys.rmmod h.state.world cow_brd in
      removed_cow_brd (with_world h g') removed

  -- The second argument is `cow_brd_inserted`.
  unfoldable pub remove_cow_brd_if : Harness G → Bool → Code × Harness G
  remove_cow_brd_if h false = (harness_success, h)
  remove_cow_brd_if h true = rmmod_cow_brd (close_cow_brd h h.cow_brd_fd)

  unfoldable pub remove_cow_brd : Harness G → Code × Harness G
  remove_cow_brd h = remove_cow_brd_if h h.cow_brd_inserted

  -- The second argument of this and the next is `wrapper_inserted`.
  unfoldable pub insert_wrapper_if : Harness G → Bool → Code × Harness G
  insert_wrapper_if h true = (harness_success, record h { wrapper_inserted = true })
  insert_wrapper_if h false =
      let (inserted, g') = sys.insmod h.state.world disk_wrapper in
      inserted_wrapper (with_world h g') inserted

  unfoldable pub insert_wrapper : Harness G → Code × Harness G
  insert_wrapper h = insert_wrapper_if h h.wrapper_inserted

  unfoldable pub remove_wrapper_if : Harness G → Bool → Code × Harness G
  remove_wrapper_if h false = (harness_success, record h { wrapper_inserted = false })
  remove_wrapper_if h true =
      let (removed, g') = sys.rmmod h.state.world disk_wrapper in
      removed_wrapper (with_world h g') removed

  unfoldable pub remove_wrapper : Harness G → Code × Harness G
  remove_wrapper h = remove_wrapper_if h h.wrapper_inserted

  unfoldable pub get_wrapper_ioctl : Harness G → Code × Harness G
  get_wrapper_ioctl h =
      let (fd, g') = sys.open_device h.state.world disk_wrapper in
      opened_wrapper (with_world h g') fd

  -- The second argument is `ioctl_fd`.
  unfoldable pub put_wrapper_ioctl_at : Harness G → Fd → Harness G
  put_wrapper_ioctl_at h none = h
  put_wrapper_ioctl_at h (some f) = record (with_world h (sys.close h.state.world (some f))) {
    ioctl_fd = none;
  }

  unfoldable pub put_wrapper_ioctl : Harness G → Harness G
  put_wrapper_ioctl h = put_wrapper_ioctl_at h h.ioctl_fd

  unfoldable pub unload : Harness G → Harness G
  unload h = with_world h (sys.unload_classes h.state.world)

unfoldable pub is_success : Code → Bool
is_success harness_success = true
is_success err = false

module _ {G : Type 0} (os : Machine G) (sys : Modules G) where
  -- umount_device of the whole Tester.
  unfoldable pub umount_harness : Harness G → Code × Harness G
  umount_harness h =
      let (umounts, s') = umount_device os h.state in unmounted (record h { state = s' }) umounts

  -- mount_device of the whole Tester.
  unfoldable pub mount_harness : Harness G → Bool × Harness G
  mount_harness h = let (mounts, s') = mount_device os h.state in (mounts, record h { state = s' })

  -- `if (… != SUCCESS) { …; return; }`: what comes next, if the step before succeeded.
  unfoldable pub go_on : Code × Harness G → (Harness G → Harness G) → Harness G
  go_on p next = elim (is_success p.0) [ true ↦ next p.1 | false ↦ unload sys p.1 ]

  -- Each of its ways out ends with both unload_class calls.
  unfoldable pub cleanup_harness : Harness G → Harness G
  cleanup_harness h =
      go_on (umount_harness h)
        λ h1. go_on (remove_wrapper sys h1) λ h2. go_on (remove_cow_brd sys h2) (unload sys)
