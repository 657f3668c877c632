-- ===== src/Tests/DevicesTests.antt =====
-- A kernel that knows which of its two modules are loaded and whether /dev/cow_ram0 opens, and the
-- theorems on Tester's modules at it.
use crashmonkey.Common.{
  ℕ, suc, ◌-◌, ltb, ◌≡◌, refl, Bool, true, false, ◌&&◌, not, if◌then◌else◌, Option, none, some, [],
}
use crashmonkey.CowBrd.{}
use crashmonkey.Tester.Check.{Machine}
use crashmonkey.Tester.Devices.{
  Module, cow_brd, disk_wrapper, Modules, Harness, harness_success, wrapper_remove_err,
  insert_cow_brd, remove_cow_brd, insert_wrapper, mount_harness,
}
use crashmonkey.Tester.Devices.Tracks.{same, IsModules}
use crashmonkey.Tester.Devices.Calls.{mounts}
use crashmonkey.Tester.Devices.Cleanup.{insert_cow_brd-remove}

record Kernel : Type 0 where
  brd : Bool
  wrapper : Bool
  mounts : ℕ

loaded : Kernel → Module → Bool
loaded k cow_brd = k.brd
loaded k disk_wrapper = k.wrapper

unfoldable set_loaded : Kernel → Module → Bool → Kernel
set_loaded k cow_brd b = record k { brd = b }
set_loaded k disk_wrapper b = record k { wrapper = b }

-- `opens` is what open returns.
unfoldable modules : Option ℕ → Modules Kernel
modules opens = record {
  insmod = λ k m. (not (loaded k m), set_loaded k m true);
  rmmod = λ k m. (loaded k m, set_loaded k m false);
  open_device = λ k m. (opens, k);
  close = λ k fd. k;
  unload_classes = λ k. k;
}

unfoldable machine : Machine Kernel
machine = record {
  generate = λ k. (false, [], k);
  open_snapshot = λ k. (true, k);
  restore = λ k. (true, k);
  parent = λ a. 0;
  fsck = λ k d. (0, d, k);
  mount = λ k d. (true, d, record k { mounts = suc (k.mounts) });
  check_test = λ k d. (true, 0, d, k);
  umount = λ k d. (ltb 0 (k.mounts), d, record k { mounts = k.mounts - 1 });
  mount_count = λ k. k.mounts;
}

on : (b : Bool) → true ≡ (if not b && true then true else b)
on true = refl
on false = refl

off : (b : Bool) → false ≡ (if b && true then false else b)
off true = refl
off false = refl

other : (b c d : Bool) → c ≡ (if b && false then d else c)
other true c d = refl
other false c d = refl

inserted :
    (k : Kernel) (m n : Module)
    → loaded (set_loaded k m true) n ≡ (if not (loaded k m) && same m n then true else loaded k n)
unfolding loaded set_loaded
inserted k cow_brd cow_brd = on k.brd
inserted k cow_brd disk_wrapper = other (not k.brd) k.wrapper true
inserted k disk_wrapper cow_brd = other (not k.wrapper) k.brd true
inserted k disk_wrapper disk_wrapper = on k.wrapper

removed :
    (k : Kernel) (m n : Module)
    → loaded (set_loaded k m false) n ≡ (if loaded k m && same m n then false else loaded k n)
unfolding loaded set_loaded
removed k cow_brd cow_brd = off k.brd
removed k cow_brd disk_wrapper = other k.brd k.wrapper false
removed k disk_wrapper cow_brd = other k.wrapper k.brd false
removed k disk_wrapper disk_wrapper = off k.wrapper

same_loaded : (k : Kernel) (n : ℕ) (m : Module) → loaded (record k { mounts = n }) m ≡ loaded k m
unfolding loaded
same_loaded k n cow_brd = refl
same_loaded k n disk_wrapper = refl

modules-IsModules : (opens : Option ℕ) → IsModules machine (modules opens) loaded
unfolding loaded set_loaded modules machine
modules-IsModules opens = record {
  inserts = inserted;
  removes = removed;
  absent = λ g m e. e;
  opens = λ g m. refl;
  closes = λ g fd. refl;
  unloads = λ g. refl;
  umounts = λ g d i m. same_loaded g (g.mounts - 1) m i;
}

abbrev start : Harness Kernel
start = record {
  state = record {
    world = record { brd = false; wrapper = false; mounts = 0 };
    disk = λ a. 0;
    disk_mounted = false;
  };
  wrapper_inserted = false;
  cow_brd_inserted = false;
  cow_brd_fd = none;
  ioctl_fd = none;
}

abbrev with_cow : Harness Kernel
with_cow = (insert_cow_brd (modules (some 3)) start).1

abbrev with_both : Harness Kernel
with_both = (insert_wrapper (modules (some 3)) with_cow).1

-- With a file system mounted on top.
abbrev with_mount : Harness Kernel
with_mount = (mount_harness machine (modules (some 3)) with_both).1

insert_cow_brd-remove_example :
    ((insert_cow_brd (modules none) start).0 ≡ harness_success)
    × ((remove_cow_brd (modules none) (insert_cow_brd (modules none) start).1).0
        ≡ wrapper_remove_err)
unfolding modules loaded set_loaded
insert_cow_brd-remove_example =
    insert_cow_brd-remove machine (modules none) loaded (modules-IsModules none) start
      (record { brd = true; wrapper = false; mounts = 0 })
      (record { brd = true; wrapper = false; mounts = 0 })
      (record { brd = false; wrapper = false; mounts = 0 }) refl refl refl refl
