-- ===== src/Tester/Devices/Mounts.antt =====
-- code/harness/Tester.cpp: what the calls on modules and devices leave mounted.
use crashmonkey.Common.{◌≡◌, refl, sym, ap, ◌∙◌, Bool, true, false, none, some}
use crashmonkey.CowBrd.{}
use crashmonkey.Sockets.{Fd}
use crashmonkey.Tester.Check.{Machine, umount_if, umount_device}
use crashmonkey.Tester.Check.Mounts.{
  IsMachine, count_of, IsMounted, IsDry, mount_device-IsMounted, umount_if-IsMounted,
}
use crashmonkey.Tester.Devices.{
  not_opened, removed_cow_brd, inserted_wrapper, removed_wrapper, opened_wrapper, unmounted,
  opened_cow_brd, inserted_cow_brd, Module, cow_brd, disk_wrapper, Modules, Harness, with_world,
  open_cow_brd, insert_cow_brd_at, insert_cow_brd, close_cow_brd, rmmod_cow_brd, remove_cow_brd_if,
  remove_cow_brd, insert_wrapper_if, insert_wrapper, remove_wrapper_if, remove_wrapper,
  get_wrapper_ioctl, put_wrapper_ioctl_at, put_wrapper_ioctl, umount_harness, mount_harness,
}
use crashmonkey.Tester.Devices.Tracks.{IsApart}
use crashmonkey.Tester.Devices.Calls.{
  Step, inserts_cow, removes_cow, inserts_wrapper, removes_wrapper, gets_ioctl, puts_ioctl, mounts,
  umounts, Steps, done, next,
}

module _ {G : Type 0} (os : Machine G) (sys : Modules G) (loaded : G → Module → Bool) where
  -- The flag and what is mounted are left as they are.
  unfoldable pub Stays : Harness G → Harness G → Type 0
  Stays h h' =
      (h'.state.disk_mounted ≡ h.state.disk_mounted)
      × (os.mount_count h'.state.world ≡ os.mount_count h.state.world)

  Stays-IsMounted : (h h' : Harness G) → Stays h h' → IsMounted os h.state → IsMounted os h'.state
  unfolding Stays IsMounted
  Stays-IsMounted h h' (flag, count) m = count ∙ m ∙ ap count_of (sym flag)

  pub Stays-IsDry : (h h' : Harness G) → Stays h h' → IsDry os h.state → IsDry os h'.state
  unfolding Stays IsDry
  Stays-IsDry h h' (flag, count) (off, dry) = (flag ∙ off, count ∙ dry)

  Stays-world :
      (h h' : Harness G) (g : G)
      → os.mount_count g ≡ os.mount_count h.state.world
      → Stays (with_world h g) h'
      → Stays h h'
  unfolding Stays with_world
  Stays-world h h' g e (flag, count) = (flag, count ∙ e)

  not_opened-Stays : (h : Harness G) (b : Bool) → Stays h (not_opened h b).1
  unfolding Stays not_opened
  not_opened-Stays h true = (refl, refl)
  not_opened-Stays h false = (refl, refl)

  removed_cow_brd-Stays : (h : Harness G) (b : Bool) → Stays h (removed_cow_brd h b).1
  unfolding Stays removed_cow_brd
  removed_cow_brd-Stays h true = (refl, refl)
  removed_cow_brd-Stays h false = (refl, refl)

  inserted_wrapper-Stays : (h : Harness G) (b : Bool) → Stays h (inserted_wrapper h b).1
  unfolding Stays inserted_wrapper
  inserted_wrapper-Stays h true = (refl, refl)
  inserted_wrapper-Stays h false = (refl, refl)

  removed_wrapper-Stays : (h : Harness G) (b : Bool) → Stays h (removed_wrapper h b).1
  unfolding Stays removed_wrapper
  removed_wrapper-Stays h true = (refl, refl)
  removed_wrapper-Stays h false = (refl, refl)

  opened_wrapper-Stays : (h : Harness G) (fd : Fd) → Stays h (opened_wrapper h fd).1
  unfolding Stays opened_wrapper
  opened_wrapper-Stays h none = (refl, refl)
  opened_wrapper-Stays h (some f) = (refl, refl)

  unmounted-IsMounted :
      (h : Harness G) (b : Bool) → IsMounted os h.state → IsMounted os (unmounted h b).1.state
  unfolding unmounted
  unmounted-IsMounted h true m = m
  unmounted-IsMounted h false m = m

  module _ (apart : IsApart os sys loaded) where
    opened_cow_brd-Stays : (h : Harness G) (fd : Fd) → Stays h (opened_cow_brd sys h fd).1
    unfolding Stays opened_cow_brd
    opened_cow_brd-Stays h (some f) = (refl, refl)
    opened_cow_brd-Stays h none =
        let w = sys.rmmod h.state.world cow_brd in
        Stays-world h (not_opened (with_world h w.1) w.0).1 w.1 (apart.rmmods h.state.world cow_brd)
          (not_opened-Stays (with_world h w.1) w.0)

    open_cow_brd-Stays : (h : Harness G) → Stays h (open_cow_brd sys h).1
    unfolding open_cow_brd
    open_cow_brd-Stays h =
        let w = sys.open_device h.state.world cow_brd in
        Stays-world h (opened_cow_brd sys (with_world h w.1) w.0).1 w.1
          (apart.open_devices h.state.world cow_brd) (opened_cow_brd-Stays (with_world h w.1) w.0)

    inserted_cow_brd-Stays : (h : Harness G) (b : Bool) → Stays h (inserted_cow_brd sys h b).1
    unfolding Stays inserted_cow_brd
    inserted_cow_brd-Stays h false = (refl, refl)
    inserted_cow_brd-Stays h true = open_cow_brd-Stays h

    insert_cow_brd_at-Stays : (h : Harness G) (fd : Fd) → Stays h (insert_cow_brd_at sys h fd).1
    unfolding insert_cow_brd_at
    insert_cow_brd_at-Stays h (some f) = open_cow_brd-Stays h
    insert_cow_brd_at-Stays h none =
        let w = sys.insmod h.state.world cow_brd in
        Stays-world h (inserted_cow_brd sys (with_world h w.1) w.0).1 w.1
          (apart.insmods h.state.world cow_brd) (inserted_cow_brd-Stays (with_world h w.1) w.0)

    rmmod_cow_brd-Stays : (h : Harness G) → Stays h (rmmod_cow_brd sys h).1
    unfolding rmmod_cow_brd
    rmmod_cow_brd-Stays h =
        let w = sys.rmmod h.state.world cow_brd in
        Stays-world h (removed_cow_brd (with_world h w.1) w.0).1 w.1
          (apart.rmmods h.state.world cow_brd) (removed_cow_brd-Stays (with_world h w.1) w.0)

    remove_closed-Stays :
        (h : Harness G) (fd : Fd) → Stays h (rmmod_cow_brd sys (close_cow_brd sys h fd)).1
    unfolding close_cow_brd Stays with_world
    remove_closed-Stays h none = rmmod_cow_brd-Stays h
    remove_closed-Stays h (some f) =
        let closed = record (with_world h (sys.close h.state.world (some f))) {
          cow_brd_fd = none;
          cow_brd_inserted = false;
        } in
        let (flag, count) = rmmod_cow_brd-Stays closed in
        (flag, count ∙ apart.closings h.state.world (some f))

    pub remove_cow_brd_if-Stays : (h : Harness G) (b : Bool) → Stays h (remove_cow_brd_if sys h b).1
    unfolding remove_cow_brd_if Stays
    remove_cow_brd_if-Stays h false = (refl, refl)
    remove_cow_brd_if-Stays h true = remove_closed-Stays h h.cow_brd_fd

    insert_wrapper_if-Stays : (h : Harness G) (b : Bool) → Stays h (insert_wrapper_if sys h b).1
    unfolding insert_wrapper_if Stays
    insert_wrapper_if-Stays h true = (refl, refl)
    insert_wrapper_if-Stays h false =
        let w = sys.insmod h.state.world disk_wrapper in
        Stays-world h (inserted_wrapper (with_world h w.1) w.0).1 w.1
          (apart.insmods h.state.world disk_wrapper) (inserted_wrapper-Stays (with_world h w.1) w.0)

    pub remove_wrapper_if-Stays : (h : Harness G) (b : Bool) → Stays h (remove_wrapper_if sys h b).1
    unfolding remove_wrapper_if Stays
    remove_wrapper_if-Stays h false = (refl, refl)
    remove_wrapper_if-Stays h true =
        let w = sys.rmmod h.state.world disk_wrapper in
        Stays-world h (removed_wrapper (with_world h w.1) w.0).1 w.1
          (apart.rmmods h.state.world disk_wrapper) (removed_wrapper-Stays (with_world h w.1) w.0)

    get_wrapper_ioctl-Stays : (h : Harness G) → Stays h (get_wrapper_ioctl sys h).1
    unfolding get_wrapper_ioctl
    get_wrapper_ioctl-Stays h =
        let w = sys.open_device h.state.world disk_wrapper in
        Stays-world h (opened_wrapper (with_world h w.1) w.0).1 w.1
          (apart.open_devices h.state.world disk_wrapper)
          (opened_wrapper-Stays (with_world h w.1) w.0)

    put_wrapper_ioctl_at-Stays : (h : Harness G) (fd : Fd) → Stays h (put_wrapper_ioctl_at sys h fd)
    unfolding put_wrapper_ioctl_at Stays with_world
    put_wrapper_ioctl_at-Stays h none = (refl, refl)
    put_wrapper_ioctl_at-Stays h (some f) = (refl, apart.closings h.state.world (some f))

    step-IsMounted :
        {h h' : Harness G}
        → IsMachine os
        → Step os sys loaded h h'
        → IsMounted os h.state
        → IsMounted os h'.state
    unfolding insert_cow_brd remove_cow_brd insert_wrapper remove_wrapper put_wrapper_ioctl
        mount_harness umount_harness umount_device IsDry IsMounted
    step-IsMounted law (inserts_cow {h = h}) m =
        Stays-IsMounted h (insert_cow_brd_at sys h h.cow_brd_fd).1
          (insert_cow_brd_at-Stays h h.cow_brd_fd) m
    step-IsMounted law (removes_cow {h = h} e) m =
        Stays-IsMounted h (remove_cow_brd_if sys h h.cow_brd_inserted).1
          (remove_cow_brd_if-Stays h h.cow_brd_inserted) m
    step-IsMounted law (inserts_wrapper {h = h}) m =
        Stays-IsMounted h (insert_wrapper_if sys h h.wrapper_inserted).1
          (insert_wrapper_if-Stays h h.wrapper_inserted) m
    step-IsMounted law (removes_wrapper {h = h}) m =
        Stays-IsMounted h (remove_wrapper_if sys h h.wrapper_inserted).1
          (remove_wrapper_if-Stays h h.wrapper_inserted) m
    step-IsMounted law (gets_ioctl {h = h}) m =
        Stays-IsMounted h (get_wrapper_ioctl sys h).1 (get_wrapper_ioctl-Stays h) m
    step-IsMounted law (puts_ioctl {h = h}) m =
        Stays-IsMounted h (put_wrapper_ioctl_at sys h h.ioctl_fd)
          (put_wrapper_ioctl_at-Stays h h.ioctl_fd) m
    step-IsMounted law (mounts {h = h} e) m =
        mount_device-IsMounted os law h.state (e, m ∙ ap count_of e)
    step-IsMounted law (umounts {h = h}) m =
        let w = umount_if os h.state h.state.disk_mounted in
        unmounted-IsMounted (record h { state = w.1 }) w.0
          (umount_if-IsMounted os law h.state h.state.disk_mounted refl m)

    pub steps-IsMounted :
        {h h' : Harness G}
        → IsMachine os
        → Steps os sys loaded h h'
        → IsMounted os h.state
        → IsMounted os h'.state
    steps-IsMounted law done m = m
    steps-IsMounted law (next s ss) m = steps-IsMounted law ss (step-IsMounted law s m)
