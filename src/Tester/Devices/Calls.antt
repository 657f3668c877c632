-- ===== src/Tester/Devices/Calls.antt =====
-- code/harness/Tester.cpp: sequences of calls that insert and remove modules, open and close
-- devices and unmount.
use mathlib.Core.Path.{subst}
use mathlib.Core.Bool.{false≢true}
use crashmonkey.Common.{◌≡◌, refl, sym, ap, ◌∙◌, Bool, true, false, none, some}
use crashmonkey.CowBrd.{}
use crashmonkey.Sockets.{Fd}
use crashmonkey.Tester.Check.{Machine, State, mount_device, umount_if, umount_device}
use crashmonkey.Tester.Devices.{
  removed_cow_brd, inserted_wrapper, removed_wrapper, opened_wrapper, unmounted, Module, cow_brd,
  disk_wrapper, Modules, harness_success, Harness, with_world, insert_cow_brd, close_cow_brd,
  rmmod_cow_brd, remove_cow_brd_if, remove_cow_brd, insert_wrapper_if, insert_wrapper,
  remove_wrapper_if, remove_wrapper, get_wrapper_ioctl, put_wrapper_ioctl_at, put_wrapper_ioctl,
  is_success, umount_harness, mount_harness,
}
use crashmonkey.Tester.Devices.Tracks.{
  IsModules, IsApart, AlwaysOpens, IsOpen, IsTracked, IsKept, IsTracked-world,
  insert_wrapper_if-IsTracked, remove_wrapper_if-IsTracked, remove_cow_brd_if-IsTracked,
  insert_cow_brd_at-IsKept,
}

module _ {G : Type 0} (os : Machine G) (sys : Modules G) (loaded : G → Module → Bool) where
  -- Calls of Tester in any order, where remove_cow_brd returns SUCCESS, and
  -- mount_device is called only where the flag says that nothing is mounted.
  pub data Step : Harness G → Harness G → Type 0 where
    inserts_cow : {h : Harness G} → Step h (insert_cow_brd sys h).1
    removes_cow :
        {h : Harness G}
        → (remove_cow_brd sys h).0 ≡ harness_success
        → Step h (remove_cow_brd sys h).1
    inserts_wrapper : {h : Harness G} → Step h (insert_wrapper sys h).1
    removes_wrapper : {h : Harness G} → Step h (remove_wrapper sys h).1
    gets_ioctl : {h : Harness G} → Step h (get_wrapper_ioctl sys h).1
    puts_ioctl : {h : Harness G} → Step h (put_wrapper_ioctl sys h)
    mounts : {h : Harness G} → h.state.disk_mounted ≡ false → Step h (mount_harness os sys h).1
    umounts : {h : Harness G} → Step h (umount_harness os sys h).1

  pub data Steps : Harness G → Harness G → Type 0 where
    done : {h : Harness G} → Steps h h
    next : {h h1 h2 : Harness G} → Step h h1 → Steps h1 h2 → Steps h h2

  -- The disk's device and the mount are left as they are.
  pub record Leaves (h h' : Harness G) : Type 0 where
    pub fd : h'.cow_brd_fd ≡ h.cow_brd_fd
    pub inserted : h'.cow_brd_inserted ≡ h.cow_brd_inserted
    pub mounted : h'.state.disk_mounted ≡ h.state.disk_mounted

  pub Leaves-IsKept :
      (h h' : Harness G)
      → Leaves h h'
      → IsKept os sys loaded h
      → IsTracked os sys loaded h'
      → IsKept os sys loaded h'
  unfolding IsKept
  Leaves-IsKept h h' l (t, is) t' = (
    t',
    subst (λ fd. IsOpen fd h'.cow_brd_inserted) (sym l.fd)
        (subst (λ b. IsOpen h.cow_brd_fd b) (sym l.inserted) is),
  )

  inserted_wrapper-Leaves :
      (h : Harness G) (g : G) (b : Bool) → Leaves h (inserted_wrapper (with_world h g) b).1
  unfolding inserted_wrapper with_world
  inserted_wrapper-Leaves h g true = record { fd = refl; inserted = refl; mounted = refl }
  inserted_wrapper-Leaves h g false = record { fd = refl; inserted = refl; mounted = refl }

  insert_wrapper_if-Leaves : (h : Harness G) (b : Bool) → Leaves h (insert_wrapper_if sys h b).1
  unfolding insert_wrapper_if
  insert_wrapper_if-Leaves h true = record { fd = refl; inserted = refl; mounted = refl }
  insert_wrapper_if-Leaves h false =
      inserted_wrapper-Leaves h (sys.insmod h.state.world disk_wrapper).1
        (sys.insmod h.state.world disk_wrapper).0

  removed_wrapper-Leaves :
      (h : Harness G) (g : G) (b : Bool) → Leaves h (removed_wrapper (with_world h g) b).1
  unfolding removed_wrapper with_world
  removed_wrapper-Leaves h g true = record { fd = refl; inserted = refl; mounted = refl }
  removed_wrapper-Leaves h g false = record { fd = refl; inserted = refl; mounted = refl }

  pub remove_wrapper_if-Leaves : (h : Harness G) (b : Bool) → Leaves h (remove_wrapper_if sys h b).1
  unfolding remove_wrapper_if
  remove_wrapper_if-Leaves h false = record { fd = refl; inserted = refl; mounted = refl }
  remove_wrapper_if-Leaves h true =
      removed_wrapper-Leaves h (sys.rmmod h.state.world disk_wrapper).1
        (sys.rmmod h.state.world disk_wrapper).0

  module _ (law : IsModules os sys loaded) where
    opened_wrapper-IsKept :
        (h : Harness G) (fd : Fd)
        → IsKept os sys loaded h
        → IsKept os sys loaded (opened_wrapper h fd).1
    unfolding opened_wrapper IsKept
    opened_wrapper-IsKept h none (t, is) = (record { cow = t.cow; wrapper = t.wrapper }, is)
    opened_wrapper-IsKept h (some f) (t, is) = (record { cow = t.cow; wrapper = t.wrapper }, is)

    world-IsKept :
        (h : Harness G) (g : G)
        → loaded g ≡ loaded h.state.world
        → IsKept os sys loaded h
        → IsKept os sys loaded (with_world h g)
    unfolding IsKept with_world
    world-IsKept h g e (t, is) = (IsTracked-world os sys loaded h g e t, is)

    put_ioctl-IsKept :
        (h : Harness G) (fd : Fd)
        → IsKept os sys loaded h
        → IsKept os sys loaded (put_wrapper_ioctl_at sys h fd)
    unfolding put_wrapper_ioctl_at IsKept with_world
    put_ioctl-IsKept h none k = k
    put_ioctl-IsKept h (some f) (t, is) =
        let t' =
          IsTracked-world os sys loaded h (sys.close h.state.world (some f))
            (law.closes h.state.world (some f)) t in
        (record { cow = t'.cow; wrapper = t'.wrapper }, is)

    -- What umount_device does to the world.
    umount_if-keeps : (s : State G) (b : Bool) → loaded (umount_if os s b).1.world ≡ loaded s.world
    unfolding umount_if
    umount_if-keeps s false = refl
    umount_if-keeps s true = law.umounts s.world s.disk

    unmounted-IsKept :
        (h : Harness G) (b : Bool) → IsKept os sys loaded h → IsKept os sys loaded (unmounted h b).1
    unfolding unmounted
    unmounted-IsKept h true k = k
    unmounted-IsKept h false k = k

    pub umount_harness-IsKept :
        (h : Harness G) → IsKept os sys loaded h → IsKept os sys loaded (umount_harness os sys h).1
    unfolding umount_harness umount_device IsKept
    umount_harness-IsKept h (t, is) =
        let w = umount_if os h.state h.state.disk_mounted in
        let keeps = umount_if-keeps h.state h.state.disk_mounted in
        unmounted-IsKept (record h { state = w.1 }) w.0
          (
            record {
              cow = t.cow ∙ ap (λ l. l cow_brd) (sym keeps);
              wrapper = t.wrapper ∙ ap (λ l. l disk_wrapper) (sym keeps);
            },
            is,
          )

    removed_cow_brd-IsOpen :
        (h : Harness G) (b : Bool)
        → (removed_cow_brd h b).0 ≡ harness_success
        → IsOpen h.cow_brd_fd h.cow_brd_inserted
        → IsOpen (removed_cow_brd h b).1.cow_brd_fd (removed_cow_brd h b).1.cow_brd_inserted
    unfolding removed_cow_brd is_success
    removed_cow_brd-IsOpen h true e is = is
    removed_cow_brd-IsOpen h false e is = absurd (false≢true (ap is_success e))

    remove_cow_brd_at-IsOpen :
        (h : Harness G) (fd : Fd)
        → h.cow_brd_fd ≡ fd
        → (rmmod_cow_brd sys (close_cow_brd sys h fd)).0 ≡ harness_success
        → IsOpen fd true
        → IsOpen
            (rmmod_cow_brd sys (close_cow_brd sys h fd)).1.cow_brd_fd
            (rmmod_cow_brd sys (close_cow_brd sys h fd)).1.cow_brd_inserted
    unfolding rmmod_cow_brd close_cow_brd IsOpen with_world
    remove_cow_brd_at-IsOpen h none at e is = absurd (false≢true (sym is))
    remove_cow_brd_at-IsOpen h (some f) at e is =
        let closed = record (with_world h (sys.close h.state.world (some f))) {
          cow_brd_fd = none;
          cow_brd_inserted = false;
        } in
        let w = sys.rmmod closed.state.world cow_brd in
        removed_cow_brd-IsOpen (with_world closed w.1) w.0 e refl

    remove_cow_brd_if-IsOpen :
        (h : Harness G) (b : Bool)
        → h.cow_brd_inserted ≡ b
        → (remove_cow_brd_if sys h b).0 ≡ harness_success
        → IsOpen h.cow_brd_fd b
        → IsOpen
            (remove_cow_brd_if sys h b).1.cow_brd_fd
            (remove_cow_brd_if sys h b).1.cow_brd_inserted
    unfolding remove_cow_brd_if
    remove_cow_brd_if-IsOpen h false was e is = subst (λ b. IsOpen h.cow_brd_fd b) (sym was) is
    remove_cow_brd_if-IsOpen h true was e is = remove_cow_brd_at-IsOpen h h.cow_brd_fd refl e is

    pub step-IsKept :
        {h h' : Harness G}
        → Step h h'
        → AlwaysOpens os sys loaded
        → IsApart os sys loaded
        → IsKept os sys loaded h
        → IsKept os sys loaded h'
    unfolding insert_cow_brd remove_cow_brd insert_wrapper remove_wrapper get_wrapper_ioctl
        put_wrapper_ioctl IsKept mount_harness mount_device
    step-IsKept (inserts_cow {h = h}) opens apart (t, is) =
        insert_cow_brd_at-IsKept os sys loaded law h h.cow_brd_fd opens is t
    step-IsKept (mounts {h = h} e) opens apart (t, is) =
        let keeps = apart.mounts h.state.world h.state.disk in
        (
          record {
            cow = t.cow ∙ ap (λ l. l cow_brd) (sym keeps);
            wrapper = t.wrapper ∙ ap (λ l. l disk_wrapper) (sym keeps);
          },
          is,
        )
    step-IsKept (removes_cow {h = h} e) opens apart (t, is) = (
      remove_cow_brd_if-IsTracked os sys loaded law h h.cow_brd_inserted refl is t,
      remove_cow_brd_if-IsOpen h h.cow_brd_inserted refl e is,
    )
    step-IsKept (inserts_wrapper {h = h}) opens apart k =
        Leaves-IsKept h (insert_wrapper_if sys h h.wrapper_inserted).1
          (insert_wrapper_if-Leaves h h.wrapper_inserted) k
          (insert_wrapper_if-IsTracked os sys loaded law h h.wrapper_inserted refl k.0)
    step-IsKept (removes_wrapper {h = h}) opens apart k =
        Leaves-IsKept h (remove_wrapper_if sys h h.wrapper_inserted).1
          (remove_wrapper_if-Leaves h h.wrapper_inserted) k
          (remove_wrapper_if-IsTracked os sys loaded law h h.wrapper_inserted refl k.0)
    step-IsKept (gets_ioctl {h = h}) opens apart k =
        let w = sys.open_device h.state.world disk_wrapper in
        opened_wrapper-IsKept (with_world h w.1) w.0
          (world-IsKept h w.1 (law.opens h.state.world disk_wrapper) k)
    step-IsKept (puts_ioctl {h = h}) opens apart k = put_ioctl-IsKept h h.ioctl_fd k
    step-IsKept (umounts {h = h}) opens apart k = umount_harness-IsKept h k

    pub steps-IsKept :
        {h h' : Harness G}
        → Steps h h'
        → AlwaysOpens os sys loaded
        → IsApart os sys loaded
        → IsKept os sys loaded h
        → IsKept os sys loaded h'
    steps-IsKept done opens apart k = k
    steps-IsKept (next s ss) opens apart k =
        steps-IsKept ss opens apart (step-IsKept s opens apart k)
