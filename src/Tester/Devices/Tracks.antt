-- ===== src/Tester/Devices/Tracks.antt =====
-- code/harness/Tester.cpp: Tester's flags beside what the kernel has loaded.
use mathlib.Core.Path.{}
use mathlib.Core.Bool.{false≢true}
use mathlib.Core.Option.{none-ne-some}
use crashmonkey.Common.{
  ℕ, ◌≡◌, refl, sym, ap, ◌∙◌, Bool, true, false, ◌&&◌, if◌then◌else◌, none, some,
}
use crashmonkey.CowBrd.{Page}
use crashmonkey.Sockets.{Fd}
use crashmonkey.Tester.Check.{Machine}
use crashmonkey.Tester.Devices.{
  removed_cow_brd, inserted_wrapper, removed_wrapper, opened_cow_brd, inserted_cow_brd, Module,
  cow_brd, disk_wrapper, Modules, Harness, with_world, open_cow_brd, insert_cow_brd_at,
  close_cow_brd, rmmod_cow_brd, remove_cow_brd_if, insert_wrapper_if, remove_wrapper_if,
}

abbrev pub same : Module → Module → Bool
same cow_brd cow_brd = true
same cow_brd disk_wrapper = false
same disk_wrapper cow_brd = false
same disk_wrapper disk_wrapper = true

-- What the kernel says of its modules: insmod and rmmod that return 0 change whether their module
-- is loaded, and nothing else does; a module that is not loaded is not removed.
pub record IsModules {G : Type 0} (os : Machine G) (sys : Modules G) (loaded : G → Module → Bool)
    : Type 0 where
  pub inserts :
      (g : G) (m n : Module)
      → loaded (sys.insmod g m).1 n ≡ (if (sys.insmod g m).0 && same m n then true else loaded g n)
  pub removes :
      (g : G) (m n : Module)
      → loaded (sys.rmmod g m).1 n ≡ (if (sys.rmmod g m).0 && same m n then false else loaded g n)
  pub absent : (g : G) (m : Module) → loaded g m ≡ false → (sys.rmmod g m).0 ≡ false
  pub opens : (g : G) (m : Module) → loaded (sys.open_device g m).1 ≡ loaded g
  pub closes : (g : G) (fd : Fd) → loaded (sys.close g fd) ≡ loaded g
  pub unloads : (g : G) → loaded (sys.unload_classes g) ≡ loaded g
  pub umounts : (g : G) (d : Page) → loaded (os.umount g d).2 ≡ loaded g

-- Modules and mounts have nothing to do with each other.
pub record IsApart {G : Type 0} (os : Machine G) (sys : Modules G) (loaded : G → Module → Bool)
    : Type 0 where
  pub insmods : (g : G) (m : Module) → os.mount_count (sys.insmod g m).1 ≡ os.mount_count g
  pub rmmods : (g : G) (m : Module) → os.mount_count (sys.rmmod g m).1 ≡ os.mount_count g
  pub open_devices :
      (g : G) (m : Module) → os.mount_count (sys.open_device g m).1 ≡ os.mount_count g
  pub closings : (g : G) (fd : Fd) → os.mount_count (sys.close g fd) ≡ os.mount_count g
  pub unloadings : (g : G) → os.mount_count (sys.unload_classes g) ≡ os.mount_count g
  pub mounts : (g : G) (d : Page) → loaded (os.mount g d).2 ≡ loaded g

-- /dev/cow_ram0 is open where the module is inserted, and only there.
unfoldable pub IsOpen : Fd → Bool → Type 0
IsOpen none inserted = inserted ≡ false
IsOpen (some f) inserted = inserted ≡ true

module _ {G : Type 0} (os : Machine G) (sys : Modules G) (loaded : G → Module → Bool) where
  -- The flags are right.
  pub record IsTracked (h : Harness G) : Type 0 where
    pub cow : h.cow_brd_inserted ≡ loaded h.state.world cow_brd
    pub wrapper : h.wrapper_inserted ≡ loaded h.state.world disk_wrapper

  unfoldable pub IsKept : Harness G → Type 0
  IsKept h = IsTracked h × IsOpen h.cow_brd_fd h.cow_brd_inserted

  -- /dev/cow_ram0 opens where its module is loaded.
  unfoldable pub AlwaysOpens : Type 0
  AlwaysOpens =
      (g : G) → loaded g cow_brd ≡ true → (f : ℕ) × ((sys.open_device g cow_brd).0 ≡ some f)

  -- A call that changes only the world, and that leaves the modules.
  pub IsTracked-world :
      (h : Harness G) (g : G)
      → loaded g ≡ loaded h.state.world
      → IsTracked h
      → IsTracked (with_world h g)
  unfolding with_world
  IsTracked-world h g e t = record {
    cow = t.cow ∙ ap (λ l. l cow_brd) (sym e);
    wrapper = t.wrapper ∙ ap (λ l. l disk_wrapper) (sym e);
  }

  module _ (law : IsModules os sys loaded) where
    -- The flags after an rmmod or an insmod, whether or not it returned 0.
    inserted_wrapper-IsTracked :
        (h : Harness G) (g : G) (b : Bool)
        → ((n : Module)
            → loaded g n ≡ (if b && same disk_wrapper n then true else loaded h.state.world n))
        → h.wrapper_inserted ≡ false
        → IsTracked h
        → IsTracked (inserted_wrapper (with_world h g) b).1
    unfolding inserted_wrapper with_world
    inserted_wrapper-IsTracked h g true e was t = record {
      cow = t.cow ∙ sym (e cow_brd);
      wrapper = sym (e disk_wrapper);
    }
    inserted_wrapper-IsTracked h g false e was t = record {
      cow = t.cow ∙ sym (e cow_brd);
      wrapper = sym was ∙ t.wrapper ∙ sym (e disk_wrapper);
    }

    pub insert_wrapper_if-IsTracked :
        (h : Harness G) (b : Bool)
        → h.wrapper_inserted ≡ b
        → IsTracked h
        → IsTracked (insert_wrapper_if sys h b).1
    unfolding insert_wrapper_if
    insert_wrapper_if-IsTracked h true was t = record { cow = t.cow; wrapper = sym was ∙ t.wrapper }
    insert_wrapper_if-IsTracked h false was t =
        let w = sys.insmod h.state.world disk_wrapper in
        inserted_wrapper-IsTracked h w.1 w.0 (law.inserts h.state.world disk_wrapper) was t

    removed_wrapper-IsTracked :
        (h : Harness G) (g : G) (b : Bool)
        → ((n : Module)
            → loaded g n ≡ (if b && same disk_wrapper n then false else loaded h.state.world n))
        → h.wrapper_inserted ≡ true
        → IsTracked h
        → IsTracked (removed_wrapper (with_world h g) b).1
    unfolding removed_wrapper with_world
    removed_wrapper-IsTracked h g true e was t = record {
      cow = t.cow ∙ sym (e cow_brd);
      wrapper = sym (e disk_wrapper);
    }
    removed_wrapper-IsTracked h g false e was t = record {
      cow = t.cow ∙ sym (e cow_brd);
      wrapper = sym was ∙ t.wrapper ∙ sym (e disk_wrapper);
    }

    pub remove_wrapper_if-IsTracked :
        (h : Harness G) (b : Bool)
        → h.wrapper_inserted ≡ b
        → IsTracked h
        → IsTracked (remove_wrapper_if sys h b).1
    unfolding remove_wrapper_if
    remove_wrapper_if-IsTracked h false was t = record {
      cow = t.cow;
      wrapper = sym was ∙ t.wrapper;
    }
    remove_wrapper_if-IsTracked h true was t =
        let w = sys.rmmod h.state.world disk_wrapper in
        removed_wrapper-IsTracked h w.1 w.0 (law.removes h.state.world disk_wrapper) was t

    removed_cow_brd-IsTracked :
        (h : Harness G) (g : G) (b : Bool)
        → ((n : Module)
            → loaded g n ≡ (if b && same cow_brd n then false else loaded h.state.world n))
        → h.cow_brd_inserted ≡ false
        → loaded h.state.world cow_brd ≡ true
        → h.wrapper_inserted ≡ loaded h.state.world disk_wrapper
        → IsTracked (removed_cow_brd (with_world h g) b).1
    unfolding removed_cow_brd with_world
    removed_cow_brd-IsTracked h g true e was now wrapper = record {
      cow = was ∙ sym (e cow_brd);
      wrapper = wrapper ∙ sym (e disk_wrapper);
    }
    removed_cow_brd-IsTracked h g false e was now wrapper = record {
      cow = sym now ∙ sym (e cow_brd);
      wrapper = wrapper ∙ sym (e disk_wrapper);
    }

    remove_cow_brd_at-IsTracked :
        (h : Harness G) (fd : Fd)
        → IsOpen fd true
        → h.cow_brd_inserted ≡ true
        → IsTracked h
        → IsTracked (rmmod_cow_brd sys (close_cow_brd sys h fd)).1
    unfolding rmmod_cow_brd close_cow_brd IsOpen with_world
    remove_cow_brd_at-IsTracked h none opened was t = absurd (false≢true (sym opened))
    remove_cow_brd_at-IsTracked h (some f) opened was t =
        let closed = record (with_world h (sys.close h.state.world (some f))) {
          cow_brd_fd = none;
          cow_brd_inserted = false;
        } in
        let w = sys.rmmod closed.state.world cow_brd in
        let keeps = law.closes h.state.world (some f) in
        removed_cow_brd-IsTracked closed w.1 w.0 (law.removes closed.state.world cow_brd) refl
          (ap (λ l. l cow_brd) keeps ∙ sym t.cow ∙ was)
          (t.wrapper ∙ ap (λ l. l disk_wrapper) (sym keeps))

    pub remove_cow_brd_if-IsTracked :
        (h : Harness G) (b : Bool)
        → h.cow_brd_inserted ≡ b
        → IsOpen h.cow_brd_fd b
        → IsTracked h
        → IsTracked (remove_cow_brd_if sys h b).1
    unfolding remove_cow_brd_if
    remove_cow_brd_if-IsTracked h false was opened t = t
    remove_cow_brd_if-IsTracked h true was opened t =
        remove_cow_brd_at-IsTracked h h.cow_brd_fd opened was t

    opened_cow_brd-IsTracked :
        (h : Harness G) (fd : Fd) (f : ℕ)
        → fd ≡ some f
        → loaded h.state.world cow_brd ≡ true
        → h.wrapper_inserted ≡ loaded h.state.world disk_wrapper
        → IsKept (opened_cow_brd sys h fd).1
    unfolding IsKept opened_cow_brd IsOpen
    opened_cow_brd-IsTracked h none f e now wrapper = absurd (none-ne-some f e)
    opened_cow_brd-IsTracked h (some k) f e now wrapper =
        (record { cow = sym now; wrapper = wrapper }, refl)

    open_cow_brd-IsKept :
        (h : Harness G)
        → AlwaysOpens
        → loaded h.state.world cow_brd ≡ true
        → h.wrapper_inserted ≡ loaded h.state.world disk_wrapper
        → IsKept (open_cow_brd sys h).1
    unfolding open_cow_brd with_world AlwaysOpens
    open_cow_brd-IsKept h opens now wrapper =
        let w = sys.open_device h.state.world cow_brd in
        let keeps = law.opens h.state.world cow_brd in
        let (f, e) = opens h.state.world now in
        opened_cow_brd-IsTracked (with_world h w.1) w.0 f e (ap (λ l. l cow_brd) keeps ∙ now)
          (wrapper ∙ ap (λ l. l disk_wrapper) (sym keeps))

    inserted_cow_brd-IsKept :
        (h : Harness G) (g : G) (b : Bool)
        → AlwaysOpens
        → ((n : Module)
            → loaded g n ≡ (if b && same cow_brd n then true else loaded h.state.world n))
        → h.cow_brd_inserted ≡ false
        → IsTracked h
        → IsKept (inserted_cow_brd sys (with_world h g) b).1
    unfolding inserted_cow_brd IsKept IsOpen with_world
    inserted_cow_brd-IsKept h g false opens e was t =
        (record { cow = t.cow ∙ sym (e cow_brd); wrapper = t.wrapper ∙ sym (e disk_wrapper) }, was)
    inserted_cow_brd-IsKept h g true opens e was t =
        open_cow_brd-IsKept (with_world h g) opens (e cow_brd) (t.wrapper ∙ sym (e disk_wrapper))

    pub insert_cow_brd_at-IsKept :
        (h : Harness G) (fd : Fd)
        → AlwaysOpens
        → IsOpen fd h.cow_brd_inserted
        → IsTracked h
        → IsKept (insert_cow_brd_at sys h fd).1
    unfolding insert_cow_brd_at IsOpen
    insert_cow_brd_at-IsKept h (some k) opens is t =
        open_cow_brd-IsKept h opens (sym t.cow ∙ is) t.wrapper
    insert_cow_brd_at-IsKept h none opens is t =
        let w = sys.insmod h.state.world cow_brd in
        inserted_cow_brd-IsKept h w.1 w.0 opens (law.inserts h.state.world cow_brd) is t
