-- ===== src/Tester/Devices/Cleanup.antt =====
-- code/harness/Tester.cpp: cleanup_harness behind such calls, and insert_cow_brd where the device
-- does not open.
use crashmonkey.Common.{◌≡◌, sym, ap, ◌∙◌, Bool, true, false, ◌&&◌, if◌then◌else◌, none}
use crashmonkey.CowBrd.{}
use crashmonkey.Tester.Check.{Machine}
use crashmonkey.Tester.Devices.{
  not_opened, removed_cow_brd, opened_cow_brd, inserted_cow_brd, Module, cow_brd, Modules, Code,
  harness_success, wrapper_remove_err, Harness, with_world, open_cow_brd, insert_cow_brd_at,
  insert_cow_brd, close_cow_brd, rmmod_cow_brd, remove_cow_brd_if, remove_cow_brd,
}
use crashmonkey.Tester.Devices.Tracks.{IsModules}

module _ {G : Type 0} (os : Machine G) (sys : Modules G) (loaded : G → Module → Bool) where
  -- Where no file system is mounted, no module that is loaded is in use.
  unfoldable pub AlwaysRemoves : Type 0
  AlwaysRemoves =
      (g : G) (m : Module) → os.mount_count g ≡ 0 → loaded g m ≡ true → (sys.rmmod g m).0 ≡ true

  -- What is left of a call of rmmod that works: no flag, and the wrapper's flag.
  Removed : Harness G → Code × Harness G → Type 0
  Removed h p =
      (p.0 ≡ harness_success)
      × (p.1.cow_brd_inserted ≡ false)
      × (p.1.wrapper_inserted ≡ h.wrapper_inserted)

  module _ (law : IsModules os sys loaded) where
    -- Where the module cow_brd is inserted, /dev/cow_ram0 does not open, and the module is removed
    -- again, insert_cow_brd returns SUCCESS, and remove_cow_brd behind it returns
    -- WRAPPER_REMOVE_ERR.
    pub insert_cow_brd-remove :
        (h : Harness G) (g1 g2 g3 : G)
        → h.cow_brd_fd ≡ none
        → sys.insmod h.state.world cow_brd ≡ (true, g1)
        → sys.open_device g1 cow_brd ≡ (none, g2)
        → sys.rmmod g2 cow_brd ≡ (true, g3)
        → ((insert_cow_brd sys h).0 ≡ harness_success)
          × ((remove_cow_brd sys (insert_cow_brd sys h).1).0 ≡ wrapper_remove_err)
    unfolding insert_cow_brd insert_cow_brd_at inserted_cow_brd open_cow_brd opened_cow_brd
        not_opened with_world remove_cow_brd remove_cow_brd_if rmmod_cow_brd close_cow_brd
        removed_cow_brd
    insert_cow_brd-remove h g1 g2 g3 closed inserts opens removes =
        let h1 = with_world h g1 in
        let h2 = with_world h1 g2 in
        let lost = record (with_world h2 g3) { cow_brd_inserted = true; cow_brd_fd = none } in
        let e : insert_cow_brd sys h ≡ (harness_success, lost) =
          ap (insert_cow_brd_at sys h) closed
          ∙ ap (λ w. inserted_cow_brd sys (with_world h w.1) w.0) inserts
          ∙ ap (λ w. opened_cow_brd sys (with_world h1 w.1) w.0) opens
          ∙ ap (λ w. not_opened (with_world h2 w.1) w.0) removes in
        let gone : loaded g3 cow_brd ≡ false =
          ap (λ w. loaded w.1 cow_brd) (sym removes)
          ∙ law.removes g2 cow_brd cow_brd
          ∙ ap (λ w. if w.0 && true then false else loaded g2 cow_brd) removes in
        let w = sys.rmmod g3 cow_brd in
        (
          ap (λ p. p.0) e,
          ap (λ p. (remove_cow_brd sys p.1).0) e
              ∙ ap (λ b. (removed_cow_brd (with_world lost w.1) b).0) (law.absent g3 cow_brd gone),
        )
