-- ===== src/Tester/Check/Rounds.antt =====
-- code/harness/Tester.cpp: what a round of test_check_random_permutations checks, and what the tests
-- that it completes say.
use mathlib.Core.List.{}
use crashmonkey.Common.{
  ℕ, ◌≡◌, ◌⊎◌, inl, inr, refl, ap, ◌∙◌, Bool, true, false, not, ◌&&◌, ◌==◌, ◌>>=◌, if◌then◌else◌,
  some, List, All,
}
use crashmonkey.DiskWrite.Meta.{ReqBits}
use crashmonkey.DiskWrite.{DiskWrite}
use crashmonkey.CowBrd.{Page}
use crashmonkey.Results.{SingleTestInfo, clean, fixed}
use crashmonkey.Tester.WriteData.{
  Calls, IsWrite, HasBuffer, test_write_data, test_write_data-replay,
}
use crashmonkey.Tester.Check.Mounts.{
  IsMachine, count_of, AlwaysUmounts, IsMounted, IsDry, KeepsMounts, mount_device-IsMounted,
  umount_if-IsDry, test_write_data-keeps,
}
use crashmonkey.Tester.Check.{
  unmountable, check_err, snapshot_restore, bio_write, Machine, State, fsck_passes, failed_with,
  Round, stop, skip, completed, mount_device, umount_device, check_data, mount_and_check,
  check_state, write_state, restore_and_write, on_snapshot, one_round,
}

-- A test that says what is wrong with the file system says nothing of its data; only a file system
-- that was mounted is checked for its data.
unfoldable pub IsVerdict : SingleTestInfo → Type 0
IsVerdict info =
    ((info.fs_test ≡ clean) ⊎ (info.fs_test ≡ fixed))
    ⊎ ((info.data_test ≡ clean)
        × ((info.fs_test ≡ unmountable)
            ⊎ (info.fs_test ≡ check_err)
            ⊎ (info.fs_test ≡ snapshot_restore)
            ⊎ (info.fs_test ≡ bio_write)))

module _ {G : Type 0} (os : Machine G) where
  unfoldable pub GivesBuffers : Type 0
  GivesBuffers = (g : G) → All HasBuffer (os.generate g).1

  -- A test, and no file system mounted behind it.
  Checked : SingleTestInfo × State G → Type 0
  Checked p = IsVerdict p.0 × IsDry os p.1

  fixed_or_clean :
      (b : Bool) → ((if b then fixed else clean) ≡ clean) ⊎ ((if b then fixed else clean) ≡ fixed)
  fixed_or_clean false = inl refl
  fixed_or_clean true = inr refl

  module _ (law : IsMachine os) (always : AlwaysUmounts os) where
    check_data-Checked :
        (status : ℕ) (s : State G) → IsMounted os s → Checked (check_data os status s)
    unfolding Checked check_data IsVerdict umount_device IsMounted
    check_data-Checked status s m = (
      inl (fixed_or_clean ((os.check_test s.world s.disk).0 && not (status == 0))),
      umount_if-IsDry os law always
          (record s {
            world = (os.check_test s.world s.disk).3;
            disk = (os.check_test s.world s.disk).2;
          })
          s.disk_mounted refl (law.checks s.world s.disk ∙ m),
    )

    mounted-Checked :
        (status : ℕ) (s : State G) (mounts : Bool)
        → s.disk_mounted ≡ mounts
        → IsMounted os s
        → Checked
            (elim mounts [ false ↦ (failed_with unmountable, s) | true ↦ check_data os status s ])
    unfolding Checked IsVerdict IsMounted IsDry
    mounted-Checked status s false e m = (inr (refl, inl refl), (e, m ∙ ap count_of e))
    mounted-Checked status s true e m = check_data-Checked status s m

    mount_and_check-Checked :
        (status : ℕ) (s : State G) → IsDry os s → Checked (mount_and_check os status s)
    unfolding mount_and_check mount_device
    mount_and_check-Checked status s dry =
        mounted-Checked status (mount_device os s).1 (os.mount s.world s.disk).0 refl
          (mount_device-IsMounted os law s dry)

    fsck-Checked :
        (status : ℕ) (s : State G) (passes : Bool)
        → IsDry os s
        → Checked (elim passes [
          | false ↦ (failed_with check_err, s)
          | true ↦ mount_and_check os status s
        ])
    unfolding Checked IsVerdict
    fsck-Checked status s false dry = (inr (refl, inr (inl refl)), dry)
    fsck-Checked status s true dry = mount_and_check-Checked status s dry

    check_state-Checked : (s : State G) → IsDry os s → Checked (check_state os s)
    unfolding check_state IsDry
    check_state-Checked s (flag, dry) =
        let (status, disk', g') = os.fsck s.world s.disk in
        fsck-Checked status (record s { world = g'; disk = disk' }) (fsck_passes status)
          (flag, law.fscks s.world s.disk ∙ dry)

-- What a round leaves mounted, which is nothing, and the test that it adds.
unfoldable pub IsRound : {G : Type 0} → Machine G → Round G → Type 0
IsRound os (stop s) = IsDry os s
IsRound os (skip s) = IsDry os s
IsRound os (completed info s) = IsVerdict info × IsDry os s

module _ {G : Type 0} (r : ReqBits) (calls : Calls G) (os : Machine G) where
  pub write_state-of :
      (s : State G) (permutes : List DiskWrite) (g : G) (ok : Bool) (disk' : Page)
      → test_write_data r calls s.world s.disk permutes ≡ some (g, ok, disk')
      → write_state r calls os s permutes ≡ (elim ok [
        | false ↦ some (failed_with bio_write, record s { world = g; disk = disk' })
        | true ↦ some (check_state os (record s { world = g; disk = disk' }))
      ])
  unfolding write_state
  write_state-of s permutes g ok disk' e =
      ap
        (λ o. o >>= (λ q. elim q.1 [
          | false ↦ some (failed_with bio_write, record s { world = q.0; disk = q.2 })
          | true ↦ some (check_state os (record s { world = q.0; disk = q.2 }))
        ]))
        e

  module _ (law : IsMachine os) (always : AlwaysUmounts os)
      (keeps : KeepsMounts r calls (os.mount_count)) (writes : IsWrite calls) where
    written-Checked :
        (s : State G) (g : G) (ok : Bool) (disk' : Page)
        → IsDry os (record s { world = g; disk = disk' })
        → (p : SingleTestInfo × State G) × ((elim ok [
          | false ↦ some (failed_with bio_write, record s { world = g; disk = disk' })
          | true ↦ some (check_state os (record s { world = g; disk = disk' }))
        ])
            ≡ some p)
          × Checked os p
    unfolding Checked IsVerdict
    written-Checked s g false disk' dry = (
      (failed_with bio_write, record s { world = g; disk = disk' }),
      refl,
      (inr (refl, inr (inr (inr refl))), dry),
    )
    written-Checked s g true disk' dry = (
      check_state os (record s { world = g; disk = disk' }),
      refl,
      check_state-Checked os law always (record s { world = g; disk = disk' }) dry,
    )

    write_state-Checked :
        (s : State G) (permutes : List DiskWrite)
        → All HasBuffer permutes
        → IsDry os s
        → (p : SingleTestInfo × State G) × (write_state r calls os s permutes ≡ some p)
          × Checked os p
    unfolding IsDry
    write_state-Checked s permutes has (flag, dry) =
        let (g', ok, disk', e, bytes) =
          test_write_data-replay r calls writes s.world s.disk permutes has in
        let same =
          test_write_data-keeps r calls (os.mount_count) keeps s.world g' s.disk disk' permutes ok
            e in
        let (p, ends, is) = written-Checked s g' ok disk' (flag, same ∙ dry) in
        (p, write_state-of s permutes g' ok disk' e ∙ ends, is)

    restored-Checked :
        (s : State G) (permutes : List DiskWrite) (restores : Bool) (g : G)
        → All HasBuffer permutes
        → IsDry os (record s { world = g })
        → (p : SingleTestInfo × State G) × ((elim restores [
          | false ↦ some (failed_with snapshot_restore, record s { world = g })
          | true ↦ write_state r calls os (record s { world = g; disk = os.parent }) permutes
        ])
            ≡ some p)
          × Checked os p
    unfolding Checked IsVerdict IsDry
    restored-Checked s permutes false g has dry = (
      (failed_with snapshot_restore, record s { world = g }),
      refl,
      (inr (refl, inr (inr (inl refl))), dry),
    )
    restored-Checked s permutes true g has dry =
        write_state-Checked (record s { world = g; disk = os.parent }) permutes has dry

    opened-IsRound :
        (s : State G) (permutes : List DiskWrite) (opens : Bool) (g : G)
        → All HasBuffer permutes
        → IsDry os (record s { world = g })
        → (o : Round G) × ((elim opens [
          | false ↦ some (skip (record s { world = g }))
          | true ↦
              restore_and_write r calls os (record s { world = g }) permutes
              >>= (λ q. some (completed q.0 q.1))
        ])
            ≡ some o)
          × IsRound os o
    unfolding IsRound restore_and_write Checked IsDry
    opened-IsRound s permutes false g has dry = (skip (record s { world = g }), refl, dry)
    opened-IsRound s permutes true g has (flag, dry) =
        let s1 = record s { world = g } in
        let (p, e, is) =
          restored-Checked s1 permutes (os.restore g).0 (os.restore g).1 has
            (flag, law.restores g ∙ dry) in
        (completed p.0 p.1, ap (λ o. o >>= (λ q. some (completed q.0 q.1))) e, is)

    round-IsRound :
        (s : State G) (new_state : Bool) (permutes : List DiskWrite) (g : G)
        → All HasBuffer permutes
        → IsDry os (record s { world = g })
        → (o : Round G) × ((elim new_state [
          | false ↦ some (stop (record s { world = g }))
          | true ↦ on_snapshot r calls os (record s { world = g }) permutes
        ])
            ≡ some o)
          × IsRound os o
    unfolding IsRound on_snapshot IsDry
    round-IsRound s false permutes g has dry = (stop (record s { world = g }), refl, dry)
    round-IsRound s true permutes g has (flag, dry) =
        opened-IsRound (record s { world = g }) permutes (os.open_snapshot g).0
          (os.open_snapshot g).1 has (flag, law.opens g ∙ dry)

    pub one_round-IsRound :
        GivesBuffers os
        → (s : State G) → IsDry os s
        → (o : Round G) × (one_round r calls os s ≡ some o) × IsRound os o
    unfolding one_round GivesBuffers IsDry
    one_round-IsRound gives s (flag, dry) =
        let (new_state, permutes, g') = os.generate s.world in
        round-IsRound s new_state permutes g' (gives s.world) (flag, law.generates s.world ∙ dry)
