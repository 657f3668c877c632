-- ===== src/Tester/Check/Outcome.antt =====
-- code/harness/Tester.cpp: test_check_random_permutations as a whole, and the disk that it checks.
use mathlib.Core.List.{append_assoc, append-nil}
use crashmonkey.Common.{
  ℕ, zero, suc, ◌≤◌, ◌≡◌, refl, sym, ap, ◌∙◌, true, false, ◌>>=◌, some, List, [], ◌∷◌, ◌++◌, length,
  All, arith,
}
use crashmonkey.DiskWrite.Meta.{ReqBits}
use crashmonkey.DiskWrite.{DiskWrite}
use crashmonkey.CowBrd.{Page}
use crashmonkey.Results.{SingleTestInfo}
use crashmonkey.Tester.WriteData.{
  Calls, IsWrite, NoErrors, HasBuffer, replay_writes, test_write_data, test_write_data-works,
}
use crashmonkey.Tester.Check.{
  snapshot_restore, failed_with, Machine, State, Round, stop, skip, completed, check_state,
  write_state, restore_and_write, on_snapshot, one_round, rounds_loop,
  test_check_random_permutations,
}
use crashmonkey.Tester.Check.Mounts.{IsMachine, AlwaysUmounts, IsDry, KeepsMounts}
use crashmonkey.Tester.Check.Rounds.{
  IsVerdict, GivesBuffers, IsRound, one_round-IsRound, write_state-of,
}

module _ {G : Type 0} (r : ReqBits) (calls : Calls G) (os : Machine G) where
  -- What a number of rounds comes to.
  Outcome : ℕ → State G → List SingleTestInfo → Type 0
  Outcome rounds s suite =
      (tests : List SingleTestInfo) × (s' : State G) × (rounds_loop r calls os rounds s suite
        ≡ some (suite ++ tests, s'))
      × (length tests ≤ rounds)
      × All IsVerdict tests
      × IsDry os s'

  loop-stop :
      (rounds : ℕ) (s s' : State G) (suite : List SingleTestInfo)
      → one_round r calls os s ≡ some (stop s')
      → rounds_loop r calls os (suc rounds) s suite ≡ some (suite, s')
  unfolding rounds_loop
  loop-stop rounds s s' suite e = rw (e, rounds_loop) refl

  loop-skip :
      (rounds : ℕ) (s s' : State G) (suite : List SingleTestInfo)
      → one_round r calls os s ≡ some (skip s')
      → rounds_loop r calls os (suc rounds) s suite ≡ rounds_loop r calls os rounds s' suite
  unfolding rounds_loop
  loop-skip rounds s s' suite e = rw (e, rounds_loop) refl

  loop-completed :
      (rounds : ℕ) (s s' : State G) (suite : List SingleTestInfo) (info : SingleTestInfo)
      → one_round r calls os s ≡ some (completed info s')
      → rounds_loop r calls os (suc rounds) s suite
        ≡ rounds_loop r calls os rounds s' (suite ++ (info ∷ []))
  unfolding rounds_loop
  loop-completed rounds s s' suite info e = rw (e, rounds_loop) refl

  Outcome-round :
      (rounds : ℕ) (s : State G) (suite : List SingleTestInfo) (o : Round G)
      → ((s' : State G) (suite' : List SingleTestInfo) → IsDry os s' → Outcome rounds s' suite')
      → one_round r calls os s ≡ some o
      → IsRound os o
      → Outcome (suc rounds) s suite
  unfolding Outcome IsRound
  Outcome-round rounds s suite (stop s') ih e dry = (
    [],
    s',
    loop-stop rounds s s' suite e ∙ ap (λ l. some (l, s')) (sym (append-nil suite)),
    omega arith,
    tt,
    dry,
  )
  Outcome-round rounds s suite (skip s') ih e dry =
      let (tests, s2, runs, few, all, ends) = ih s' suite dry in
      (tests, s2, loop-skip rounds s s' suite e ∙ runs, omega (arith, few), all, ends)
  Outcome-round rounds s suite (completed info s') ih e (verdict, dry) =
      let (tests, s2, runs, few, all, ends) = ih s' (suite ++ (info ∷ [])) dry in
      (
        info ∷ tests,
        s2,
        loop-completed rounds s s' suite info e
            ∙ runs
            ∙ ap (λ l. some (l, s2)) (append_assoc suite (info ∷ []) tests),
        omega (arith, few),
        (verdict, all),
        ends,
      )

  rounds_loop-Outcome :
      IsMachine os
      → AlwaysUmounts os
      → KeepsMounts r calls (os.mount_count)
      → IsWrite calls
      → GivesBuffers os
      → (rounds : ℕ) (s : State G) (suite : List SingleTestInfo) → IsDry os s
      → Outcome rounds s suite
  unfolding Outcome rounds_loop
  rounds_loop-Outcome law always keeps writes gives zero s suite dry =
      ([], s, ap (λ l. some (l, s)) (sym (append-nil suite)), omega arith, tt, dry)
  rounds_loop-Outcome law always keeps writes gives (suc rounds) s suite dry =
      let (o, e, is) = one_round-IsRound r calls os law always keeps writes gives s dry in
      Outcome-round rounds s suite o (rounds_loop-Outcome law always keeps writes gives rounds) e is

  -- Where umount works wherever a file system is mounted, and none was mounted at the mount point
  -- before, test_check_random_permutations returns and completes at most num_rounds tests, each of
  -- which says either what is wrong with the file system and then nothing of its data, or that the
  -- file system is clean or fixed; no file system is mounted there behind it, as disk_mounted
  -- says. A mount that works adds a file system, an umount that works takes one away, and no other
  -- call changes how many there are; each write takes something of what it is given and not more,
  -- and requests of crash states without a buffer have size 0.
  pub test_check_random_permutations-IsVerdict :
      IsMachine os
      → AlwaysUmounts os
      → KeepsMounts r calls (os.mount_count)
      → IsWrite calls
      → GivesBuffers os
      → (num_rounds : ℕ) (s : State G) → s.disk_mounted ≡ false
      → os.mount_count s.world ≡ 0
      → (tests : List SingleTestInfo) × (s' : State G) × (test_check_random_permutations r calls os
            num_rounds s
          ≡ some (tests, s'))
        × (length tests ≤ num_rounds)
        × All IsVerdict tests
        × (s'.disk_mounted ≡ false)
        × (os.mount_count s'.world ≡ 0)
  unfolding test_check_random_permutations Outcome IsDry
  test_check_random_permutations-IsVerdict law always keeps writes gives num_rounds s flag dry =
      let (tests, s', runs, few, all, ends) =
        rounds_loop-Outcome law always keeps writes gives num_rounds s [] (flag, dry) in
      (tests, s', runs, few, all, ends.0, ends.1)

  judged-restored :
      (s : State G) (permutes : List DiskWrite) (g g' : G) (disk' : Page)
      → os.restore s.world ≡ (true, g)
      → test_write_data r calls g os.parent permutes ≡ some (g', true, disk')
      → restore_and_write r calls os s permutes
        ≡ some (check_state os (record s { world = g'; disk = disk' }))
  unfolding restore_and_write
  judged-restored s permutes g g' disk' e works =
      ap
        (λ q. elim q.0 [
          | false ↦ some (failed_with snapshot_restore, record s { world = q.1 })
          | true ↦ write_state r calls os (record s { world = q.1; disk = os.parent }) permutes
        ])
        e
      ∙ (write_state-of r calls os (record s { world = g; disk = os.parent }) permutes g' true disk'
          works)

  judged-opened :
      (s : State G) (permutes : List DiskWrite) (g : G) (p : SingleTestInfo × State G)
      → os.open_snapshot s.world ≡ (true, g)
      → restore_and_write r calls os (record s { world = g }) permutes ≡ some p
      → on_snapshot r calls os s permutes ≡ some (completed p.0 p.1)
  unfolding on_snapshot
  judged-opened s permutes g p e judged =
      ap
        (λ q. elim q.0 [
          | false ↦ some (skip (record s { world = q.1 }))
          | true ↦
              restore_and_write r calls os (record s { world = q.1 }) permutes
              >>= (λ c. some (completed c.0 c.1))
        ])
        e
      ∙ (ap (λ o. o >>= (λ q. some (completed q.0 q.1))) judged)

  judged-generated :
      (s : State G) (permutes : List DiskWrite) (g : G) (o : Round G)
      → os.generate s.world ≡ (true, permutes, g)
      → on_snapshot r calls os (record s { world = g }) permutes ≡ some o
      → one_round r calls os s ≡ some o
  unfolding one_round
  judged-generated s permutes g o e judged =
      ap
        (λ q. elim q.0 [
          | false ↦ some (stop (record s { world = q.2 }))
          | true ↦ on_snapshot r calls os (record s { world = q.2 }) q.1
        ])
        e
      ∙ judged

  -- A round of test_check_random_permutations that gets a new crash state, opens the snapshot and
  -- restores it, with no write failing, completes a test with what fsck, mount and check_test say
  -- of a disk that holds, byte for byte, what `parent` shows with the data of each request of the
  -- crash state that has the write flag at its sector, whatever the snapshot held before. Each
  -- write takes something of what it is given and not more, and requests without a buffer have
  -- size 0.
  pub one_round-replay :
      IsWrite calls
      → NoErrors calls
      → (s : State G) (permutes : List DiskWrite) (g1 g2 g3 : G)
      → os.generate s.world ≡ (true, permutes, g1)
      → All HasBuffer permutes
      → os.open_snapshot g1 ≡ (true, g2)
      → os.restore g2 ≡ (true, g3)
      → (g4 : G) × (disk : Page) × (one_round r calls os s
          ≡ some (
              completed
                (check_state os
                  (record { world = g4; disk = disk; disk_mounted = s.disk_mounted })).0
                (check_state os
                  (record { world = g4; disk = disk; disk_mounted = s.disk_mounted })).1))
        × ((a : ℕ) → disk a ≡ replay_writes r os.parent permutes a)
  one_round-replay law works s permutes g1 g2 g3 generates has opens restores =
      let (g4, disk, e, bytes) =
        test_write_data-works r calls law works g3 os.parent permutes has in
      let s1 = record s { world = g1 } in
      let s2 = record s { world = g2 } in
      let end = check_state os (record s { world = g4; disk = disk }) in
      (
        g4,
        disk,
        judged-generated s permutes g1 (completed end.0 end.1) generates (
            judged-opened s1 permutes g2 end opens
              (judged-restored s2 permutes g3 g4 disk restores e)),
        bytes,
      )
