-- ===== src/Tester/Check.antt =====
-- code/harness/Tester.cpp: test_check_random_permutations with mount_device and umount_device, which
-- put crash states on a snapshot and check the file system there. A result `none` means that the
-- fuel of a write ran out.
pub mod Mounts
pub mod Rounds
pub mod Outcome
use crashmonkey.Common.{
  ℕ, zero, suc, ◌/◌, ◌%◌, Bool, true, false, not, ◌&&◌, ◌||◌, ◌==◌, ◌>>=◌, if◌then◌else◌, Option,
  none, some, List, [], ◌∷◌, ◌++◌,
}
use crashmonkey.DiskWrite.Meta.{ReqBits}
use crashmonkey.DiskWrite.{DiskWrite}
use crashmonkey.CowBrd.{Page}
use crashmonkey.Results.{SingleTestInfo, clean, fixed}
use crashmonkey.Tester.WriteData.{Calls, test_write_data}

-- The other enumerators of FileSystemTestResult::ErrorType that the harness sets.
abbrev pub unmountable : ℕ
unmountable = 1

abbrev pub check_err : ℕ
check_err = 4

abbrev pub snapshot_restore : ℕ
snapshot_restore = 8

abbrev pub bio_write : ℕ
bio_write = 16

-- What the harness calls, over the state G of the rest of the system: GenerateCrashState, the
-- opening of the snapshot, the ioctl COW_BRD_RESTORE_SNAPSHOT, which shows the bytes of `parent`,
-- fsck with its status, mount, umount, and check_test, with whether it returns 0 and the error of
-- the data that it sets. Three of them may write to the disk. `mount_count` is how many file systems
-- are mounted at the mount point, which the harness does not see.
pub record Machine (G : Type 0) : Type 0 where
  pub generate : G → Bool × List DiskWrite × G
  pub open_snapshot : G → Bool × G
  pub restore : G → Bool × G
  pub parent : Page
  pub fsck : G → Page → ℕ × Page × G
  pub mount : G → Page → Bool × Page × G
  pub check_test : G → Page → Bool × ℕ × Page × G
  pub umount : G → Page → Bool × Page × G
  pub mount_count : G → ℕ

-- The snapshot's bytes, Tester's `disk_mounted`, and the rest.
pub record State (G : Type 0) : Type 0 where
  pub world : G
  pub disk : Page
  pub disk_mounted : Bool

-- `fs_check_return == 0 || WEXITSTATUS(fs_check_return) == 1`
unfoldable pub fsck_passes : ℕ → Bool
fsck_passes status = (status == 0) || (status / 256 % 256 == 1)

abbrev pub failed_with : ℕ → SingleTestInfo
failed_with err = record { data_test = clean; fs_test = err }

-- How a round ends: with `break`, with `continue` and no test added, or with a test.
pub data Round (G : Type 0) : Type 0 where
  stop : State G → Round G
  skip : State G → Round G
  completed : SingleTestInfo → State G → Round G

module _ {G : Type 0} (os : Machine G) where
  unfoldable pub mount_device : State G → Bool × State G
  mount_device s =
      let (mounts, disk', g') = os.mount s.world s.disk in
      (mounts, record { world = g'; disk = disk'; disk_mounted = mounts })

  -- The second argument is `disk_mounted`.
  unfoldable pub umount_if : State G → Bool → Bool × State G
  umount_if s false = (true, record s { disk_mounted = false })
  umount_if s true =
      let (umounts, disk', g') = os.umount s.world s.disk in
      (umounts, record { world = g'; disk = disk'; disk_mounted = not umounts })

  unfoldable pub umount_device : State G → Bool × State G
  umount_device s = umount_if s s.disk_mounted

  -- The user's check of a mounted file system, with fsck's status.
  unfoldable pub check_data : ℕ → State G → SingleTestInfo × State G
  check_data status s =
      let (zero_returned, err, disk', g') = os.check_test s.world s.disk in
      (
        record {
          data_test = err;
          fs_test = if zero_returned && not (status == 0) then fixed else clean;
        },
        (umount_device (record s { world = g'; disk = disk' })).1,
      )

  unfoldable pub mount_and_check : ℕ → State G → SingleTestInfo × State G
  mount_and_check status s =
      let (mounts, s') = mount_device s in
      elim mounts [ false ↦ (failed_with unmountable, s') | true ↦ check_data status s' ]

  -- From fsck on.
  unfoldable pub check_state : State G → SingleTestInfo × State G
  check_state s =
      let (status, disk', g') = os.fsck s.world s.disk in
      let s' = record s { world = g'; disk = disk' } in
      elim (fsck_passes status) [
        | false ↦ (failed_with check_err, s')
        | true ↦ mount_and_check status s'
      ]

module _ {G : Type 0} (r : ReqBits) (calls : Calls G) (os : Machine G) where
  unfoldable pub write_state : State G → List DiskWrite → Option (SingleTestInfo × State G)
  write_state s permutes = do
    (g', ok, disk') ← test_write_data r calls s.world s.disk permutes
    let s' = record s { world = g'; disk = disk' }
    elim ok [ false ↦ some (failed_with bio_write, s') | true ↦ some (check_state os s') ]

  -- clone_device_restore, without a new look at the partitions, and what follows it.
  unfoldable pub restore_and_write : State G → List DiskWrite → Option (SingleTestInfo × State G)
  restore_and_write s permutes =
      let (restores, g') = os.restore s.world in
      elim restores [
        | false ↦ some (failed_with snapshot_restore, record s { world = g' })
        | true ↦ write_state (record s { world = g'; disk = os.parent }) permutes
      ]

  unfoldable pub on_snapshot : State G → List DiskWrite → Option (Round G)
  on_snapshot s permutes =
      let (opens, g') = os.open_snapshot s.world in
      elim opens [
        | false ↦ some (skip (record s { world = g' }))
        | true ↦ do
          (info, s') ← restore_and_write (record s { world = g' }) permutes
          some (completed info s')
      ]

  unfoldable pub one_round : State G → Option (Round G)
  one_round s =
      let (new_state, permutes, g') = os.generate s.world in
      elim new_state [
        | false ↦ some (stop (record s { world = g' }))
        | true ↦ on_snapshot (record s { world = g' }) permutes
      ]

  unfoldable pub rounds_loop :
      ℕ → State G → List SingleTestInfo → Option (List SingleTestInfo × State G)
  rounds_loop zero s suite = some (suite, s)
  rounds_loop (suc rounds) s suite = elim (one_round s) [
    | none ↦ none
    | some (stop s') ↦ some (suite, s')
    | some (skip s') ↦ rounds_loop rounds s' suite
    | some (completed info s') ↦ rounds_loop rounds s' (suite ++ (info ∷ []))
  ]

  -- The test suite that is pushed onto test_results_.
  unfoldable pub test_check_random_permutations :
      ℕ → State G → Option (List SingleTestInfo × State G)
  test_check_random_permutations num_rounds s = rounds_loop num_rounds s []
