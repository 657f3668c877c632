-- ===== src/Tester/Image.antt =====
-- code/harness/Tester.cpp: log_snapshot_save and log_snapshot_load, which keep the disk's base image in
-- a file. A result `none` is a failed assertion, or the fuel of a loop ran out.
pub mod Copies
use crashmonkey.Common.{
  ℕ, zero, suc, ◌+◌, ◌-◌, ◌%◌, ◌^◌, Bool, true, false, ltb, ◌>>=◌, Option, none, some, length,
  tabulate, get_or,
}
use crashmonkey.DiskWrite.Stream.{Bytes}
use crashmonkey.CowBrd.{Page}
use crashmonkey.CowBrd.Pages.{memcpy}
use crashmonkey.Tester.Profile.{Code, success, log_clone_err}

-- read and write of n bytes at a position of the device, where `none` is a negative result, the ioctl
-- COW_BRD_WIPE, and all that follows the last write: fsync, close and the ioctl COW_BRD_SNAPSHOT.
pub record ImageCalls (G : Type 0) : Type 0 where
  pub read : G → ℕ → ℕ → Option ℕ × G
  pub write : G → ℕ → ℕ → Option ℕ × G
  pub wipe : G → Page → Page × G
  pub finish : G → G

-- Sums of `unsigned int`.
abbrev pub wrap : ℕ → ℕ
wrap n = n % 4294967296

module _ {G : Type 0} (calls : ImageCalls G) (device_size : ℕ) where
  -- The device is read from where cow_brd_fd stands, its beginning. An error ends the loop.
  unfoldable pub save_loop : ℕ → G → Page → Page → ℕ → Option (Page × G)
  save_loop zero g disk device_clone bytes_read = none
  save_loop (suc fuel) g disk device_clone bytes_read =
      let (res, g') = calls.read g bytes_read (device_size - bytes_read) in
      elim res [
        | none ↦ some (device_clone, g')
        | some k ↦
            let device_clone' = memcpy device_clone bytes_read (λ j. disk (bytes_read + j)) k in
            elim (ltb (wrap (bytes_read + k)) device_size) [
              | true ↦ save_loop fuel g' disk device_clone' (wrap (bytes_read + k))
              | false ↦ some (device_clone', g')
            ]
      ]

  -- `fails` is log.fail(), and `stale` what the array holds before it is read into; the file's bytes
  -- come with the result.
  unfoldable pub log_snapshot_save : G → Page → Page → Bool → Option (Code × Bytes × G)
  log_snapshot_save g disk stale fails = do
    (device_clone, g') ← save_loop (suc device_size) g disk stale 0
    some (
      elim fails [ true ↦ log_clone_err | false ↦ success ],
      tabulate device_size device_clone,
      g',
    )

  -- The device's position moves with what was written; bytes_written also takes an error's -1.
  unfoldable pub load_loop : ℕ → G → Page → Page → ℕ → ℕ → Option (Page × G)
  load_loop zero g disk device_clone position bytes_written = none
  load_loop (suc fuel) g disk device_clone position bytes_written =
      let (res, g') = calls.write g position (device_size - bytes_written) in
      elim res [
        | none ↦ elim (ltb (wrap (bytes_written + 4294967295)) device_size) [
          | true ↦ load_loop fuel g' disk device_clone position (wrap (bytes_written + 4294967295))
          | false ↦ some (disk, g')
        ]
        | some k ↦
            let disk' = memcpy disk position (λ j. device_clone (bytes_written + j)) k in
            elim (ltb (wrap (bytes_written + k)) device_size) [
              | true ↦
                  load_loop fuel g' disk' device_clone (position + k) (wrap (bytes_written + k))
              | false ↦ some (disk', g')
            ]
      ]

  -- What follows the read of the file, whether it had enough bytes.
  unfoldable pub load_image : Bool → G → Page → Bytes → Option (Code × Page × G)
  load_image true g disk file = some (log_clone_err, disk, g)
  load_image false g disk file = do
    (disk', g') ← load_loop (suc device_size) g disk (λ a. get_or file a 0) 0 0
    some (success, disk', calls.finish g')

  -- A file that is longer fails the assertion.
  unfoldable pub log_snapshot_load : G → Page → Bytes → Option (Code × Page × G)
  log_snapshot_load g disk file =
      let (wiped, g') = calls.wipe g disk in
      elim (ltb device_size (length file)) [
        | true ↦ none
        | false ↦ load_image (ltb (length file) device_size) g' wiped file
      ]
