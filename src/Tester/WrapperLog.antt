-- ===== src/Tester/WrapperLog.antt =====
-- code/harness/Tester.cpp: get_wrapper_log, which reads the log of code/disk_wrapper.c entry by
-- entry, and the calls around it. Of Tester's state they use `ioctl_fd` and `log_data`. A result
-- `none` is a fault of the driver, or the fuel ran out.
pub mod Reads
pub mod Session
use crashmonkey.Common.{
  ℕ, zero, suc, Bool, true, false, ◌>>=◌, Option, none, some, List, [], ◌∷◌, ◌++◌, tabulate,
}
use crashmonkey.DiskWrite.Meta.{OpMeta}
use crashmonkey.DiskWrite.{DiskWrite, make}
use crashmonkey.CowBrd.{Page}
use crashmonkey.DiskWrapper.{HwmDevice}
use crashmonkey.DiskWrapper.Ioctl.{
  Command, hwm_log_off, hwm_log_on, hwm_get_log_meta, hwm_get_log_data, hwm_next_ent, hwm_clr_log,
  Errno, success, enodata, efault, einval, Platform, disk_wrapper_ioctl,
}

pub data Code : Type 0 where
  wrapper_success : Code
  wrapper_data_err : Code
  wrapper_mem_err : Code

-- What the system call answers: 0, or -1 with errno.
pub data Answer : Type 0 where
  go_on : Answer
  leave : Answer
  fail : Answer

-- `result == -1` with ENODATA breaks, with EFAULT gives up, and anything else is not looked at.
unfoldable pub answer : Errno → Answer
answer success = go_on
answer enodata = leave
answer efault = fail
answer einval = go_on

-- After HWM_NEXT_ENT every error leaves the loop, and all but ENODATA clear the log.
unfoldable pub after_next : Errno → List DiskWrite → Answer × List DiskWrite
after_next success log_data = (go_on, log_data)
after_next enodata log_data = (leave, log_data)
after_next efault log_data = (leave, [])
after_next einval log_data = (leave, [])

-- What a round leaves: to go on with, or the end of the function.
pub data Round : Type 0 where
  next_round : HwmDevice → Page → List DiskWrite → Round
  returned : Code → HwmDevice → List DiskWrite → Round

module _ (os : Platform) (rounds : ℕ) where
  unfoldable pub next_entry : HwmDevice → Page → List DiskWrite → Option Round
  next_entry dev user log_data = do
    (err, dev', user') ← disk_wrapper_ioctl os rounds dev hwm_next_ent user
    let (ans, kept) = after_next err log_data
    elim ans [
      | go_on ↦ some (next_round dev' user' kept)
      | leave ↦ some (returned wrapper_success dev' kept)
      | fail ↦ some (returned wrapper_success dev' kept)
    ]

  -- `data` is a new buffer of meta.size bytes.
  unfoldable pub get_data : HwmDevice → Page → OpMeta → List DiskWrite → Option Round
  get_data dev user meta log_data = do
    (err, dev', user') ← disk_wrapper_ioctl os rounds dev hwm_get_log_data user
    elim (answer err) [
      | leave ↦ some (returned wrapper_success dev' log_data)
      | fail ↦ some (returned wrapper_mem_err dev' [])
      | go_on ↦
          next_entry dev' user' (log_data ++ (make meta (some (tabulate meta.size user')) ∷ []))
    ]

  unfoldable pub one_round : HwmDevice → Page → List DiskWrite → Option Round
  one_round dev user log_data = do
    (err, dev', user') ← disk_wrapper_ioctl os rounds dev hwm_get_log_meta user
    elim (answer err) [
      | leave ↦ some (returned wrapper_success dev' log_data)
      | fail ↦ some (returned wrapper_data_err dev' [])
      | go_on ↦ get_data dev' user' (os.meta_of user') log_data
    ]

  unfoldable pub log_loop :
      ℕ → HwmDevice → Page → List DiskWrite → Option (Code × HwmDevice × List DiskWrite)
  log_loop zero dev user log_data = none
  log_loop (suc fuel) dev user log_data = elim (one_round dev user log_data) [
    | none ↦ none
    | some (next_round dev' user' log_data') ↦ log_loop fuel dev' user' log_data'
    | some (returned code dev' log_data') ↦ some (code, dev', log_data')
  ]

  -- `connected` is `ioctl_fd != -1`; `user` is the memory that the buffers are in.
  unfoldable pub get_wrapper_log :
      Bool → HwmDevice → Page → List DiskWrite → Option (Code × HwmDevice × List DiskWrite)
  get_wrapper_log false dev user log_data = some (wrapper_success, dev, log_data)
  get_wrapper_log true dev user log_data = log_loop (suc rounds) dev user log_data

  -- The results of these ioctls are not looked at.
  unfoldable pub send : Bool → Command → HwmDevice → Page → Option HwmDevice
  send false c dev user = some dev
  send true c dev user = do (err, dev', user') ← disk_wrapper_ioctl os rounds dev c user; some dev'

  unfoldable pub begin_wrapper_logging : Bool → HwmDevice → Page → Option HwmDevice
  begin_wrapper_logging connected = send connected hwm_log_on

  unfoldable pub end_wrapper_logging : Bool → HwmDevice → Page → Option HwmDevice
  end_wrapper_logging connected = send connected hwm_log_off

  unfoldable pub clear_wrapper_log : Bool → HwmDevice → Page → Option HwmDevice
  clear_wrapper_log connected = send connected hwm_clr_log
