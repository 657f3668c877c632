-- ===== src/DiskWrapper/Ioctl.antt =====
-- code/disk_wrapper.c: disk_wrapper_ioctl, with the loops around copy_to_user.
use crashmonkey.Common.{
  ℕ, zero, suc, ◌+◌, ◌-◌, ◌*◌, ◌<◌, ◌≡◌, Bool, true, false, ◌==◌, ◌>>=◌, Option, none, some, get_or,
}
use crashmonkey.DiskWrite.Meta.{OpMeta}
use crashmonkey.DiskWrite.Stream.{Bytes}
use crashmonkey.CowBrd.{Page}
use crashmonkey.CowBrd.Pages.{memcpy}
use crashmonkey.DiskWrapper.{Ptr, Node, HwmDevice, free_logs}

-- The commands of code/disk_wrapper_ioctl.h that this driver knows, and any other.
pub data Command : Type 0 where
  hwm_log_off : Command
  hwm_log_on : Command
  hwm_get_log_meta : Command
  hwm_get_log_data : Command
  hwm_next_ent : Command
  hwm_clr_log : Command
  other : ℕ → Command

pub data Errno : Type 0 where
  success : Errno
  enodata : Errno
  efault : Errno
  einval : Errno

-- What the compiler and the kernel decide: the size of struct disk_write_op_meta, the memory from
-- a node's `metadata` on, the struct that user space sees in such memory, access_ok of a size,
-- and how many of n bytes copy_to_user leaves uncopied.
pub record Platform : Type 0 where
  pub sizeof_meta : ℕ
  pub memory_of : Node → Page
  pub meta_of : Page → OpMeta
  pub access_ok : ℕ → Bool
  pub not_copied : ℕ → ℕ

pub record IsPlatform (os : Platform) : Type 0 where
  pub meta_back :
      (n : Node) (user : Page)
      → ((k : ℕ) → k < os.sizeof_meta → user k ≡ os.memory_of n k)
      → os.meta_of user ≡ n.metadata

module _ (os : Platform) where
  -- `while (not_copied != 0)`, with the bytes at `arg` in user space; each `offset` counts for
  -- `stride` bytes of the source, the size of what the source's pointer points to.
  unfoldable pub copy_loop : ℕ → ℕ → Page → Page → ℕ → ℕ → Option Page
  copy_loop zero stride user src size left = none
  copy_loop (suc fuel) stride user src size left = elim (left == 0) [
    | true ↦ some user
    | false ↦
        let offset = size - left in
        copy_loop fuel stride
          (memcpy user offset (λ k. src (stride * offset + k)) (left - os.not_copied left)) src size
          (os.not_copied left)
  ]

  -- `&metadata + offset` counts in structs, `data + offset` in bytes.
  unfoldable pub copy_meta : Node → Page → Option Page
  copy_meta n user =
      copy_loop (suc os.sizeof_meta) os.sizeof_meta user (os.memory_of n) os.sizeof_meta
        os.sizeof_meta

  unfoldable pub buffer_memory : Option Bytes → Page
  buffer_memory none k = 0
  buffer_memory (some d) k = get_or d k 0

  unfoldable pub copy_data : Node → Page → Option Page
  copy_data n user =
      copy_loop (suc n.metadata.size) 1 user (buffer_memory n.bytes) n.metadata.size n.metadata.size

  -- The node that is sent next, and a fault where it is gone.
  unfoldable pub with_entry :
      HwmDevice
      → Page
      → Ptr
      → (Node → Option (Errno × HwmDevice × Page))
      → Option (Errno × HwmDevice × Page)
  with_entry dev user none then_do = some (enodata, dev, user)
  with_entry dev user (some p) then_do = elim (dev.heap p) [ none ↦ none | some n ↦ then_do n ]

  -- The error, the device, and what is at `arg` in user space.
  unfoldable pub disk_wrapper_ioctl :
      ℕ → HwmDevice → Command → Page → Option (Errno × HwmDevice × Page)
  disk_wrapper_ioctl rounds dev hwm_log_off user =
      some (success, record dev { log_on = false }, user)
  disk_wrapper_ioctl rounds dev hwm_log_on user = some (success, record dev { log_on = true }, user)
  disk_wrapper_ioctl rounds dev hwm_get_log_meta user =
      with_entry dev user dev.current_log_write λ n. elim (os.access_ok os.sizeof_meta) [
        | false ↦ some (efault, dev, user)
        | true ↦ do user' ← copy_meta n user; some (success, dev, user')
      ]
  disk_wrapper_ioctl rounds dev hwm_get_log_data user =
      with_entry dev user dev.current_log_write λ n. elim (os.access_ok n.metadata.size) [
        | false ↦ some (efault, dev, user)
        | true ↦ do user' ← copy_data n user; some (success, dev, user')
      ]
  disk_wrapper_ioctl rounds dev hwm_next_ent user =
      with_entry dev user dev.current_log_write
        λ n. some (success, record dev { current_log_write = n.next }, user)
  disk_wrapper_ioctl rounds dev hwm_clr_log user = do
    dev' ← free_logs rounds dev
    some (success, dev', user)
  disk_wrapper_ioctl rounds dev (other n) user = some (einval, dev, user)
