-- ===== src/DiskWrapper.antt =====
-- code/disk_wrapper.c, the block device that logs requests: its log is a linked list of nodes
-- (struct disk_write_op) at addresses of the kernel's memory. A result `none` is a fault: a read
-- or a free of a node that is not there, a copy past a buffer, or a loop whose fuel ran out.
pub mod Ioctl
pub mod Chain
pub mod Log
pub mod Clear
pub mod Dangling
use crashmonkey.Common.{
  ℕ, zero, suc, ◌+◌, ◌-◌, Bool, true, false, ◌||◌, ◌&&◌, ◌==◌, leb, if◌then◌else◌, ◌>>=◌, Option,
  none, some, List, [], ◌∷◌, ◌++◌, length, tabulate,
}
use crashmonkey.DiskWrite.Meta.{OpMeta, ReqBits, has_flag}
use crashmonkey.DiskWrite.Stream.{Bytes}

abbrev pub Ptr : Type 0
Ptr = Option ℕ

-- struct disk_write_op; a NULL pointer is `none`.
pub record Node : Type 0 where
  pub metadata : OpMeta
  pub bytes : Option Bytes
  pub next : Ptr

abbrev pub Heap : Type 0
Heap = ℕ → Option Node

abbrev pub put : Heap → ℕ → Option Node → Heap
put h p c a = if a == p then c else h a

-- struct hwm_device, as far as logging goes.
pub record HwmDevice : Type 0 where
  pub log_on : Bool
  pub writes : Ptr
  pub current_write : Ptr
  pub current_log_write : Ptr
  pub heap : Heap

-- The loop of free_logs.
unfoldable pub free_loop : ℕ → Heap → Ptr → Option Heap
free_loop fuel h none = some h
free_loop zero h (some p) = none
free_loop (suc fuel) h (some p) = elim (h p) [
  | none ↦ none
  | some n ↦ free_loop fuel (put h p none) n.next
]

-- `rounds` is more than the log has nodes.
unfoldable pub free_logs : ℕ → HwmDevice → Option HwmDevice
free_logs rounds dev = do
  h ← free_loop rounds dev.heap dev.writes
  some (record dev { writes = none; current_write = none; current_log_write = none; heap = h })

-- struct bio: BI_SECTOR, BI_SIZE, bi_rw and bi_flags, and the bytes of each segment.
pub record Bio : Type 0 where
  pub metadata : OpMeta
  pub segments : List Bytes

-- The loop over the segments, with what is copied and the room that is left behind it.
unfoldable pub copy_segments : Bytes → ℕ → List Bytes → Option (Bytes × ℕ)
copy_segments copied left [] = some (copied, left)
copy_segments copied left (s ∷ ss) = elim (leb (length s) left) [
  | true ↦ copy_segments (copied ++ s) (left - length s) ss
  | false ↦ none
]

-- What the allocator gives to one request: the address of a node, whether there is a buffer, and
-- what stands in the last bytes of that buffer.
pub record Memory : Type 0 where
  pub node : Ptr
  pub buffer : Bool
  pub stale : ℕ → ℕ

-- The new node goes behind the last one, or is the first.
unfoldable pub link : HwmDevice → ℕ → Ptr → Option HwmDevice
link dev q none =
    some (record dev { writes = some q; current_log_write = some q; current_write = some q })
link dev q (some t) = elim (dev.heap t) [
  | none ↦ none
  | some n ↦ some (record dev {
    heap = put dev.heap t (some (record n { next = some q }));
    current_write = some q;
  })
]

-- The buffer and what is copied into it. A node without a buffer is freed again.
unfoldable pub fill : Memory → Bio → HwmDevice → ℕ → Option HwmDevice
fill memory bio dev q = elim memory.buffer [
  | false ↦ some (record dev { heap = put dev.heap q none })
  | true ↦ elim (dev.heap q) [
    | none ↦ none
    | some n ↦ elim (copy_segments [] n.metadata.size bio.segments) [
      | none ↦ none
      | some (copied, left) ↦ some (record dev {
        heap =
            put dev.heap q
              (some (record n { bytes = some (copied ++ tabulate left memory.stale) }));
      })
    ]
  ]
]

-- A request that is logged, with the node that kzalloc gave for it.
unfoldable pub log_bio : Memory → HwmDevice → Bio → Ptr → Option HwmDevice
log_bio memory dev bio none = some dev
log_bio memory dev bio (some q) = do
  let new : Node = record { metadata = bio.metadata; bytes = none; next = none }
  linked ← link (record dev { heap = put dev.heap q (some new) }) q dev.current_write
  fill memory bio linked q

module _ (r : ReqBits) where
  unfoldable pub is_logged : Bio → Bool
  is_logged bio =
      has_flag bio.metadata r.flush
      || (has_flag bio.metadata r.fua
          || (has_flag bio.metadata r.flush_seq
              || (has_flag bio.metadata r.write || has_flag bio.metadata r.discard)))

  -- The new device; the request itself is passed on to the target device in any case.
  unfoldable pub disk_wrapper_bio : Memory → HwmDevice → Bio → Option HwmDevice
  disk_wrapper_bio memory dev bio = elim (dev.log_on && is_logged bio) [
    | false ↦ some dev
    | true ↦ log_bio memory dev bio memory.node
  ]
