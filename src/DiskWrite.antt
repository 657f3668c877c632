-- ===== src/DiskWrite.antt =====
-- code/utils/utils.h and code/utils/utils.cpp: class disk_write. The data is a `shared_ptr<char>`,
-- null or a buffer; copies share a buffer, but no method writes to a buffer that is shared, so a
-- copy is the same value.
pub mod Meta
pub mod Flags
pub mod Stream
use crashmonkey.Common.{
  ℕ, Bool, true, false, not, ◌&&◌, ◌==◌, ltb, if◌then◌else◌, Option, none, some, List, [], ◌∷◌,
  take,
}
use Meta.{
  OpMeta, ReqBits, c_is_async_write, c_is_barrier_write, c_is_meta, c_has_write_flag,
  c_has_flush_flag, c_has_flush_seq_flag, c_has_fua_flag, c_set_flush_flag, c_set_flush_seq_flag,
  c_clear_flush_flag, c_clear_flush_seq_flag,
}

pub record DiskWrite : Type 0 where
  pub metadata : OpMeta
  pub data_ptr : Option (List ℕ)

-- `memcpy` of `size` bytes into a fresh buffer, if there is a size and a source.
unfoldable pub copied : OpMeta → Option (List ℕ) → Option (List ℕ) → Option (List ℕ)
copied m none old = old
copied m (some d) old = if ltb 0 m.size then some (take m.size d) else old

-- The constructor from metadata and a buffer.
unfoldable pub make : OpMeta → Option (List ℕ) → DiskWrite
unfolding copied
make m d = record { metadata = m; data_ptr = copied m d none }

unfoldable pub set_data : DiskWrite → Option (List ℕ) → DiskWrite
unfolding copied
set_data w d = record w { data_ptr = copied w.metadata d w.data_ptr }

unfoldable pub get_data : DiskWrite → Option (List ℕ)
get_data w = w.data_ptr

-- `memcmp(a, b, n) == 0` on the bytes that both buffers have.
unfoldable pub same_bytes : List ℕ → List ℕ → Bool
same_bytes [] [] = true
same_bytes (x ∷ xs) (y ∷ ys) = x == y && same_bytes xs ys
same_bytes _ _ = false

same_data : ℕ → Option (List ℕ) → Option (List ℕ) → Bool
same_data n none none = true
same_data n (some a) (some b) = same_bytes (take n a) (take n b)
same_data n _ _ = false

-- `operator==`
pub equal : DiskWrite → DiskWrite → Bool
unfolding same_data same_bytes
equal a b =
    (a.metadata.bi_flags == b.metadata.bi_flags
      && (a.metadata.bi_rw == b.metadata.bi_rw
          && (a.metadata.write_sector == b.metadata.write_sector
              && a.metadata.size == b.metadata.size)))
    && same_data a.metadata.size a.data_ptr b.data_ptr

module _ (r : ReqBits) where
  unfoldable pub is_async_write : DiskWrite → Bool
  is_async_write w = c_is_async_write r w.metadata

  unfoldable pub is_barrier_write : DiskWrite → Bool
  is_barrier_write w = c_is_barrier_write r w.metadata

  unfoldable pub is_meta : DiskWrite → Bool
  is_meta w = c_is_meta r w.metadata

  unfoldable pub has_write_flag : DiskWrite → Bool
  has_write_flag w = c_has_write_flag r w.metadata

  unfoldable pub has_flush_flag : DiskWrite → Bool
  has_flush_flag w = c_has_flush_flag r w.metadata

  unfoldable pub has_flush_seq_flag : DiskWrite → Bool
  has_flush_seq_flag w = c_has_flush_seq_flag r w.metadata

  unfoldable pub has_fua_flag : DiskWrite → Bool
  has_fua_flag w = c_has_fua_flag r w.metadata

  unfoldable pub set_flush_flag : DiskWrite → DiskWrite
  set_flush_flag w = record w { metadata = c_set_flush_flag r w.metadata }

  unfoldable pub set_flush_seq_flag : DiskWrite → DiskWrite
  set_flush_seq_flag w = record w { metadata = c_set_flush_seq_flag r w.metadata }

  unfoldable pub clear_flush_flag : DiskWrite → DiskWrite
  clear_flush_flag w = record w { metadata = c_clear_flush_flag r w.metadata }

  unfoldable pub clear_flush_seq_flag : DiskWrite → DiskWrite
  clear_flush_seq_flag w = record w { metadata = c_clear_flush_seq_flag r w.metadata }
