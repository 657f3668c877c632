-- ===== src/DiskWrite/Meta.antt =====
-- code/disk_wrapper_ioctl.h (struct disk_write_op_meta) and code/utils/utils_c.c, the tests and
-- updates of the request flags in `bi_rw`. A word is 64 bits wide (`unsigned long`).
use Prim.Native.Nat.{bit_and, bit_or}
use crashmonkey.Common.{ℕ, ◌<◌, ◌^◌, ◌≢◌, Bool, not, ◌&&◌, ◌||◌, ◌==◌}
use crashmonkey.Common.Bits.{complement}

pub record OpMeta : Type 0 where
  pub bi_flags : ℕ
  pub bi_rw : ℕ
  pub write_sector : ℕ
  pub size : ℕ

-- `enum rq_flag_bits` of linux/blk_types.h, which differs between kernels: the position of each
-- flag that the program names. `REQ_X` is `1 << __REQ_X`.
pub record ReqBits : Type 0 where
  pub write : ℕ
  pub sync : ℕ
  pub meta : ℕ
  pub discard : ℕ
  pub fua : ℕ
  pub flush : ℕ
  pub soft_barrier : ℕ
  pub flush_seq : ℕ

-- The enumerators of an enum that stand below `__REQ_NR_BITS` are distinct bits of a word.
pub record IsEnum (r : ReqBits) : Type 0 where
  pub write_bit : r.write < 64
  pub fua_bit : r.fua < 64
  pub flush_bit : r.flush < 64
  pub soft_barrier_bit : r.soft_barrier < 64
  pub flush_seq_bit : r.flush_seq < 64
  pub write-ne-flush : r.write ≢ r.flush
  pub write-ne-flush_seq : r.write ≢ r.flush_seq
  pub fua-ne-flush : r.fua ≢ r.flush
  pub fua-ne-flush_seq : r.fua ≢ r.flush_seq
  pub soft_barrier-ne-flush : r.soft_barrier ≢ r.flush
  pub soft_barrier-ne-flush_seq : r.soft_barrier ≢ r.flush_seq

-- `m->bi_rw & REQ_X` as a truth value.
unfoldable pub has_flag : OpMeta → ℕ → Bool
has_flag m bit = not (bit_and m.bi_rw (2 ^ bit) == 0)

module _ (r : ReqBits) where
  unfoldable pub c_is_async_write : OpMeta → Bool
  c_is_async_write m =
      not (
        has_flag m r.sync
        || (has_flag m r.fua
            || (has_flag m r.flush || (has_flag m r.flush_seq || has_flag m r.soft_barrier))))
      && has_flag m r.write

  unfoldable pub c_is_barrier_write : OpMeta → Bool
  c_is_barrier_write m =
      (has_flag m r.fua
        || (has_flag m r.flush || (has_flag m r.flush_seq || has_flag m r.soft_barrier)))
      && has_flag m r.write

  unfoldable pub c_is_meta : OpMeta → Bool
  c_is_meta m = has_flag m r.meta

  unfoldable pub c_has_write_flag : OpMeta → Bool
  c_has_write_flag m = has_flag m r.write

  unfoldable pub c_has_flush_flag : OpMeta → Bool
  c_has_flush_flag m = has_flag m r.flush

  unfoldable pub c_has_flush_seq_flag : OpMeta → Bool
  c_has_flush_seq_flag m = has_flag m r.flush_seq

  unfoldable pub c_has_fua_flag : OpMeta → Bool
  c_has_fua_flag m = has_flag m r.fua

  unfoldable pub c_set_flush_flag : OpMeta → OpMeta
  c_set_flush_flag m = record m { bi_rw = bit_or m.bi_rw (2 ^ r.flush) }

  unfoldable pub c_set_flush_seq_flag : OpMeta → OpMeta
  c_set_flush_seq_flag m = record m { bi_rw = bit_or m.bi_rw (2 ^ r.flush_seq) }

  unfoldable pub c_clear_flush_flag : OpMeta → OpMeta
  c_clear_flush_flag m = record m { bi_rw = bit_and m.bi_rw (complement 64 (2 ^ r.flush)) }

  unfoldable pub c_clear_flush_seq_flag : OpMeta → OpMeta
  c_clear_flush_seq_flag m = record m { bi_rw = bit_and m.bi_rw (complement 64 (2 ^ r.flush_seq)) }
