-- ===== src/DiskWrite/Flags.antt =====
-- code/utils/utils_c.c: what the flag operations do to every bit of `bi_rw`, and what the two
-- halves of a flush that carries data look like.
use crashmonkey.Common.{
  ℕ, zero, suc, ◌<◌, ◌^◌, ◌≡◌, refl, true, false, not, ◌&&◌, ◌||◌, ◌==◌, arith,
}
use native.Mathlib.Nat.{pow-suc, one-le-pow}
use crashmonkey.Common.Bits.{
  mask_test, test_bit-bit_or, test_bit-bit_and, test_bit-pow, test_bit-complement,
}
use crashmonkey.DiskWrite.Meta.{
  OpMeta, ReqBits, IsEnum, has_flag, c_is_barrier_write, c_has_write_flag, c_has_flush_flag,
  c_has_flush_seq_flag, c_has_fua_flag, c_set_flush_flag, c_set_flush_seq_flag, c_clear_flush_flag,
  c_clear_flush_seq_flag,
}

two-pow-lt : (j w : ℕ) → j < w → 2 ^ j < 2 ^ w
two-pow-lt j zero h = absurd (omega arith)
two-pow-lt zero (suc w) h = omega (arith, pow-suc 2 w, one-le-pow w 2)
two-pow-lt (suc j) (suc w) h = omega (arith, pow-suc 2 w, pow-suc 2 j, two-pow-lt j w (omega arith))

module _ (r : ReqBits) (m : OpMeta) (k : ℕ) where
  pub has_flag-set_flush : has_flag (c_set_flush_flag r m) k ≡ (has_flag m k || r.flush == k)
  unfolding has_flag c_set_flush_flag
  has_flag-set_flush = rw (mask_test, mask_test, test_bit-bit_or, test_bit-pow) refl

  pub has_flag-set_flush_seq :
      has_flag (c_set_flush_seq_flag r m) k ≡ (has_flag m k || r.flush_seq == k)
  unfolding has_flag c_set_flush_seq_flag
  has_flag-set_flush_seq = rw (mask_test, mask_test, test_bit-bit_or, test_bit-pow) refl

  pub has_flag-clear_flush :
      k < 64
      → r.flush < 64
      → has_flag (c_clear_flush_flag r m) k ≡ (has_flag m k && not (r.flush == k))
  unfolding has_flag c_clear_flush_flag
  has_flag-clear_flush hk hf =
      rw
        (
          mask_test,
          mask_test,
          test_bit-bit_and,
          test_bit-complement k 64 (2 ^ r.flush) (two-pow-lt r.flush 64 hf) hk,
          test_bit-pow,
        )
        refl

  pub has_flag-clear_flush_seq :
      k < 64
      → r.flush_seq < 64
      → has_flag (c_clear_flush_seq_flag r m) k ≡ (has_flag m k && not (r.flush_seq == k))
  unfolding has_flag c_clear_flush_seq_flag
  has_flag-clear_flush_seq hk hf =
      rw
        (
          mask_test,
          mask_test,
          test_bit-bit_and,
          test_bit-complement k 64 (2 ^ r.flush_seq) (two-pow-lt r.flush_seq 64 hf) hk,
          test_bit-pow,
        )
        refl

-- Each of the four updates of bi_rw changes exactly its own bit, and no other bit below 64.
pub flag_updates :
    (r : ReqBits) (m : OpMeta) (k : ℕ)
    → IsEnum r
    → k < 64
    → (has_flag (c_set_flush_flag r m) k ≡ (has_flag m k || r.flush == k))
      × (has_flag (c_set_flush_seq_flag r m) k ≡ (has_flag m k || r.flush_seq == k))
      × (has_flag (c_clear_flush_flag r m) k ≡ (has_flag m k && not (r.flush == k)))
      × (has_flag (c_clear_flush_seq_flag r m) k ≡ (has_flag m k && not (r.flush_seq == k)))
flag_updates r m k v hk = (
  has_flag-set_flush r m k,
  has_flag-set_flush_seq r m k,
  has_flag-clear_flush r m k hk v.flush_bit,
  has_flag-clear_flush_seq r m k hk v.flush_seq_bit,
)

-- Clearing both flush bits of a request with the write bit and without FUA leaves the write bit
-- set and both flush bits clear, and what is left is a barrier write exactly if the soft barrier
-- bit is set; the flags are distinct bits of a 64-bit word.
pub cleared_flags :
    (r : ReqBits) (m : OpMeta)
    → IsEnum r
    → c_has_write_flag r m ≡ true
    → c_has_fua_flag r m ≡ false
    → let c = c_clear_flush_seq_flag r (c_clear_flush_flag r m) in
      (c_has_write_flag r c ≡ true)
      × (c_has_flush_flag r c ≡ false)
      × (c_has_flush_seq_flag r c ≡ false)
      × (c_is_barrier_write r c ≡ has_flag m r.soft_barrier)
unfolding c_is_barrier_write c_has_write_flag c_has_flush_flag c_has_flush_seq_flag c_has_fua_flag
cleared_flags r m v hw hf =
    let once = λ (k : ℕ) (p : k < 64). has_flag-clear_flush r m k p v.flush_bit in
    let twice = λ (k : ℕ) (p : k < 64).
      has_flag-clear_flush_seq r (c_clear_flush_flag r m) k p v.flush_seq_bit in
    ground (
      arith,
      once r.write v.write_bit,
      once r.fua v.fua_bit,
      once r.flush v.flush_bit,
      once r.flush_seq v.flush_seq_bit,
      once r.soft_barrier v.soft_barrier_bit,
      twice r.write v.write_bit,
      twice r.fua v.fua_bit,
      twice r.flush v.flush_bit,
      twice r.flush_seq v.flush_seq_bit,
      twice r.soft_barrier v.soft_barrier_bit,
    )
