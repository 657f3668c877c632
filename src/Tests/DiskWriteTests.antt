-- ===== src/Tests/DiskWriteTests.antt =====
-- Code/utils at concrete requests.
use crashmonkey.Common.{◌≡◌, refl, true, false, not, ◌&&◌, ◌||◌, ◌==◌, some, [], ◌∷◌, arith}
use crashmonkey.DiskWrite.Meta.{
  has_flag, c_has_write_flag, c_has_flush_flag, c_has_flush_seq_flag, c_has_fua_flag,
  c_is_barrier_write, c_set_flush_flag, c_set_flush_seq_flag, c_clear_flush_flag,
  c_clear_flush_seq_flag,
}
use crashmonkey.DiskWrite.Flags.{flag_updates, cleared_flags}
use crashmonkey.DiskWrite.Stream.{Bytes, serialize, deserialize}
use crashmonkey.DiskWrite.Stream.RoundTrip.{IsBuilt, deserialize-serialize}
use crashmonkey.Tests.{bits, bits-IsEnum, plain, flush_write}

flag_updates_example :
    let m = plain.metadata in
    (has_flag (c_set_flush_flag bits m) 12 ≡ (has_flag m 12 || 12 == 12))
    × (has_flag (c_set_flush_seq_flag bits m) 12 ≡ (has_flag m 12 || 17 == 12))
    × (has_flag (c_clear_flush_flag bits m) 12 ≡ (has_flag m 12 && not (12 == 12)))
    × (has_flag (c_clear_flush_seq_flag bits m) 12 ≡ (has_flag m 12 && not (17 == 12)))
flag_updates_example = flag_updates bits plain.metadata 12 bits-IsEnum (omega arith)

cleared_flags_example :
    let c = c_clear_flush_seq_flag bits (c_clear_flush_flag bits flush_write.metadata) in
    (c_has_write_flag bits c ≡ true)
    × (c_has_flush_flag bits c ≡ false)
    × (c_has_flush_seq_flag bits c ≡ false)
    × (c_is_barrier_write bits c ≡ has_flag flush_write.metadata 16)
unfolding c_has_write_flag c_has_fua_flag has_flag
cleared_flags_example = cleared_flags bits flush_write.metadata bits-IsEnum refl refl

plain-IsBuilt : IsBuilt plain
plain-IsBuilt = omega arith

deserialize-serialize_example :
    (text : Bytes) × (serialize plain (1 ∷ 2 ∷ []) ≡ some text)
    × (deserialize text ≡ some (plain, 1 ∷ 2 ∷ []))
deserialize-serialize_example = deserialize-serialize plain (1 ∷ 2 ∷ []) plain-IsBuilt
