-- ===== src/Tests/PermuterTests.antt =====
-- code/permuter at concrete logs.
use crashmonkey.Common.{
  ℕ, suc, ◌≡◌, ◌<◌, ◌↔◌, refl, Bool, true, false, none, some, List, [], ◌∷◌, ◌++◌, All, arith,
}
use crashmonkey.DiskWrite.Meta.{
  has_flag, c_is_barrier_write, c_is_meta, c_has_flush_flag, c_has_flush_seq_flag, c_has_write_flag,
  c_has_fua_flag,
}
use crashmonkey.DiskWrite.{
  DiskWrite, is_barrier_write, is_meta, has_flush_flag, has_flush_seq_flag, has_write_flag,
  has_fua_flag,
}
use crashmonkey.Permuter.{EpochOp, Epoch, bio_vector_equal}
use crashmonkey.Permuter.Init.{
  find_overlap, bool_to_int, add_op, place_half, async_body, async_loop, is_split, barrier_body,
  barrier_part, new_epoch, one_epoch, epochs_loop, initial, init_data_vector,
}
use crashmonkey.Permuter.Init.Replay.{
  all_ops, entry, NoSplit, replay, init_data_vector-replay, init_data_vector-numbered,
  init_data_vector-split_last,
}
use crashmonkey.Permuter.Init.Shape.{IsShaped, init_data_vector-IsShaped}
use crashmonkey.Permuter.Generate.{Run, done, Generated, generate_crash_state}
use crashmonkey.Permuter.Generate.Fresh.{
  Makes, IsOutcome, bio_vector_equal_iff, generate_crash_state-IsOutcome,
}
use crashmonkey.Permuter.Random.{blank, permute_epoch, gen_one_state}
use crashmonkey.Permuter.Random.Place.{IsPlaced, permute_epoch-IsPlaced}
use crashmonkey.Permuter.Random.State.{IsCrashState, gen_one_state-IsCrashState}
use crashmonkey.Permuter.CrashStates.{InLogOrder, generate-InLogOrder}
use crashmonkey.Tests.{bits, plain, durable, flush_write, junk, lowest, lowest-InRange}

abbrev log : List DiskWrite
log = plain ∷ durable ∷ plain ∷ []

-- Its epochs: the first ends at the write with FUA.
abbrev log_epochs : List Epoch
log_epochs =
    record {
      num_meta = 77;
      has_barrier = true;
      overlaps = false;
      ops = entry 0 plain ∷ entry 1 durable ∷ [];
    }
    ∷ record { num_meta = 77; has_barrier = false; overlaps = false; ops = entry 2 plain ∷ [] }
    ∷ []

log_cut : init_data_vector bits junk log ≡ some log_epochs
unfolding init_data_vector initial epochs_loop one_epoch new_epoch async_loop async_body place_half
    add_op find_overlap bool_to_int barrier_part barrier_body is_split is_barrier_write is_meta
    has_flush_flag has_flush_seq_flag has_write_flag has_fua_flag c_is_barrier_write c_is_meta
    c_has_flush_flag c_has_flush_seq_flag c_has_write_flag c_has_fua_flag has_flag
log_cut = refl

log-NoSplit : NoSplit bits junk log
unfolding is_split has_flush_flag has_flush_seq_flag has_write_flag has_fua_flag c_has_flush_flag
    c_has_flush_seq_flag c_has_write_flag c_has_fua_flag has_flag
log-NoSplit = (refl, (refl, (refl, tt)))

flush_write_splits : (is_barrier_write bits flush_write ≡ true) × (is_split bits flush_write ≡ true)
unfolding is_split is_barrier_write c_is_barrier_write has_flush_flag has_flush_seq_flag
    has_write_flag has_fua_flag c_has_flush_flag c_has_flush_seq_flag c_has_write_flag
    c_has_fua_flag has_flag
flush_write_splits = (refl, refl)

init_data_vector-replay_example :
    (es : List Epoch) × (init_data_vector bits junk (plain ∷ flush_write ∷ plain ∷ []) ≡ some es)
    × (all_ops es ≡ replay bits junk none 0 (plain ∷ flush_write ∷ plain ∷ []))
init_data_vector-replay_example =
    init_data_vector-replay bits junk (plain ∷ flush_write ∷ plain ∷ [])

init_data_vector-numbered_example :
    (es : List Epoch) × (init_data_vector bits junk log ≡ some es)
    × (all_ops es ≡ entry 0 plain ∷ entry 1 durable ∷ entry 2 plain ∷ [])
init_data_vector-numbered_example = init_data_vector-numbered bits junk log log-NoSplit

init_data_vector-split_last_example :
    (es : List Epoch) × (fs : List Epoch) × (last : EpochOp) × (init_data_vector bits junk
        (plain ∷ [])
      ≡ some es)
    × (init_data_vector bits junk (plain ∷ flush_write ∷ []) ≡ some fs)
    × (all_ops fs ≡ all_ops es ++ (last ∷ []))
    × (last.abs_index ≡ 1)
    × (last.op.data_ptr ≡ none)
init_data_vector-split_last_example =
    init_data_vector-split_last bits junk (plain ∷ []) flush_write flush_write_splits.0
      flush_write_splits.1

init_data_vector-IsShaped_example : All (IsShaped bits) log_epochs
init_data_vector-IsShaped_example = init_data_vector-IsShaped bits junk log log_epochs log_cut

bio_vector_equal_iff_example :
    (bio_vector_equal (1 ∷ 2 ∷ []) (1 ∷ 3 ∷ []) ≡ true)
    ↔ (◌≡◌ {A = List ℕ} (1 ∷ 2 ∷ []) (1 ∷ 3 ∷ []))
bio_vector_equal_iff_example = bio_vector_equal_iff (1 ∷ 2 ∷ []) (1 ∷ 3 ∷ [])

-- A permuter that always makes the same state.
abbrev always : ℕ → List EpochOp → Run (ℕ × Bool × List EpochOp)
always g cs = done (suc g, true, entry 0 plain ∷ [])

abbrev IsAlways : List EpochOp → Type 0
IsAlways cs = cs ≡ entry 0 plain ∷ []

always-Makes : Makes IsAlways always
always-Makes g cs = ((suc g, true, entry 0 plain ∷ []), refl, refl)

generate_crash_state-IsOutcome_example :
    (cs : List EpochOp) × (out : Generated ℕ) × (generate_crash_state always ((1 ∷ []) ∷ []) 5
      ≡ done out)
    × IsOutcome ((1 ∷ []) ∷ []) cs out
    × IsAlways cs
generate_crash_state-IsOutcome_example =
    generate_crash_state-IsOutcome IsAlways always ((1 ∷ []) ∷ []) 5 always-Makes

abbrev first_epoch : Epoch
first_epoch = record {
  num_meta = 77;
  has_barrier = true;
  overlaps = false;
  ops = entry 0 plain ∷ entry 1 durable ∷ [];
}

permute_epoch-IsPlaced_example :
    (out : List EpochOp) × (g' : ℕ) × (permute_epoch lowest (blank ∷ blank ∷ []) first_epoch 0
      ≡ done (out, g'))
    × IsPlaced (blank ∷ blank ∷ []) first_epoch out
permute_epoch-IsPlaced_example =
    permute_epoch-IsPlaced lowest lowest-InRange (blank ∷ blank ∷ []) first_epoch 0 (omega arith)
      (omega arith)

gen_one_state-IsCrashState_example :
    (g' : ℕ) × (out : List EpochOp) × (n k : ℕ) × (gen_one_state lowest log_epochs 0 []
      ≡ done (g', true, out))
    × (0 < n)
    × (k < 2)
    × IsCrashState n k log_epochs out
gen_one_state-IsCrashState_example =
    gen_one_state-IsCrashState lowest lowest-InRange log_epochs 0 [] (omega arith) (omega arith)

generate-InLogOrder_example :
    (es : List Epoch) × (cs : List EpochOp) × (out : Generated ℕ) × (init_data_vector bits junk log
      ≡ some es)
    × (all_ops es ≡ replay bits junk none 0 log)
    × (generate_crash_state (gen_one_state lowest es) [] 0 ≡ done out)
    × IsOutcome [] cs out
    × InLogOrder es cs
generate-InLogOrder_example =
    generate-InLogOrder lowest lowest-InRange bits junk log [] 0 (omega arith)
