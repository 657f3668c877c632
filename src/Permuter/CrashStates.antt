-- ===== src/Permuter/CrashStates.antt =====
-- code/permuter: Permuter::InitDataVector, RandomPermuter::gen_one_state and
-- Permuter::GenerateCrashState together, from a log of requests to the crash states that are tested.
use crashmonkey.Common.{ℕ, ◌<◌, ◌≡◌, true, none, some, List, [], ◌∷◌, All, length}
use crashmonkey.DiskWrite.Meta.{ReqBits}
use crashmonkey.DiskWrite.{DiskWrite}
use crashmonkey.Permuter.{EpochOp, Epoch}
use crashmonkey.Permuter.Init.{Garbage, init_data_vector}
use crashmonkey.Permuter.Init.Replay.{all_ops, replay, init_data_vector-replay}
use crashmonkey.Permuter.Init.Shape.{IsShaped, init_data_vector-IsShaped, init_data_vector-nonempty}
use crashmonkey.Permuter.Generate.{done, Generated, generate_crash_state}
use crashmonkey.Permuter.Generate.Fresh.{Makes, IsOutcome, generate_crash_state-IsOutcome}
use crashmonkey.Permuter.Random.{Draw, gen_one_state}
use crashmonkey.Permuter.Random.Pick.{InRange}
use crashmonkey.Permuter.Random.State.{
  IsCrashState, HasOps, NoOverlaps, first_ops, gen_one_state-IsCrashState,
}

-- A crash state that respects the barriers: all requests of the first k epochs in the order of the
-- log, and behind them n requests of the next epoch.
abbrev pub InLogOrder : List Epoch → List EpochOp → Type 0
InLogOrder es cs =
    (n k : ℕ) × (c : IsCrashState n k es cs) × (0 < n)
    × (k < length es)
    × (c.earlier ≡ first_ops k es)

shaped : (r : ReqBits) (es : List Epoch) → All (IsShaped r) es → All HasOps es × All NoOverlaps es
shaped r [] h = (tt, tt)
shaped r (e ∷ es) (v, h) =
    let (ops, apart) = shaped r es h in ((v.not_empty, ops), (v.no_overlaps, apart))

module _ {G : Type 0} (draw : Draw G) (within : InRange draw) where
  gen_one_state-Makes :
      (es : List Epoch)
      → 0 < length es
      → All HasOps es
      → All NoOverlaps es
      → Makes (InLogOrder es) (gen_one_state draw es)
  gen_one_state-Makes es some_epoch ops apart g cs =
      let (g', out, n, k, made, pos, lt, c) =
        gen_one_state-IsCrashState draw within es g cs some_epoch ops in
      ((g', true, out), made, (n, k, c, pos, lt, c.in_order apart))

  -- From any log that is not empty InitDataVector makes epochs whose requests are those that
  -- replay lists, and over them every call of GenerateCrashState with RandomPermuter's
  -- gen_one_state returns, whatever states were completed and whatever the generator draws within
  -- its bounds; it hands out the requests of a state with all requests of some first k epochs in
  -- the order of the log and n requests of the next epoch behind them, and returns true only for
  -- indices that were not completed before.
  pub generate-InLogOrder :
      (r : ReqBits) (u : Garbage) (log : List DiskWrite) (completed : List (List ℕ)) (g : G)
      → 0 < length log
      → (es : List Epoch) × (cs : List EpochOp) × (out : Generated G) × (init_data_vector r u log
          ≡ some es)
        × (all_ops es ≡ replay r u none 0 log)
        × (generate_crash_state (gen_one_state draw es) completed g ≡ done out)
        × IsOutcome completed cs out
        × InLogOrder es cs
  generate-InLogOrder r u log completed g some_op =
      let (es, cut, ops) = init_data_vector-replay r u log in
      let (has_ops, apart) = shaped r es (init_data_vector-IsShaped r u log es cut) in
      let some_epoch = init_data_vector-nonempty r u log es some_op cut in
      let (cs, out, made, outcome, order) =
        generate_crash_state-IsOutcome (InLogOrder es) (gen_one_state draw es) completed g
          (gen_one_state-Makes es some_epoch has_ops apart) in
      (es, cs, out, cut, ops, made, outcome, order)
