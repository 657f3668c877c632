-- ===== src/Permuter/Random.antt =====
-- code/permuter/RandomPermuter.h and code/permuter/RandomPermuter.cpp. The vector that is filled is
-- the list of its elements; a pair of iterators is the part of the list between them. `thrown`
-- stands for a failed assertion, an exception of `at`, or an access out of range.
pub mod Pick
pub mod Place
pub mod State
use crashmonkey.Common.{
  ℕ, zero, suc, ◌+◌, ◌-◌, ◌≤◌, Bool, true, false, not, ◌&&◌, ◌||◌, ◌==◌, leb, if◌then◌else◌, Option,
  none, some, List, [], ◌∷◌, ◌++◌, length, get_elem?, take, drop, replicate,
}
use crashmonkey.DiskWrite.Meta.{OpMeta}
use crashmonkey.Permuter.{EpochOp, Epoch}
use crashmonkey.Permuter.Generate.{Run, done, thrown, out_of_fuel}

infixl 5 ◌>>=◌
abbrev pub ◌>>=◌ {ℓ κ} : {A : Type ℓ} {B : Type κ} → Run A → (A → Run B) → Run B
done a >>= f = f a
thrown >>= f = thrown
out_of_fuel >>= f = out_of_fuel

-- `std::iota` over n elements.
unfoldable pub iota : ℕ → ℕ → List ℕ
iota start zero = []
iota start (suc n) = start ∷ iota (suc start) n

-- `list::erase` at a position.
unfoldable pub erase_at {ℓ} : {A : Type ℓ} → ℕ → List A → List A
erase_at k [] = []
erase_at zero (x ∷ xs) = xs
erase_at (suc k) (x ∷ xs) = x ∷ erase_at k xs

unfoldable pub back {ℓ} : {A : Type ℓ} → List A → Option A
back [] = none
back (x ∷ []) = some x
back (x ∷ y ∷ ys) = back (y ∷ ys)

abbrev pub at {ℓ} : {A : Type ℓ} → List A → ℕ → Run A
at xs i = elim (get_elem? xs i) [ none ↦ thrown | some x ↦ done x ]

-- A value-initialised element.
abbrev pub blank : EpochOp
blank = record {
  abs_index = 0;
  op = record {
    metadata = record { bi_flags = 0; bi_rw = 0; write_sector = 0; size = 0 };
    data_ptr = none;
  };
}

-- `vector::resize`
unfoldable pub resize : ℕ → List EpochOp → List EpochOp
resize n res = take n res ++ replicate (n - length res) blank

-- The elements of all epochs before the last that is chosen: the first loop of gen_one_state.
unfoldable pub count_ops : ℕ → List Epoch → ℕ
count_ops zero es = 0
count_ops (suc n) [] = 0
count_ops (suc n) (e ∷ es) = length e.ops + count_ops n es

-- `uniform_int_distribution(a, b)(rand)`, with the state of the generator.
abbrev pub Draw : Type 0 → Type 0
Draw G = ℕ → ℕ → G → ℕ × G

module _ {G : Type 0} (draw : Draw G) where
  -- The `while` loop of permute_epoch: what it wrote, and what is left of the range.
  unfoldable pub pick_loop :
      List EpochOp → List EpochOp → List ℕ → G → Run (List EpochOp × List EpochOp × G)
  pick_loop ops [] slots g = done ([], [], g)
  pick_loop ops (old ∷ range) [] g = done ([], old ∷ range, g)
  pick_loop ops (old ∷ range) (s ∷ ss) g = do
    let (shift, g') = draw 0 (length (s ∷ ss) - 1) g
    slot ← at (s ∷ ss) shift
    op ← at ops slot
    (written, left, g'') ← pick_loop ops range (erase_at shift (s ∷ ss)) g'
    done (op ∷ written, left, g'')

  -- What follows the loop: the barrier, if the range is not full.
  unfoldable pub place_barrier : Epoch → List EpochOp → List EpochOp → Run (List EpochOp)
  place_barrier e written [] = done written
  place_barrier e written (old ∷ range) =
      if e.has_barrier
      then elim (back e.ops) [ none ↦ thrown | some b ↦ done (written ++ (b ∷ range)) ]
      else thrown

  -- `--slots` happens only for an epoch with a barrier; without operations it would wrap, but then
  -- the range is empty and the slots are not used.
  unfoldable pub slots_of : Epoch → ℕ
  slots_of e = if e.has_barrier then length e.ops - 1 else length e.ops

  unfoldable pub permute_epoch : List EpochOp → Epoch → G → Run (List EpochOp × G)
  permute_epoch range e g = elim (leb (length range) (length e.ops)) [
    | false ↦ thrown
    | true ↦ do
      (written, left, g') ← pick_loop e.ops range (iota 0 (slots_of e)) g
      out ← place_barrier e written left
      done (out, g')
  ]

  -- The second loop of gen_one_state, with `suc k` epochs left: each epoch but the last is placed
  -- whole, in order unless it has overlaps.
  unfoldable pub fill : ℕ → ℕ → List Epoch → List EpochOp → G → Run (List EpochOp × G)
  fill num_requests zero es range g = done (range, g)
  fill num_requests (suc k) [] range g = thrown
  fill num_requests (suc k) (e ∷ es) range g = elim (e.overlaps || k == 0) [
    | true ↦ do
      let size = if k == 0 then num_requests else length e.ops
      (out, g') ← permute_epoch (take size range) e g
      (rest, g'') ← fill num_requests k es (drop size range) g'
      done (out ++ rest, g'')
    | false ↦ do
      (rest, g') ← fill num_requests k es (drop (length e.ops) range) g
      done (e.ops ++ rest, g')
  ]

  unfoldable pub gen_one_state : List Epoch → G → List EpochOp → Run (G × Bool × List EpochOp)
  gen_one_state epochs g res = do
    let (num_epochs, g1) = draw 1 (length epochs) g
    last ← at epochs (num_epochs - 1)
    let (num_requests, g2) = draw 1 (length last.ops) g1
    let total = count_ops (num_epochs - 1) epochs + num_requests
    (out, g3) ← fill num_requests num_epochs epochs (resize total res) g2
    done (g3, true, out)
