-- ===== src/Permuter/Generate.antt =====
-- code/permuter/Permuter.cpp: Permuter::GenerateCrashState over the virtual method gen_one_state.
pub mod Fresh
use crashmonkey.Common.{
  ℕ, zero, suc, ◌+◌, ◌*◌, ◌%◌, ◌^◌, Bool, true, false, not, ◌||◌, ltb, leb, if◌then◌else◌, List, [],
  ◌∷◌, length, map,
}
use crashmonkey.DiskWrite.{DiskWrite}
use crashmonkey.Permuter.{EpochOp, bio_vector_equal}

-- How a call ends: with a value, with an exception or a failed assertion, or (in the model only)
-- with the fuel of a loop used up.
pub data Run {ℓ} (A : Type ℓ) : Type ℓ where
  done : A → Run A
  thrown : Run A
  out_of_fuel : Run A

abbrev pub retry_multiplier : ℕ
retry_multiplier = 2

abbrev pub min_retries : ℕ
min_retries = 1000

-- `completed_permutations_.count(key)`, on the set as the list of its elements.
unfoldable pub contains : List (List ℕ) → List ℕ → Bool
contains [] key = false
contains (k ∷ ks) key = bio_vector_equal k key || contains ks key

-- `completed_permutations_.insert(key)`: a set keeps a key that it has once.
unfoldable pub insert_key : List (List ℕ) → List ℕ → List (List ℕ)
insert_key ks key = if contains ks key then ks else key ∷ ks

-- `max_retries`, a product of `size_t`.
unfoldable pub max_retries : List (List ℕ) → ℕ
max_retries completed =
    let twice = retry_multiplier * length completed % 2 ^ 64 in
    if ltb twice min_retries then min_retries else twice

-- `crash_state_hash`
abbrev pub key_of : List EpochOp → List ℕ
key_of = map (λ o. o.abs_index)

-- What gen_one_state does: its own state G (the random numbers), the vector before, and the state,
-- the returned flag and the vector after.
abbrev pub GenOneState : Type 0 → Type 0
GenOneState G = G → List EpochOp → Run (G × Bool × List EpochOp)

-- The variables that the loop leaves.
pub record Tried (G : Type 0) : Type 0 where
  pub state : G
  pub new_state : Bool
  pub crash_state : List EpochOp
  pub exists : Bool

-- What the call leaves and returns.
pub record Generated (G : Type 0) : Type 0 where
  pub state : G
  pub completed : List (List ℕ)
  pub res : List DiskWrite
  pub result : Bool

module _ {G : Type 0} (gen : GenOneState G) (completed : List (List ℕ)) where
  -- The `do … while` loop: `fuel` bounds the rounds that are left.
  unfoldable pub retry_loop : ℕ → G → List EpochOp → ℕ → Run (Tried G)
  retry_loop zero g cs retries = out_of_fuel
  retry_loop (suc fuel) g cs retries = elim (gen g cs) [
    | thrown ↦ thrown
    | out_of_fuel ↦ out_of_fuel
    | done (g', new_state, cs') ↦
        let exists = contains completed (key_of cs') in
        let tried : Tried G = record {
          state = g';
          new_state = new_state;
          crash_state = cs';
          exists = exists;
        } in
        let again = retry_loop fuel g' cs' (suc retries) in
        if not new_state || leb (max_retries completed) (suc retries)
        then done tried
        else if exists
        then again
        else done tried
  ]

  -- What follows the loop.
  unfoldable pub finish : Tried G → Generated G
  finish t =
      if t.exists
      then record {
        state = t.state;
        completed = completed;
        res = map (λ o. o.op) t.crash_state;
        result = false;
      }
      else record {
        state = t.state;
        completed = insert_key completed (key_of t.crash_state);
        res = map (λ o. o.op) t.crash_state;
        result = t.new_state;
      }

  unfoldable pub generate_crash_state : G → Run (Generated G)
  generate_crash_state g = elim (retry_loop (max_retries completed) g [] 0) [
    | done t ↦ done (finish t)
    | thrown ↦ thrown
    | out_of_fuel ↦ out_of_fuel
  ]
