-- ===== src/Permuter/Init/Replay.antt =====
-- code/permuter/Permuter.cpp: the requests of all epochs of InitDataVector, in order, against a
-- one-pass description of the log.
use mathlib.Core.List.{append_assoc}
use crashmonkey.Common.{
  ℕ, zero, suc, ◌+◌, ◌-◌, ◌≤◌, ◌≡◌, refl, sym, ap, ◌∙◌, inl, inr, true, false, Bool-cases,
  if◌then◌else◌, Option, none, some, List, [], ◌∷◌, ◌++◌, length, arith,
}
use crashmonkey.DiskWrite.Meta.{ReqBits, OpMeta}
use crashmonkey.DiskWrite.{DiskWrite, is_barrier_write, set_flush_flag, set_flush_seq_flag}
use crashmonkey.Permuter.{EpochOp, Epoch}
use crashmonkey.Permuter.Init.{
  Garbage, Locals, add_op, place_half, async_body, async_loop, is_split, flag_half_of, data_half_of,
  barrier_body, barrier_part, new_epoch, one_epoch, epochs_loop, initial, init_data_vector,
}

abbrev pub all_ops : List Epoch → List EpochOp
all_ops [] = []
all_ops (e ∷ es) = e.ops ++ all_ops es

abbrev pub entry : ℕ → DiskWrite → EpochOp
entry index w = record { abs_index = index; op = w }

module _ (r : ReqBits) (g : Garbage) where
  -- The requests that a log stands for, from request `index` on. `pending` holds the data of the
  -- last split flush, which waits for the next request that is no barrier.
  unfoldable pub replay : Option DiskWrite → ℕ → List DiskWrite → List EpochOp
  replay pending index [] = []
  replay pending index (w ∷ ws) =
      if is_barrier_write r w
      then (if is_split r w
          then entry index (flag_half_of r w (g.flag_half index))
            ∷ replay (some (data_half_of r w)) (suc index) ws
          else entry index w ∷ replay pending (suc index) ws)
      else elim pending [
        | none ↦ entry index w ∷ replay none (suc index) ws
        | some half ↦ entry (index - 1) half ∷ entry index w ∷ replay none (suc index) ws
      ]

  abbrev pending_of : Locals → Option DiskWrite
  pending_of l = if l.prev_epoch_flush_op then some l.data_half else none

  abbrev left : Locals → List DiskWrite → List EpochOp
  left l ws = replay (pending_of l) l.index ws

  -- What one round of the inner loop puts into the epoch.
  async_body-left :
      (l : Locals) (e : Epoch) (w : DiskWrite) (ws : List DiskWrite)
      → is_barrier_write r w ≡ false
      → let (l', e') = async_body r l e w in e'.ops ++ left l' ws ≡ e.ops ++ left l (w ∷ ws)
  unfolding replay async_body add_op place_half
  async_body-left l e w ws h = elim (Bool-cases l.prev_epoch_flush_op) [
    | inl pending ↦ rw h (rw pending (rw append_assoc (rw append_assoc refl)))
    | inr nothing ↦ rw h (rw nothing (rw append_assoc refl))
  ]

  async_loop-left :
      (l : Locals) (e : Epoch) (ws : List DiskWrite)
      → let (l', e', rest) = async_loop r l e ws in e'.ops ++ left l' rest ≡ e.ops ++ left l ws
  unfolding async_loop
  async_loop-left l e [] = refl
  async_loop-left l e (w ∷ ws) = elim (Bool-cases (is_barrier_write r w)) [
    | inl stop ↦ rw (stop, async_loop) refl
    | inr go ↦
        rw (go, async_loop)
          (async_loop-left (async_body r l e w).0 (async_body r l e w).1 ws
            ∙ async_body-left l e w ws go)
  ]

  barrier_body-left :
      (l : Locals) (e : Epoch) (w : DiskWrite) (ws : List DiskWrite)
      → is_barrier_write r w ≡ true
      → let (l', e') = barrier_body r g l e w in e'.ops ++ left l' ws ≡ e.ops ++ left l (w ∷ ws)
  unfolding barrier_body replay add_op
  barrier_body-left l e w ws go = elim (Bool-cases (is_split r w)) [
    | inl split ↦ rw go (rw split (rw append_assoc refl))
    | inr whole ↦ rw go (rw whole (rw append_assoc refl))
  ]

  pub barrier_part-true :
      (l : Locals) (e : Epoch) (w : DiskWrite) (ws : List DiskWrite)
      → is_barrier_write r w ≡ true
      → barrier_part r g l e (w ∷ ws) ≡ ((barrier_body r g l e w).0, (barrier_body r g l e w).1, ws)
  unfolding barrier_part
  barrier_part-true l e w ws go = rw go refl

  pub barrier_part-false :
      (l : Locals) (e : Epoch) (w : DiskWrite) (ws : List DiskWrite)
      → is_barrier_write r w ≡ false
      → barrier_part r g l e (w ∷ ws) ≡ (l, e, w ∷ ws)
  unfolding barrier_part
  barrier_part-false l e w ws stop = rw stop refl

  pub barrier_part_nil : (l : Locals) (e : Epoch) → barrier_part r g l e [] ≡ (l, e, [])
  unfolding barrier_part
  barrier_part_nil l e = refl

  barrier_part-left :
      (l : Locals) (e : Epoch) (ws : List DiskWrite)
      → let (l', e', rest) = barrier_part r g l e ws in e'.ops ++ left l' rest ≡ e.ops ++ left l ws
  barrier_part-left l e [] = rw barrier_part_nil refl
  barrier_part-left l e (w ∷ ws) = elim (Bool-cases (is_barrier_write r w)) [
    | inl go ↦ rw (barrier_part-true l e w ws go) (barrier_body-left l e w ws go)
    | inr stop ↦ rw (barrier_part-false l e w ws stop) refl
  ]

  one_epoch-left :
      (l : Locals) (ws : List DiskWrite)
      → let (l', e, rest) = one_epoch r g l ws in e.ops ++ left l' rest ≡ left l ws
  unfolding one_epoch replay new_epoch
  one_epoch-left l ws =
      let (l', e', rest) = async_loop r l (new_epoch r g l.index) ws in
      barrier_part-left l' e' rest ∙ async_loop-left l (new_epoch r g l.index) ws

  -- Each round of the outer loop takes at least one request.
  async_loop-length :
      (l : Locals) (e : Epoch) (ws : List DiskWrite) → length (async_loop r l e ws).2 ≤ length ws
  unfolding async_loop
  async_loop-length l e [] = omega arith
  async_loop-length l e (w ∷ ws) =
      ground (arith, async_loop-length (async_body r l e w).0 (async_body r l e w).1 ws)

  barrier_part-length :
      (l : Locals) (e : Epoch) (ws : List DiskWrite)
      → length (barrier_part r g l e ws).2 ≤ length ws
  unfolding barrier_part
  barrier_part-length l e [] = omega arith
  barrier_part-length l e (w ∷ ws) = ground arith

  pub async_loop-true :
      (l : Locals) (e : Epoch) (w : DiskWrite) (ws : List DiskWrite)
      → is_barrier_write r w ≡ true
      → async_loop r l e (w ∷ ws) ≡ (l, e, w ∷ ws)
  unfolding async_loop
  async_loop-true l e w ws go = rw (go, async_loop) refl

  pub async_loop-false :
      (l : Locals) (e : Epoch) (w : DiskWrite) (ws : List DiskWrite)
      → is_barrier_write r w ≡ false
      → async_loop r l e (w ∷ ws) ≡ async_loop r (async_body r l e w).0 (async_body r l e w).1 ws
  unfolding async_loop
  async_loop-false l e w ws go = rw (go, async_loop) refl

  pub one_epoch-length :
      (l : Locals) (w : DiskWrite) (ws : List DiskWrite)
      → length (one_epoch r g l (w ∷ ws)).2 ≤ length ws
  unfolding one_epoch
  one_epoch-length l w ws = elim (Bool-cases (is_barrier_write r w)) [
    | inl go ↦
        rw (async_loop-true l (new_epoch r g l.index) w ws go)
          (rw (barrier_part-true l (new_epoch r g l.index) w ws go) (omega arith))
    | inr stop ↦ rw (async_loop-false l (new_epoch r g l.index) w ws stop) (
        let (l', e') = async_body r l (new_epoch r g l.index) w in
        let (l2, e2, rest) = async_loop r l' e' ws in
        omega (arith, async_loop-length l' e' ws, barrier_part-length l2 e2 rest))
  ]

  -- What the outer loop returns, and that it returns, on fuel for each request that is left.
  epochs_loop-left :
      (fuel : ℕ) (l : Locals) (ws : List DiskWrite)
      → length ws ≤ fuel
      → (es : List Epoch) × (epochs_loop r g fuel l ws ≡ some es) × (all_ops es ≡ left l ws)
  unfolding epochs_loop replay
  epochs_loop-left zero l [] h = ([], refl, refl)
  epochs_loop-left zero l (w ∷ ws) h = absurd (omega arith)
  epochs_loop-left (suc fuel) l [] h = ([], refl, refl)
  epochs_loop-left (suc fuel) l (w ∷ ws) h =
      let (l', e, rest) = one_epoch r g l (w ∷ ws) in
      let (es, done, ops) =
        epochs_loop-left fuel l' rest (omega (arith, one_epoch-length l w ws)) in
      (e ∷ es, rw done refl, ap (λ t. e.ops ++ t) ops ∙ one_epoch-left l (w ∷ ws))

  -- InitDataVector returns for every log, and its epochs, one after the other, hold the requests
  -- that the one-pass reference replay lists, in order and with their indices: each request under
  -- its index, and a flush with data as its two halves, the data half in front of the next request
  -- that is no barrier.
  pub init_data_vector-replay :
      (log : List DiskWrite)
      → (es : List Epoch) × (init_data_vector r g log ≡ some es) × (all_ops es ≡ replay none 0 log)
  unfolding init_data_vector initial
  init_data_vector-replay log = epochs_loop-left (length log) (initial r g) log (omega arith)

  -- Where no request is split, `replay` numbers the log.
  abbrev pub numbered : ℕ → List DiskWrite → List EpochOp
  numbered index [] = []
  numbered index (w ∷ ws) = entry index w ∷ numbered (suc index) ws

  abbrev pub NoSplit : List DiskWrite → Type 0
  NoSplit [] = Unit {0}
  NoSplit (w ∷ ws) = (is_split r w ≡ false) × NoSplit ws

  replay-numbered :
      (index : ℕ) (ws : List DiskWrite) → NoSplit ws → replay none index ws ≡ numbered index ws
  unfolding replay
  replay-numbered index [] h = refl
  replay-numbered index (w ∷ ws) (whole, h) = elim (Bool-cases (is_barrier_write r w)) [
    | inl barrier ↦
        rw (barrier, whole) (ap (λ t. entry index w ∷ t) (replay-numbered (suc index) ws h))
    | inr async ↦ rw async (ap (λ t. entry index w ∷ t) (replay-numbered (suc index) ws h))
  ]

  -- A log in which no request is a flush with data and without FUA comes back whole: the epochs of
  -- InitDataVector, one after the other, are the log with each request under its own index.
  pub init_data_vector-numbered :
      (log : List DiskWrite)
      → NoSplit log
      → (es : List Epoch) × (init_data_vector r g log ≡ some es) × (all_ops es ≡ numbered 0 log)
  init_data_vector-numbered log h =
      let (es, done, ops) = init_data_vector-replay log in (es, done, ops ∙ replay-numbered 0 log h)

  cons_path : {x : EpochOp} {s t : List EpochOp} → s ≡ t → (x ∷ s) ≡ (x ∷ t)
  cons_path {x} e = ap (λ t. x ∷ t) e

  abbrev flag_entry : ℕ → DiskWrite → List EpochOp
  flag_entry index w = entry index (flag_half_of r w (g.flag_half index)) ∷ []

  replay-append_split :
      (pending : Option DiskWrite) (index : ℕ) (ws : List DiskWrite) (w : DiskWrite)
      → is_barrier_write r w ≡ true
      → is_split r w ≡ true
      → replay pending index (ws ++ (w ∷ []))
        ≡ replay pending index ws ++ flag_entry (index + length ws) w
  unfolding replay
  replay-append_split pending index [] w hb hs =
      rw hb (rw hs (ap (λ k. flag_entry k w) (omega arith)))
  replay-append_split pending index (v ∷ ws) w hb hs =
      let later = λ (p : Option DiskWrite).
        replay-append_split p (suc index) ws w hb hs
        ∙ ap (λ k. replay p (suc index) ws ++ flag_entry k w) {y = index + suc (length ws)}
            (omega arith) in
      elim (Bool-cases (is_barrier_write r v)) [
        | inl barrier ↦ elim (Bool-cases (is_split r v)) [
          | inl split ↦ rw barrier (rw split (cons_path (later (some (data_half_of r v)))))
          | inr whole ↦ rw barrier (rw whole (ap (λ t. entry index v ∷ t) (later pending)))
        ]
        | inr async ↦ rw async (after_async pending (later none))
      ]
    where
      after_async :
          (p : Option DiskWrite)
          → replay none (suc index) (ws ++ (w ∷ []))
            ≡ replay none (suc index) ws ++ flag_entry (index + suc (length ws)) w
          → (elim p as (λ _. List EpochOp) [
            | none ↦ entry index v ∷ replay none (suc index) (ws ++ (w ∷ []))
            | some half ↦
                entry (index - 1) half ∷ entry index v ∷ replay none (suc index) (ws ++ (w ∷ []))
          ])
            ≡ (elim p as (λ _. List EpochOp) [
              | none ↦ entry index v ∷ replay none (suc index) ws
              | some half ↦ entry (index - 1) half ∷ entry index v ∷ replay none (suc index) ws
            ])
              ++ flag_entry (index + suc (length ws)) w
      after_async none e = ap (λ t. entry index v ∷ t) e
      after_async (some half) e = ap (λ t. entry (index - 1) half ∷ entry index v ∷ t) e

  flag_half_of-no_data : (w : DiskWrite) (junk : OpMeta) → (flag_half_of r w junk).data_ptr ≡ none
  unfolding flag_half_of set_flush_flag set_flush_seq_flag
  flag_half_of-no_data w junk = ground arith

  -- A flush with data and without FUA at the end of a log loses its data: whatever the log before
  -- it is, all that the request adds to the requests of the epochs is one request, under its index
  -- in the log, without data.
  pub init_data_vector-split_last :
      (log : List DiskWrite) (w : DiskWrite)
      → is_barrier_write r w ≡ true
      → is_split r w ≡ true
      → (es : List Epoch) × (fs : List Epoch) × (last : EpochOp) × (init_data_vector r g log
          ≡ some es)
        × (init_data_vector r g (log ++ (w ∷ [])) ≡ some fs)
        × (all_ops fs ≡ all_ops es ++ (last ∷ []))
        × (last.abs_index ≡ length log)
        × (last.op.data_ptr ≡ none)
  init_data_vector-split_last log w hb hs =
      let (es, before, ops) = init_data_vector-replay log in
      let (fs, after, more) = init_data_vector-replay (log ++ (w ∷ [])) in
      (
        es,
        fs,
        entry (length log) (flag_half_of r w (g.flag_half (length log))),
        before,
        after,
        more
            ∙ replay-append_split none 0 log w hb hs
            ∙ ap (λ t. t ++ flag_entry (0 + length log) w) (sym ops)
            ∙ ap (λ k. all_ops es ++ flag_entry k w) (omega arith),
        refl,
        flag_half_of-no_data w (g.flag_half (length log)),
      )
