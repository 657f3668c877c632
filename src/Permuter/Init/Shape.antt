-- ===== src/Permuter/Init/Shape.antt =====
-- code/permuter/Permuter.cpp: what every epoch of InitDataVector looks like.
use crashmonkey.Common.{
  ℕ, zero, suc, ◌+◌, ◌≤◌, ◌<◌, ◌≡◌, refl, sym, ◌∙◌, inl, inr, true, false, Bool-cases, some, List,
  [], ◌∷◌, ◌++◌, All, Option-cases, length, length-append, arith,
}
use mathlib.Core.Bool.{false≢true}
use mathlib.Core.Option.{some-injective}
use mathlib.Core.Path.{subst}
use crashmonkey.DiskWrite.Meta.{ReqBits}
use crashmonkey.DiskWrite.{DiskWrite, is_barrier_write}
use crashmonkey.Permuter.{EpochOp, Epoch}
use crashmonkey.Permuter.Init.{
  Garbage, Locals, find_overlap, add_op, place_half, async_body, async_loop, is_split, barrier_body,
  barrier_part, new_epoch, one_epoch, epochs_loop, initial, init_data_vector,
}
use crashmonkey.Permuter.Init.Replay.{
  one_epoch-length, barrier_part-true, barrier_part-false, barrier_part_nil,
}

module _ (r : ReqBits) where
  -- The last request of a list, if there is one, is a barrier.
  abbrev pub EndsWithBarrier : List EpochOp → Type 0
  EndsWithBarrier ops =
      (front : List EpochOp) × (last : EpochOp) × (ops ≡ front ++ (last ∷ []))
      × (is_barrier_write r last.op ≡ true)

  pub record IsShaped (e : Epoch) : Type 0 where
    pub no_overlaps : e.overlaps ≡ false
    pub not_empty : 0 < length e.ops
    pub barrier_last : e.has_barrier ≡ true → EndsWithBarrier e.ops

  -- While an epoch is being filled: no range is remembered, and the epoch has no barrier.
  record IsOpen (l : Locals) (e : Epoch) : Type 0 where
    no_ranges : l.overlaps ≡ []
    no_overlap : e.overlaps ≡ false
    no_barrier : e.has_barrier ≡ false

  async_body-IsOpen :
      {l : Locals} {e : Epoch} (w : DiskWrite)
      → IsOpen l e
      → IsOpen (async_body r l e w).0 (async_body r l e w).1
  unfolding async_body add_op place_half find_overlap
  async_body-IsOpen {l} {e} w v = record {
    no_ranges = rw v.no_ranges refl;
    no_overlap = rw v.no_ranges (elim (Bool-cases l.prev_epoch_flush_op) [
      | inl pending ↦ rw pending v.no_overlap
      | inr nothing ↦ rw nothing v.no_overlap
    ]);
    no_barrier = elim (Bool-cases l.prev_epoch_flush_op) [
      | inl pending ↦ rw pending v.no_barrier
      | inr nothing ↦ rw nothing v.no_barrier
    ];
  }

  async_body-grows :
      (l : Locals) (e : Epoch) (w : DiskWrite) → length e.ops < length (async_body r l e w).1.ops
  unfolding async_body add_op place_half
  async_body-grows l e w = elim (Bool-cases l.prev_epoch_flush_op) [
    | inl pending ↦ rw pending (omega (arith, length-append {0}))
    | inr nothing ↦ rw nothing (omega (arith, length-append {0}))
  ]

  async_loop-IsOpen :
      {l : Locals} {e : Epoch} (ws : List DiskWrite)
      → IsOpen l e
      → IsOpen (async_loop r l e ws).0 (async_loop r l e ws).1
  unfolding async_loop
  async_loop-IsOpen [] v = v
  async_loop-IsOpen {l} {e} (w ∷ ws) v = elim (Bool-cases (is_barrier_write r w)) [
    | inl stop ↦ rw (stop, async_loop) v
    | inr go ↦
        rw (go, async_loop)
          (async_loop-IsOpen {l = (async_body r l e w).0} {e = (async_body r l e w).1} ws
            (async_body-IsOpen w v))
  ]

  -- What the inner loop takes from the log goes into the epoch.
  async_loop-grows :
      (l : Locals) (e : Epoch) (ws : List DiskWrite)
      → let (l', e', rest) = async_loop r l e ws in
        length e.ops + length ws ≤ length e'.ops + length rest
  unfolding async_loop
  async_loop-grows l e [] = omega arith
  async_loop-grows l e (w ∷ ws) = elim (Bool-cases (is_barrier_write r w)) [
    | inl stop ↦ rw (stop, async_loop) (omega arith)
    | inr go ↦
        rw (go, async_loop)
          (let (l', e') = async_body r l e w in
            omega (arith, async_body-grows l e w, async_loop-grows l' e' ws))
  ]

  module _ (g : Garbage) where
    barrier_part-grows :
        (l : Locals) (e : Epoch) (ws : List DiskWrite)
        → let (l', e', rest) = barrier_part r g l e ws in
          length e.ops + length ws ≤ length e'.ops + length rest
    unfolding barrier_body add_op
    barrier_part-grows l e [] = rw barrier_part_nil (omega arith)
    barrier_part-grows l e (w ∷ ws) = elim (Bool-cases (is_barrier_write r w)) [
      | inr stop ↦ rw (barrier_part-false r g l e w ws stop) (omega arith)
      | inl go ↦ rw (barrier_part-true r g l e w ws go) (elim (Bool-cases (is_split r w)) [
        | inl split ↦ rw split (omega (arith, length-append {0}))
        | inr whole ↦ rw whole (omega (arith, length-append {0}))
      ])
    ]

    barrier_body-no_ranges :
        (l : Locals) (e : Epoch) (w : DiskWrite) → (barrier_body r g l e w).0.overlaps ≡ l.overlaps
    unfolding barrier_body
    barrier_body-no_ranges l e w = ground arith

    -- What holds of an epoch when it is pushed, but that it is not empty.
    record IsClosed (l : Locals) (e : Epoch) : Type 0 where
      no_ranges : l.overlaps ≡ []
      no_overlap : e.overlaps ≡ false
      barrier_last : e.has_barrier ≡ true → EndsWithBarrier e.ops

    IsOpen-IsClosed : {l : Locals} {e : Epoch} → IsOpen l e → IsClosed l e
    IsOpen-IsClosed v = record {
      no_ranges = v.no_ranges;
      no_overlap = v.no_overlap;
      barrier_last = λ h. absurd (false≢true (sym v.no_barrier ∙ h));
    }

    barrier_body-IsClosed :
        {l : Locals} {e : Epoch} (w : DiskWrite)
        → is_barrier_write r w ≡ true
        → IsOpen l e
        → IsClosed (barrier_body r g l e w).0 (barrier_body r g l e w).1
    unfolding barrier_body add_op
    barrier_body-IsClosed {l} {e} w go v = elim (Bool-cases (is_split r w)) [
      | inl split ↦ record {
        no_ranges = barrier_body-no_ranges l e w ∙ v.no_ranges;
        no_overlap = rw split v.no_overlap;
        barrier_last = rw split (λ h. absurd (false≢true (sym v.no_barrier ∙ h)));
      }
      | inr whole ↦ record {
        no_ranges = barrier_body-no_ranges l e w ∙ v.no_ranges;
        no_overlap = rw whole v.no_overlap;
        barrier_last = rw whole (λ h. (e.ops, record { abs_index = l.index; op = w }, refl, go));
      }
    ]

    barrier_part-IsClosed :
        {l : Locals} {e : Epoch} (ws : List DiskWrite)
        → IsOpen l e
        → IsClosed (barrier_part r g l e ws).0 (barrier_part r g l e ws).1
    barrier_part-IsClosed [] v = rw barrier_part_nil (IsOpen-IsClosed v)
    barrier_part-IsClosed {l} {e} (w ∷ ws) v = elim (Bool-cases (is_barrier_write r w)) [
      | inl go ↦ rw (barrier_part-true r g l e w ws go) (barrier_body-IsClosed w go v)
      | inr stop ↦ rw (barrier_part-false r g l e w ws stop) (IsOpen-IsClosed v)
    ]

    one_epoch-IsShaped :
        (l : Locals) (w : DiskWrite) (ws : List DiskWrite)
        → l.overlaps ≡ []
        → ((one_epoch r g l (w ∷ ws)).0.overlaps ≡ []) × IsShaped (one_epoch r g l (w ∷ ws)).1
    unfolding one_epoch new_epoch
    one_epoch-IsShaped l w ws h =
        let fresh = new_epoch r g l.index in
        let (l', e', rest) = async_loop r l fresh (w ∷ ws) in
        let ready : IsOpen l' e' =
          async_loop-IsOpen {l = l} {e = fresh} (w ∷ ws)
            (record { no_ranges = h; no_overlap = refl; no_barrier = refl }) in
        let closed = barrier_part-IsClosed rest ready in
        (
          closed.no_ranges,
          record {
            no_overlaps = closed.no_overlap;
            not_empty = omega (
              arith,
              one_epoch-length r g l w ws,
              async_loop-grows l fresh (w ∷ ws),
              barrier_part-grows l' e' rest,
            );
            barrier_last = closed.barrier_last;
          },
        )

    epochs_loop-IsShaped :
        (fuel : ℕ) (l : Locals) (ws : List DiskWrite) (es : List Epoch)
        → l.overlaps ≡ []
        → epochs_loop r g fuel l ws ≡ some es
        → All IsShaped es
    unfolding epochs_loop
    epochs_loop-IsShaped zero l [] es h e = subst (All IsShaped) (some-injective _ _ e) tt
    epochs_loop-IsShaped zero l (w ∷ ws) es h e = cc
    epochs_loop-IsShaped (suc fuel) l [] es h e = subst (All IsShaped) (some-injective _ _ e) tt
    epochs_loop-IsShaped (suc fuel) l (w ∷ ws) es h e =
        let (l', e1, rest) = one_epoch r g l (w ∷ ws) in
        let (clean, shaped) = one_epoch-IsShaped l w ws h in
        elim (Option-cases (epochs_loop r g fuel l' rest)) [
          | inl out ↦ cc (rw (out, epochs_loop) at e)
          | inr (later, eq) ↦
              subst (All IsShaped) (some-injective _ _ (rw eq at e))
                (shaped, epochs_loop-IsShaped fuel l' rest later clean eq)
        ]

    -- Every epoch that InitDataVector makes is not empty, has overlaps false, and ends with a
    -- barrier write if has_barrier is true.
    pub init_data_vector-IsShaped :
        (log : List DiskWrite) (es : List Epoch)
        → init_data_vector r g log ≡ some es
        → All IsShaped es
    unfolding init_data_vector initial
    init_data_vector-IsShaped log es e =
        epochs_loop-IsShaped (length log) (initial r g) log es refl e

    -- A log that is not empty has an epoch.
    pub init_data_vector-nonempty :
        (log : List DiskWrite) (es : List Epoch)
        → 0 < length log
        → init_data_vector r g log ≡ some es
        → 0 < length es
    unfolding init_data_vector epochs_loop
    init_data_vector-nonempty [] es h e = absurd (omega arith)
    init_data_vector-nonempty (w ∷ ws) es h e =
        let (l', e1, rest) = one_epoch r g (initial r g) (w ∷ ws) in
        elim (Option-cases (epochs_loop r g (length ws) l' rest)) [
          | inl out ↦ cc (rw (out, epochs_loop) at e)
          | inr (later, eq) ↦
              subst (λ t. 0 < length t) (some-injective _ _ (rw eq at e)) (omega arith)
        ]
