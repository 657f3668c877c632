-- ===== src/Permuter/Init.antt =====
-- code/permuter/Permuter.cpp: Permuter::InitDataVector, which cuts a log of requests into epochs.
-- The loops run over what is left of the log, `data->at(index)` being its head; `index` is the
-- number of requests before it, and a log has fewer than 2^32 of them. What the source leaves
-- uninitialised is read from `Garbage`.
pub mod Replay
pub mod Shape
use crashmonkey.Common.{
  ℕ, zero, suc, ◌+◌, ◌-◌, ◌%◌, ◌^◌, Bool, true, false, not, ◌&&◌, ◌||◌, ltb, leb, if◌then◌else◌,
  Option, none, some, List, [], ◌∷◌, ◌++◌, length,
}
use crashmonkey.DiskWrite.Meta.{OpMeta, ReqBits}
use crashmonkey.DiskWrite.{
  DiskWrite, is_barrier_write, is_meta, has_write_flag, has_flush_flag, has_flush_seq_flag,
  has_fua_flag, set_flush_flag, set_flush_seq_flag, clear_flush_flag, clear_flush_seq_flag,
}
use crashmonkey.Permuter.{EpochOp, Epoch}

-- struct range
pub record Range : Type 0 where
  pub start : ℕ
  pub end : ℕ

-- The members that are read before they are written: `num_meta` of the epoch that begins at an
-- index, and the metadata of a `disk_write` that was default-constructed.
pub record Garbage : Type 0 where
  pub num_meta : ℕ → ℕ
  pub data_half : OpMeta
  pub flag_half : ℕ → OpMeta

-- The local variables that live across epochs.
pub record Locals : Type 0 where
  pub index : ℕ
  pub prev_epoch_flush_op : Bool
  pub data_half : DiskWrite
  pub overlaps : List Range

-- The loop over `overlaps`: whether a range meets the new one, and the list it leaves. `r` is a
-- copy, so that the ranges of the list do not grow.
unfoldable pub find_overlap : ℕ → ℕ → List Range → Bool × List Range
find_overlap start end [] = (false, [])
find_overlap start end (r ∷ rs) =
    let (hit, rs') = find_overlap start end rs in
    if leb r.start start && leb start r.end || leb r.start end && leb end r.end
    then (true, r ∷ rs)
    else if ltb end r.start
    then (hit, record { start = start; end = end } ∷ r ∷ rs')
    else (hit, r ∷ rs')

unfoldable pub bool_to_int : Bool → ℕ
bool_to_int true = 1
bool_to_int false = 0

module _ (r : ReqBits) where
  -- `ops.push_back({index, w}); num_meta += w.is_meta();`
  unfoldable pub add_op : Epoch → ℕ → DiskWrite → Epoch
  add_op e index w = record e {
    num_meta = (e.num_meta + bool_to_int (is_meta r w)) % 2 ^ 32;
    ops = e.ops ++ (record { abs_index = index; op = w } ∷ []);
  }

  -- The data of a flush that the last epoch was split at opens the epoch of the next request.
  unfoldable pub place_half : Locals → Epoch → Epoch
  place_half l e = if l.prev_epoch_flush_op then add_op e (l.index - 1) l.data_half else e

  -- The body of the inner loop.
  unfoldable pub async_body : Locals → Epoch → DiskWrite → Locals × Epoch
  async_body l e w =
      let start = w.metadata.write_sector % 2 ^ 32 in
      let end = (start + w.metadata.size) % 2 ^ 32 in
      let (hit, overlaps) = find_overlap start end l.overlaps in
      let placed = place_half l e in
      (
        record l { index = suc l.index; prev_epoch_flush_op = false; overlaps = overlaps },
        add_op (record placed { overlaps = hit || placed.overlaps }) l.index w,
      )

  -- The inner loop: it stops at a barrier or at the end of the log.
  unfoldable pub async_loop : Locals → Epoch → List DiskWrite → Locals × Epoch × List DiskWrite
  async_loop l e [] = (l, e, [])
  async_loop l e (w ∷ ws) = elim (is_barrier_write r w) [
    | true ↦ (l, e, w ∷ ws)
    | false ↦ let (l', e') = async_body l e w in async_loop l' e' ws
  ]

  -- A flush with data and without FUA is split.
  unfoldable pub is_split : DiskWrite → Bool
  is_split w =
      (has_flush_flag r w || has_flush_seq_flag r w) && has_write_flag r w && not (has_fua_flag r w)

  -- `flag_half` carries the flush flags of the request, `data_half` the rest of it.
  unfoldable pub flag_half_of : DiskWrite → OpMeta → DiskWrite
  flag_half_of w junk =
      let blank : DiskWrite = record { metadata = junk; data_ptr = none } in
      let flushed = if has_flush_flag r w then set_flush_flag r blank else blank in
      if has_flush_seq_flag r w then set_flush_seq_flag r flushed else flushed

  unfoldable pub data_half_of : DiskWrite → DiskWrite
  data_half_of w =
      let cleared = if has_flush_flag r w then clear_flush_flag r w else w in
      if has_flush_seq_flag r w then clear_flush_seq_flag r cleared else cleared

  module _ (g : Garbage) where
    -- What follows the inner loop, for the request that it stopped at. On the split path the epoch
    -- is pushed before `has_barrier` is set, so the epoch that is kept does not have it.
    unfoldable pub barrier_body : Locals → Epoch → DiskWrite → Locals × Epoch
    barrier_body l e w =
        if is_split w
        then (
          record l { index = suc l.index; prev_epoch_flush_op = true; data_half = data_half_of w },
          add_op e l.index (flag_half_of w (g.flag_half l.index)),
        )
        else (record l { index = suc l.index }, record (add_op e l.index w) { has_barrier = true })

    unfoldable pub barrier_part : Locals → Epoch → List DiskWrite → Locals × Epoch × List DiskWrite
    barrier_part l e [] = (l, e, [])
    barrier_part l e (w ∷ ws) =
        if is_barrier_write r w
        then (let (l', e') = barrier_body l e w in (l', e', ws))
        else (l, e, w ∷ ws)

    unfoldable pub new_epoch : ℕ → Epoch
    new_epoch index = record {
      num_meta = g.num_meta index;
      has_barrier = false;
      overlaps = false;
      ops = [];
    }

    -- One round of the outer loop: the epoch that it pushes, and what is left of the log.
    unfoldable pub one_epoch : Locals → List DiskWrite → Locals × Epoch × List DiskWrite
    one_epoch l ws =
        let (l', e', rest) = async_loop l (new_epoch l.index) ws in barrier_part l' e' rest

    -- The outer loop. `none`: the fuel ran out.
    unfoldable pub epochs_loop : ℕ → Locals → List DiskWrite → Option (List Epoch)
    epochs_loop zero l [] = some []
    epochs_loop zero l (w ∷ ws) = none
    epochs_loop (suc fuel) l [] = some []
    epochs_loop (suc fuel) l (w ∷ ws) =
        let (l', e, rest) = one_epoch l (w ∷ ws) in
        elim (epochs_loop fuel l' rest) [ none ↦ none | some es ↦ some (e ∷ es) ]

    unfoldable pub initial : Locals
    initial = record {
      index = 0;
      prev_epoch_flush_op = false;
      data_half = record { metadata = g.data_half; data_ptr = none };
      overlaps = [];
    }

    -- `InitDataVector`: the new contents of `epochs_`.
    unfoldable pub init_data_vector : List DiskWrite → Option (List Epoch)
    init_data_vector log = epochs_loop (length log) initial log
