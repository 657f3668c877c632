-- ===== src/DiskWrapper/Clear.antt =====
-- code/disk_wrapper.c: what free_logs frees.
use crashmonkey.Common.{
  ℕ, zero, suc, ◌≤◌, ◌≡◌, refl, sym, ap, ◌∙◌, inl, none, some, List, [], ◌∷◌, length, All, arith,
}
use crashmonkey.DiskWrapper.{Ptr, Node, Heap, put, HwmDevice, free_loop, free_logs}
use crashmonkey.DiskWrapper.Chain.{
  put_self, put_ne, Entry, node_of, Chain, Apart, Separate, Chain-frame, put-Apart,
}
use crashmonkey.DiskWrapper.Log.{IsLog}

free_loop-node :
    (fuel : ℕ) (h : Heap) (p : ℕ) (n : Node)
    → h p ≡ some n
    → free_loop (suc fuel) h (some p) ≡ free_loop fuel (put h p none) n.next
unfolding free_loop
free_loop-node fuel h p n e = rw (e, free_loop) refl

-- What is freed: each entry's node is gone, and no other address changed.
pub record IsFreed (h h' : Heap) (es : List Entry) : Type 0 where
  pub gone : All (λ e. h' e.addr ≡ none) es
  pub others : (a : ℕ) → Apart a es → h' a ≡ h a

free_loop-IsFreed :
    (fuel : ℕ) (h : Heap) (p : Ptr) (es : List Entry)
    → length es ≤ fuel
    → Separate es
    → Chain h p es
    → (h' : Heap) × (free_loop fuel h p ≡ some h') × IsFreed h h' es
unfolding free_loop
free_loop-IsFreed fuel h p [] room sep end =
    (h, ap (free_loop fuel h) end, record { gone = tt; others = λ a apart. refl })
free_loop-IsFreed zero h p (e ∷ es) room sep c = absurd (omega arith)
free_loop-IsFreed (suc fuel) h p (e ∷ es) room (apart, sep) (next, at, holds, c) =
    let h1 = put h e.addr none in
    let c1 = Chain-frame h h1 next es (put-Apart h e.addr none es apart) c in
    let (h', freed, is) = free_loop-IsFreed fuel h1 next es (omega arith) sep c1 in
    (
      h',
      ap (free_loop (suc fuel) h) at ∙ free_loop-node fuel h e.addr (node_of e next) holds ∙ freed,
      record {
        gone = (is.others e.addr apart ∙ put_self h e.addr none, is.gone);
        others = λ a far. is.others a far.1 ∙ put_ne h e.addr none a (λ same. far.0 (sym same));
      },
    )

-- free_logs returns where it has as many rounds as the log has entries: no node is freed twice or
-- read after it is freed, every node of the log is freed, no other memory changes, and the log is
-- empty.
pub free_logs-IsFreed :
    (rounds : ℕ) (dev : HwmDevice) (es : List Entry)
    → length es ≤ rounds
    → IsLog dev es
    → (dev' : HwmDevice) × (free_logs rounds dev ≡ some dev')
      × IsFreed dev.heap dev'.heap es
      × IsLog dev' []
      × (dev'.current_log_write ≡ dev'.writes)
      × (dev'.log_on ≡ dev.log_on)
unfolding free_logs
free_logs-IsFreed rounds dev es room log =
    let (h, freed, is) =
      free_loop-IsFreed rounds dev.heap dev.writes es room log.separate log.chain in
    (
      record dev { writes = none; current_write = none; current_log_write = none; heap = h },
      rw (freed) refl,
      is,
      record { chain = refl; separate = tt; ends = inl (refl, refl) },
      refl,
      refl,
    )
