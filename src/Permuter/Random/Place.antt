-- ===== src/Permuter/Random/Place.antt =====
-- code/permuter/RandomPermuter.cpp: what permute_epoch writes.
use mathlib.Core.List.{Perm, append-nil, append_assoc}
use mathlib.Core.List.Perm
use mathlib.Core.Path.{subst}
use mathlib.Core.Bool.{false≢true}
use crashmonkey.Common.{
  suc, ◌+◌, ◌-◌, ◌≤◌, ◌<◌, ◌≡◌, refl, sym, ap, ◌∙◌, ◌⊎◌, inl, inr, true, false, Bool-cases, le→leb,
  some, List, [], ◌∷◌, ◌++◌, length, length-append, take, arith,
}
use crashmonkey.Permuter.{EpochOp, Epoch}
use crashmonkey.Permuter.Generate.{done}
use crashmonkey.Permuter.Random.{
  iota, back, Draw, pick_loop, place_barrier, slots_of, permute_epoch,
}
use crashmonkey.Permuter.Random.Pick.{InRange, Reads, iota-Reads, pick_loop-IsPicked}

-- The front and the last element of a list that is not empty.
record Split (ops : List EpochOp) : Type 0 where
  last : EpochOp
  is_back : back ops ≡ some last
  whole : take (length ops - 1) ops ++ (last ∷ []) ≡ ops

last_part : (ops : List EpochOp) → 0 < length ops → Split ops
unfolding back
last_part [] h = absurd (omega arith)
last_part (o ∷ []) h = record { last = o; is_back = refl; whole = refl }
last_part (o ∷ p ∷ ops) h =
    let s = last_part (p ∷ ops) (omega arith) in
    record {
      last = s.last;
      is_back = s.is_back;
      whole =
          ap (λ k. take k (o ∷ p ∷ ops) ++ (s.last ∷ [])) {y = suc (length (p ∷ ops) - 1)}
            (omega arith)
          ∙ ap (λ t. o ∷ t) s.whole;
    }

take-length : (ops : List EpochOp) → take (length ops) ops ≡ ops
take-length [] = refl
take-length (o ∷ ops) = ap (λ t. o ∷ t) (take-length ops)

-- What is written into a range: some of the requests of the epoch, each at most once; and the
-- barrier of an epoch that has one is written only behind all its other requests.
pub record IsPlaced (range : List EpochOp) (e : Epoch) (out : List EpochOp) : Type 0 where
  pub size : length out ≡ length range
  pub unused : List EpochOp
  pub perm : Perm (out ++ unused) e.ops
  pub count : length out + length unused ≡ length e.ops
  pub barrier :
      e.has_barrier ≡ true
      → (front : List EpochOp) × (last : EpochOp) × (front ++ (last ∷ []) ≡ e.ops)
        × (((others : List EpochOp) × Perm (out ++ others) front)
            ⊎ ((before : List EpochOp) × (out ≡ before ++ (last ∷ [])) × Perm before front))

module _ {G : Type 0} (draw : Draw G) (within : InRange draw) where
  place_full : (e : Epoch) (out : List EpochOp) → place_barrier draw e out [] ≡ done out
  unfolding place_barrier
  place_full e out = refl

  place_last :
      (e : Epoch) (out range : List EpochOp) (old b : EpochOp)
      → e.has_barrier ≡ true
      → back e.ops ≡ some b
      → place_barrier draw e out (old ∷ range) ≡ done (out ++ (b ∷ range))
  unfolding place_barrier
  place_last e out range old b h q = rw h (rw (q, place_barrier) refl)

  permute_epoch_of :
      (range : List EpochOp) (e : Epoch) (g : G) (picked : List EpochOp × List EpochOp × G)
      (out : List EpochOp)
      → length range ≤ length e.ops
      → pick_loop draw e.ops range (iota 0 (slots_of draw e)) g ≡ done picked
      → place_barrier draw e picked.0 picked.1 ≡ done out
      → permute_epoch draw range e g ≡ done (out, picked.2)
  unfolding permute_epoch
  permute_epoch_of range e g picked out h p q = rw (le→leb _ _ h, permute_epoch) (rw p (rw q refl))

  Placing : List EpochOp → Epoch → List EpochOp → List EpochOp → Type 0
  Placing range e written left =
      (out : List EpochOp) × (place_barrier draw e written left ≡ done out) × IsPlaced range e out

  -- After the loop over the slots in front of the barrier.
  end_barrier :
      (range : List EpochOp) (e : Epoch) (front : List EpochOp) (last : EpochOp)
      (written left unused : List EpochOp)
      → length range ≤ length e.ops
      → e.has_barrier ≡ true
      → back e.ops ≡ some last
      → front ++ (last ∷ []) ≡ e.ops
      → Perm (written ++ unused) front
      → length written + length left ≡ length range
      → length written + length unused ≡ length front
      → (left ≡ []) ⊎ (unused ≡ [])
      → Placing range e written left
  unfolding Placing
  end_barrier range e front last written [] unused fits h b whole perm size count stopped = (
    written,
    place_full e written,
    record {
      size = omega (arith, size);
      unused = unused ++ (last ∷ []);
      count = omega (
        arith,
        count,
        ap length whole,
        length-append front (last ∷ []),
        length-append unused (last ∷ []),
      );
      perm = subst (Perm (written ++ (unused ++ (last ∷ [])))) whole (
          subst (λ t. Perm t (front ++ (last ∷ []))) (append_assoc written unused (last ∷ []))
            (Perm.append_right (last ∷ []) perm));
      barrier = λ _. (front, last, whole, inl (unused, perm));
    },
  )
  end_barrier range e front last written (old ∷ rest) unused fits h b whole perm size count
        (inl no_left) =
      absurd (omega (arith, ap length no_left))
  end_barrier range e front last written (old ∷ []) unused fits h b whole perm size count
        (inr none_left) =
      let all : Perm written front =
        subst (λ t. Perm t front) (append-nil written)
          (subst (λ t. Perm (written ++ t) front) none_left perm) in
      (
        written ++ (last ∷ []),
        place_last e written [] old last h b,
        record {
          size = omega (arith, size, length-append written (last ∷ []));
          unused = [];
          count = omega (
            arith,
            count,
            ap length none_left,
            ap length whole,
            length-append front (last ∷ []),
            length-append written (last ∷ []),
          );
          perm = subst (Perm ((written ++ (last ∷ [])) ++ [])) whole (
              subst (λ t. Perm t (front ++ (last ∷ []))) (sym (append-nil (written ++ (last ∷ []))))
                (Perm.append_right (last ∷ []) all));
          barrier = λ _. (front, last, whole, inr (written, refl, all));
        },
      )
  end_barrier range e front last written (old ∷ x ∷ rest) unused fits h b whole perm size count
        (inr none_left) =
      absurd (
        omega (
          arith,
          size,
          count,
          ap length none_left,
          ap length whole,
          length-append front (last ∷ []),
        ))

  -- After the loop over all slots.
  end_plain :
      (range : List EpochOp) (e : Epoch) (written left unused : List EpochOp)
      → length range ≤ length e.ops
      → e.has_barrier ≡ false
      → Perm (written ++ unused) e.ops
      → length written + length left ≡ length range
      → length written + length unused ≡ length e.ops
      → (left ≡ []) ⊎ (unused ≡ [])
      → Placing range e written left
  unfolding Placing
  end_plain range e written [] unused fits h perm size count stopped = (
    written,
    place_full e written,
    record {
      size = omega (arith, size);
      unused = unused;
      perm = perm;
      count = count;
      barrier = λ b. absurd (false≢true (sym h ∙ b));
    },
  )
  end_plain range e written (old ∷ rest) unused fits h perm size count (inl no_left) =
      absurd (omega (arith, ap length no_left))
  end_plain range e written (old ∷ rest) unused fits h perm size count (inr none_left) =
      absurd (omega (arith, size, count, ap length none_left))

  abbrev Permuted : List EpochOp → Epoch → G → Type 0
  Permuted range e g =
      (out : List EpochOp) × (g' : G) × (permute_epoch draw range e g ≡ done (out, g'))
      × IsPlaced range e out

  -- With a barrier, the slots are those of the requests in front of it.
  permute_barrier :
      (range : List EpochOp) (e : Epoch) (g : G)
      → length range ≤ length e.ops
      → e.has_barrier ≡ true
      → 0 < length e.ops
      → Permuted range e g
  unfolding slots_of Placing
  permute_barrier range e g fits h some_op =
      let n = length e.ops - 1 in
      let front = take n e.ops in
      let s = last_part e.ops some_op in
      let (picked, ran, p) =
        pick_loop-IsPicked draw within e.ops range (iota 0 n) front g
          (iota-Reads e.ops n (omega arith)) in
      let ran' : pick_loop draw e.ops range (iota 0 (slots_of draw e)) g ≡ done picked = rw h ran in
      let (out, placed, v) =
        end_barrier range e front s.last picked.0 picked.1 p.unused fits h s.is_back s.whole p.perm
          p.size p.count p.stopped in
      (out, picked.2, permute_epoch_of range e g picked out fits ran' placed, v)

  permute_plain :
      (range : List EpochOp) (e : Epoch) (g : G)
      → length range ≤ length e.ops
      → e.has_barrier ≡ false
      → Permuted range e g
  unfolding slots_of Placing
  permute_plain range e g fits h =
      let n = length e.ops in
      let (picked, ran, p) =
        pick_loop-IsPicked draw within e.ops range (iota 0 n) e.ops g
          (subst (Reads e.ops (iota 0 n)) (take-length e.ops) (iota-Reads e.ops n (omega arith))) in
      let ran' : pick_loop draw e.ops range (iota 0 (slots_of draw e)) g ≡ done picked = rw h ran in
      let (out, placed, v) =
        end_plain range e picked.0 picked.1 p.unused fits h p.perm p.size p.count p.stopped in
      (out, picked.2, permute_epoch_of range e g picked out fits ran' placed, v)

  -- permute_epoch fails no assertion and fills its range, if the range is not longer than the
  -- epoch and the epoch is not empty; it writes requests of the epoch, each at most once, and the
  -- barrier of an epoch that has one, its last request, is either not written or written last,
  -- behind all other requests of the epoch.
  pub permute_epoch-IsPlaced :
      (range : List EpochOp) (e : Epoch) (g : G)
      → length range ≤ length e.ops
      → 0 < length e.ops
      → (out : List EpochOp) × (g' : G) × (permute_epoch draw range e g ≡ done (out, g'))
        × IsPlaced range e out
  permute_epoch-IsPlaced range e g fits some_op = elim (Bool-cases e.has_barrier) [
    | inl h ↦ permute_barrier range e g fits h some_op
    | inr h ↦ permute_plain range e g fits h
  ]
