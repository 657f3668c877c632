-- ===== src/Permuter/Random/Pick.antt =====
-- code/permuter/RandomPermuter.cpp: the loop of permute_epoch takes requests out of the epoch, each
-- at most once.
use mathlib.Core.List.{Perm}
use mathlib.Core.List.Perm
use crashmonkey.Common.{
  ℕ, zero, suc, ◌+◌, ◌-◌, ◌≤◌, ◌<◌, ◌≡◌, refl, ap, ◌⊎◌, inl, inr, some, List, [], ◌∷◌, ◌++◌, length,
  length-append, get_elem?, take, arith,
}
use mathlib.Core.List.{append_assoc}
use mathlib.Core.Path.{subst₂}
use crashmonkey.Permuter.{EpochOp}
use crashmonkey.Permuter.Generate.{done}
use crashmonkey.Permuter.Random.{◌>>=◌, iota, erase_at, Draw, at, pick_loop}

-- The slots and the requests that stand in them.
abbrev pub Reads : List EpochOp → List ℕ → List EpochOp → Type 0
Reads ops [] [] = Unit
Reads ops [] (v ∷ vs) = ⊥
Reads ops (s ∷ ss) [] = ⊥
Reads ops (s ∷ ss) (v ∷ vs) = (get_elem? ops s ≡ some v) × Reads ops ss vs

-- The generator stays within the bounds that it is given.
abbrev pub InRange : {G : Type 0} → Draw G → Type 0
InRange {G} draw = (a b : ℕ) (g : G) → a ≤ b → (a ≤ (draw a b g).0) × ((draw a b g).0 ≤ b)

Reads-length :
    (ops : List EpochOp) (ss : List ℕ) (vs : List EpochOp) → Reads ops ss vs → length ss ≡ length vs
Reads-length ops [] [] h = refl
Reads-length ops [] (v ∷ vs) h = absurd h
Reads-length ops (s ∷ ss) [] h = absurd h
Reads-length ops (s ∷ ss) (v ∷ vs) (e, h) = ap suc (Reads-length ops ss vs h)

-- Taking one slot out takes one request out.
record Taken (ops : List EpochOp) (ss : List ℕ) (vs : List EpochOp) (k : ℕ) : Type 0 where
  slot : ℕ
  op : EpochOp
  rest : List EpochOp
  at_slot : get_elem? ss k ≡ some slot
  at_op : get_elem? ops slot ≡ some op
  others : Reads ops (erase_at k ss) rest
  whole : Perm (op ∷ rest) vs
  count : suc (length rest) ≡ length vs

take_slot :
    (ops : List EpochOp) (ss : List ℕ) (vs : List EpochOp) (k : ℕ)
    → Reads ops ss vs
    → k < length ss
    → Taken ops ss vs k
unfolding erase_at
take_slot ops [] vs k h lt = absurd (omega arith)
take_slot ops (s ∷ ss) [] k h lt = absurd h
take_slot ops (s ∷ ss) (v ∷ vs) zero (e, h) lt = record {
  slot = s;
  op = v;
  rest = vs;
  at_slot = refl;
  at_op = e;
  others = h;
  whole = Perm.refl (v ∷ vs);
  count = refl;
}
take_slot ops (s ∷ ss) (v ∷ vs) (suc k) (e, h) lt =
    let t = take_slot ops ss vs k h (omega arith) in
    record {
      slot = t.slot;
      op = t.op;
      rest = v ∷ t.rest;
      at_slot = t.at_slot;
      at_op = t.at_op;
      others = (e, t.others);
      count = ap suc t.count;
      whole = Perm.trans (Perm.swap v t.op t.rest) (Perm.cons v t.whole);
    }

get_elem?-append :
    (pre ops : List EpochOp) (o : EpochOp) → get_elem? (pre ++ (o ∷ ops)) (length pre) ≡ some o
get_elem?-append [] ops o = refl
get_elem?-append (p ∷ pre) ops o = get_elem?-append pre ops o

iota-Reads_from :
    (pre ops : List EpochOp) (n : ℕ)
    → n ≤ length ops
    → Reads (pre ++ ops) (iota (length pre) n) (take n ops)
unfolding iota
iota-Reads_from pre ops zero h = tt
iota-Reads_from pre [] (suc n) h = absurd (omega arith)
iota-Reads_from pre (o ∷ ops) (suc n) h = (
  get_elem?-append pre ops o,
  subst₂ (λ l k. Reads l (iota k n) (take n ops)) (append_assoc pre (o ∷ []) ops)
      (omega (arith, length-append pre (o ∷ [])))
      (iota-Reads_from (pre ++ (o ∷ [])) ops n (omega arith)),
)

-- `iota` lists the slots of the first n requests.
pub iota-Reads : (ops : List EpochOp) (n : ℕ) → n ≤ length ops → Reads ops (iota 0 n) (take n ops)
iota-Reads ops n h = iota-Reads_from [] ops n h

pub at-some {ℓ} :
    {A : Type ℓ} (xs : List A) (i : ℕ) {x : A} → get_elem? xs i ≡ some x → at xs i ≡ done x
at-some xs i e = rw (e, at) refl

module _ {G : Type 0} (draw : Draw G) (within : InRange draw) (ops : List EpochOp) where
  -- What the loop leaves: the requests that it wrote and those that it did not use are together the
  -- ones that it started with, and it stops when the range is full or no request is left.
  pub record IsPicked (range vs : List EpochOp) (out : List EpochOp × List EpochOp × G)
      : Type 0 where
    pub unused : List EpochOp
    pub perm : Perm (out.0 ++ unused) vs
    pub size : length out.0 + length out.1 ≡ length range
    pub count : length out.0 + length unused ≡ length vs
    pub stopped : (out.1 ≡ []) ⊎ (unused ≡ [])

  pick_loop_round :
      (range : List EpochOp) (old : EpochOp) (s : ℕ) (ss : List ℕ) (g : G)
      → pick_loop draw ops (old ∷ range) (s ∷ ss) g ≡ (
          at (s ∷ ss) (draw 0 (length (s ∷ ss) - 1) g).0 >>= λ slot. at ops slot >>= λ op.
          pick_loop draw ops range
            (erase_at (draw 0 (length (s ∷ ss) - 1) g).0 (s ∷ ss))
            (draw 0 (length (s ∷ ss) - 1) g).1
          >>= λ out. done (op ∷ out.0, out.1, out.2))
  unfolding pick_loop
  pick_loop_round range old s ss g = refl

  pick_loop_step :
      (range : List EpochOp) (old : EpochOp) (s : ℕ) (ss : List ℕ) (g g' : G) (shift slot : ℕ)
      (op : EpochOp) (out : List EpochOp × List EpochOp × G)
      → draw 0 (length (s ∷ ss) - 1) g ≡ (shift, g')
      → get_elem? (s ∷ ss) shift ≡ some slot
      → get_elem? ops slot ≡ some op
      → pick_loop draw ops range (erase_at shift (s ∷ ss)) g' ≡ done out
      → pick_loop draw ops (old ∷ range) (s ∷ ss) g ≡ done (op ∷ out.0, out.1, out.2)
  pick_loop_step range old s ss g g' shift slot op out drawn at_slot at_op later =
      rw (pick_loop_round range old s ss g, drawn)
        (rw (at-some (s ∷ ss) shift at_slot) (rw (at-some ops slot at_op) (rw later refl)))

  pub pick_loop-IsPicked :
      (range : List EpochOp) (ss : List ℕ) (vs : List EpochOp) (g : G)
      → Reads ops ss vs
      → (out : List EpochOp × List EpochOp × G) × (pick_loop draw ops range ss g ≡ done out)
        × IsPicked range vs out
  unfolding pick_loop
  pick_loop-IsPicked [] ss vs g h = (
    ([], [], g),
    refl,
    record {
      unused = vs;
      perm = Perm.refl vs;
      size = refl;
      count = omega arith;
      stopped = inl refl;
    },
  )
  pick_loop-IsPicked (old ∷ range) [] [] g h = (
    ([], old ∷ range, g),
    refl,
    record {
      unused = [];
      perm = Perm.refl [];
      size = omega arith;
      count = refl;
      stopped = inr refl;
    },
  )
  pick_loop-IsPicked (old ∷ range) [] (v ∷ vs) g h = absurd h
  pick_loop-IsPicked (old ∷ range) (s ∷ ss) vs g h =
      let (shift, g') = draw 0 (length (s ∷ ss) - 1) g in
      let bounds = within 0 (length (s ∷ ss) - 1) g (omega arith) in
      let t = take_slot ops (s ∷ ss) vs shift h (omega (arith, bounds)) in
      let (out, rest, picked) =
        pick_loop-IsPicked range (erase_at shift (s ∷ ss)) t.rest g' t.others in
      (
        (t.op ∷ out.0, out.1, out.2),
        pick_loop_step range old s ss g g' shift t.slot t.op out refl t.at_slot t.at_op rest,
        record {
          unused = picked.unused;
          perm = Perm.trans (Perm.cons t.op picked.perm) t.whole;
          size = omega (arith, picked.size);
          count = omega (arith, picked.count, t.count);
          stopped = picked.stopped;
        },
      )
