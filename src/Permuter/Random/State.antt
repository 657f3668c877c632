-- ===== src/Permuter/Random/State.antt =====
-- code/permuter/RandomPermuter.cpp: the crash states that gen_one_state makes.
use mathlib.Core.List.{Perm, append-nil, append_assoc}
use mathlib.Core.List.Perm
use mathlib.Core.Path.{subst, ap₂}
use mathlib.Core.Bool.{false≢true}
use mathlib.Core.Option.{some-injective}
use crashmonkey.Common.{
  ℕ, zero, suc, ◌+◌, ◌-◌, ◌≤◌, ◌<◌, ◌≡◌, refl, sym, ap, ◌∙◌, inl, inr, Bool, true, false, ◌||◌,
  ◌==◌, Bool-cases, if◌then◌else◌, some, List, [], ◌∷◌, ◌++◌, All, length, length-append,
  length-take, length-drop, length-replicate, get_elem?, take, drop, replicate, arith,
}
use crashmonkey.Permuter.{EpochOp, Epoch}
use crashmonkey.Permuter.Generate.{done}
use crashmonkey.Permuter.Random.{
  ◌>>=◌, Draw, resize, blank, count_ops, permute_epoch, fill, gen_one_state,
}
use crashmonkey.Permuter.Random.Pick.{InRange, at-some}
use crashmonkey.Permuter.Random.Place.{IsPlaced, permute_epoch-IsPlaced}

-- The requests of the first k epochs, in order.
abbrev pub first_ops : ℕ → List Epoch → List EpochOp
first_ops zero es = []
first_ops (suc k) [] = []
first_ops (suc k) (e ∷ es) = e.ops ++ first_ops k es

abbrev pub HasOps : Epoch → Type 0
HasOps e = 0 < length e.ops

abbrev pub NoOverlaps : Epoch → Type 0
NoOverlaps e = e.overlaps ≡ false

-- A crash state over the first k epochs and n requests of the next one: the epochs before are
-- whole, each request once (in the order of the log, where no epoch has overlaps), and behind them
-- stand n requests of the last epoch, as permute_epoch places them.
pub record IsCrashState (n k : ℕ) (es : List Epoch) (out : List EpochOp) : Type 0 where
  pub earlier : List EpochOp
  pub part : List EpochOp
  pub range : List EpochOp
  pub last : Epoch
  pub whole : out ≡ earlier ++ part
  pub all_earlier : Perm earlier (first_ops k es)
  pub in_order : All NoOverlaps es → earlier ≡ first_ops k es
  pub last_at : get_elem? es k ≡ some last
  pub size : length range ≡ n
  pub placed : IsPlaced range last part

take_all : (n : ℕ) (xs : List EpochOp) → length xs ≡ n → (take n xs ≡ xs) × (drop n xs ≡ [])
take_all zero [] e = (refl, refl)
take_all zero (x ∷ xs) e = absurd (omega arith)
take_all (suc n) [] e = absurd (omega arith)
take_all (suc n) (x ∷ xs) e = let (t, d) = take_all n xs (omega arith) in (ap (λ l. x ∷ l) t, d)

empty_of_length : (xs : List EpochOp) → length xs ≡ 0 → xs ≡ []
empty_of_length [] e = refl
empty_of_length (x ∷ xs) e = absurd (omega arith)

module _ {G : Type 0} (draw : Draw G) (within : InRange draw) (n : ℕ) where
  -- One round of the loop, with the rest of it shut.
  permuted_round :
      (k : ℕ) (e : Epoch) (es : List Epoch) (range : List EpochOp) (g : G)
      → (e.overlaps || k == 0) ≡ true
      → let size = if k == 0 then n else length e.ops in
        fill draw n (suc k) (e ∷ es) range g ≡ (
          permute_epoch draw (take size range) e g >>= λ o.
          fill draw n k es (drop size range) o.1 >>= λ p. done (o.0 ++ p.0, p.1))
  unfolding fill
  permuted_round k e es range g h = rw (h, fill) refl

  permuted_whole :
      (k : ℕ) (e : Epoch) (es : List Epoch) (range : List EpochOp) (g : G)
      → e.overlaps ≡ true
      → fill draw n (suc (suc k)) (e ∷ es) range g ≡ (
          permute_epoch draw (take (length e.ops) range) e g >>= λ o.
          fill draw n (suc k) es (drop (length e.ops) range) o.1 >>= λ p. done (o.0 ++ p.0, p.1))
  permuted_whole k e es range g h =
      let more : (suc k == 0) ≡ false = ground arith in
      rw more at (permuted_round (suc k) e es range g (rw h refl))

  copied_round :
      (k : ℕ) (e : Epoch) (es : List Epoch) (range : List EpochOp) (g : G)
      → (e.overlaps || k == 0) ≡ false
      → fill draw n (suc k) (e ∷ es) range g
        ≡ (fill draw n k es (drop (length e.ops) range) g >>= λ p. done (e.ops ++ p.0, p.1))
  unfolding fill
  copied_round k e es range g h = rw (h, fill) refl

  fill_none :
      (es : List Epoch) (range : List EpochOp) (g : G)
      → fill draw n zero es range g ≡ done (range, g)
  unfolding fill
  fill_none es range g = refl

  or_true : (b : Bool) → (b || true) ≡ true
  or_true true = refl
  or_true false = refl

  abbrev Filled : ℕ → List Epoch → List EpochOp → G → Type 0
  Filled k es range g =
      (out : List EpochOp) × (g' : G) × (fill draw n (suc k) es range g ≡ done (out, g'))
      × (IsCrashState n k es out)

  -- The last epoch: n of its requests.
  fill_last :
      (e : Epoch) (es : List Epoch) (range : List EpochOp) (g : G)
      → HasOps e
      → n ≤ length e.ops
      → length range ≡ n
      → Filled zero (e ∷ es) range g
  fill_last e es range g some_op fits full =
      let (all, none_left) = take_all n range full in
      let (out, g', ran, placed) =
        permute_epoch-IsPlaced draw within (take n range) e g (omega (arith, ap length all))
          some_op in
      (
        out ++ [],
        g',
        permuted_round zero e es range g (or_true e.overlaps)
            ∙ rw ran (rw none_left (rw fill_none refl)),
        record {
          earlier = [];
          part = out;
          range = take n range;
          last = e;
          whole = append-nil out;
          all_earlier = Perm.refl [];
          in_order = λ _. refl;
          last_at = refl;
          size = ap length all ∙ full;
          placed = placed;
        },
      )

  -- What stands in front of a crash state of the epochs behind.
  extend :
      (k : ℕ) (e : Epoch) (es : List Epoch) (front out : List EpochOp)
      → Perm front e.ops
      → (NoOverlaps e → front ≡ e.ops)
      → IsCrashState n k es out
      → IsCrashState n (suc k) (e ∷ es) (front ++ out)
  extend k e es front out perm same c = record {
    earlier = front ++ c.earlier;
    part = c.part;
    range = c.range;
    last = c.last;
    whole = ap (λ t. front ++ t) c.whole ∙ sym (append_assoc front c.earlier c.part);
    all_earlier = Perm.append perm c.all_earlier;
    in_order = λ h. ap₂ ◌++◌ (same h.0) (c.in_order h.1);
    last_at = c.last_at;
    size = c.size;
    placed = c.placed;
  }

  fill-IsCrashState :
      (k : ℕ) (es : List Epoch) (range : List EpochOp) (last : Epoch) (g : G)
      → All HasOps es
      → get_elem? es k ≡ some last
      → n ≤ length last.ops
      → length range ≡ count_ops k es + n
      → Filled k es range g
  unfolding count_ops
  fill-IsCrashState zero [] range last g ops e fits full = cc
  fill-IsCrashState zero (x ∷ es) range last g ops e fits full =
      let same : x ≡ last = some-injective _ _ e in
      fill_last x es range g ops.0 (subst (λ y. n ≤ length y.ops) (sym same) fits)
        (omega (arith, full))
  fill-IsCrashState (suc k) [] range last g ops e fits full = cc
  fill-IsCrashState (suc k) (x ∷ es) range last g ops e fits full =
      let size = length x.ops in
      let behind = drop size range in
      let room : length behind ≡ count_ops k es + n = omega (arith, length-drop size range, full) in
      elim (Bool-cases x.overlaps) [
        | inl over ↦
            (let (front, g', ran, v) =
                permute_epoch-IsPlaced draw within (take size range) x g
                  (omega (arith, length-take size range)) ops.0 in
              let none_left : v.unused ≡ [] =
                empty_of_length v.unused
                  (omega (arith, v.count, v.size, length-take size range, full)) in
              let perm : Perm front x.ops =
                subst (λ t. Perm t x.ops) (append-nil front)
                  (subst (λ t. Perm (front ++ t) x.ops) none_left v.perm) in
              let (out, g'', later, c) = fill-IsCrashState k es behind last g' ops.1 e fits room in
              (
                front ++ out,
                g'',
                permuted_whole k x es range g over ∙ rw ran (rw later refl),
                extend k x es front out perm (λ h. absurd (false≢true (sym h ∙ over))) c,
              ))
        | inr apart ↦
            (let (out, g', later, c) = fill-IsCrashState k es behind last g ops.1 e fits room in
              (
                x.ops ++ out,
                g',
                copied_round (suc k) x es range g (rw apart (ground arith)) ∙ rw later refl,
                extend k x es x.ops out (Perm.refl x.ops) (λ _. refl) c,
              ))
      ]

length-resize : (m : ℕ) (res : List EpochOp) → length (resize m res) ≡ m
unfolding resize
length-resize m res = omega (
  arith,
  length-append (take m res) (replicate (m - length res) blank),
  length-take m res,
  length-replicate (m - length res) blank,
)

epoch_at :
    (es : List Epoch) (i : ℕ)
    → i < length es
    → All HasOps es
    → (e : Epoch) × (get_elem? es i ≡ some e) × HasOps e
epoch_at [] i h ops = absurd (omega arith)
epoch_at (e ∷ es) zero h ops = (e, refl, ops.0)
epoch_at (e ∷ es) (suc i) h ops = epoch_at es i (omega arith) ops.1

module _ {G : Type 0} (draw : Draw G) (within : InRange draw) where
  gen_one_state_of :
      (es : List Epoch) (g g1 g2 g3 : G) (res out : List EpochOp) (k n : ℕ) (last : Epoch)
      → draw 1 (length es) g ≡ (suc k, g1)
      → get_elem? es k ≡ some last
      → draw 1 (length last.ops) g1 ≡ (n, g2)
      → fill draw n (suc k) es (resize (count_ops k es + n) res) g2 ≡ done (out, g3)
      → gen_one_state draw es g res ≡ done (g3, true, out)
  unfolding gen_one_state
  gen_one_state_of es g g1 g2 g3 res out k n last p e q filled =
      let pred : suc k - 1 ≡ k = omega arith in
      rw p (rw pred (rw (at-some es k e) (rw q (rw filled refl))))

  -- gen_one_state fails nowhere on epochs of which there is one and none is empty, if the
  -- generator draws within its bounds: it returns true and a vector that holds all requests of the
  -- epochs before a chosen one, each once, and behind them at least one request of the chosen
  -- epoch as permute_epoch places them.
  pub gen_one_state-IsCrashState :
      (es : List Epoch) (g : G) (res : List EpochOp)
      → 0 < length es
      → All HasOps es
      → (g' : G) × (out : List EpochOp) × (n k : ℕ) × (gen_one_state draw es g res
          ≡ done (g', true, out))
        × (0 < n)
        × (k < length es)
        × IsCrashState n k es out
  gen_one_state-IsCrashState es g res some_epoch ops =
      let (num, g1) = draw 1 (length es) g in
      let epochs_in = within 1 (length es) g some_epoch in
      let k = num - 1 in
      let (last, at_k, last_ops) = epoch_at es k (omega (arith, epochs_in)) ops in
      let (n, g2) = draw 1 (length last.ops) g1 in
      let requests_in = within 1 (length last.ops) g1 last_ops in
      let (out, g3, filled, c) =
        fill-IsCrashState draw within n k es (resize (count_ops k es + n) res) last g2 ops at_k
          (omega (arith, requests_in)) (length-resize (count_ops k es + n) res) in
      let drawn : draw 1 (length es) g ≡ (suc k, g1) =
        ap (λ (t : ℕ). (t, g1)) {y = suc k} (omega (arith, epochs_in)) in
      (
        g3,
        out,
        n,
        k,
        gen_one_state_of es g g1 g2 g3 res out k n last drawn at_k refl filled,
        requests_in.0,
        omega (arith, epochs_in),
        c,
      )
