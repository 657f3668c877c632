-- ===== src/CowBrd/Restore.antt =====
-- code/cow_brd.c, brd_free_pages in batches and what COW_BRD_RESTORE_SNAPSHOT and COW_BRD_WIPE leave.
use mathlib.Core.Option.{none-ne-some}
use crashmonkey.Common.{
  ℕ, zero, suc, ◌+◌, ◌-◌, ◌≤◌, ◌<◌, ◌≡◌, ◌≢◌, refl, sym, ap, ◌∙◌, inl, inr, true, false, Option,
  none, some, List, [], ◌∷◌, length, All, ltb, ◌==◌, ==_iff, arith, Option-cases, Bool-cases,
}
use crashmonkey.CowBrd.{RadixTree, IsRadixTree, IsAscendingFrom, BrdDevice, success, enotty}
use crashmonkey.CowBrd.Pages.{free_batch, free_found, free_loop, brd_free_pages}
use crashmonkey.CowBrd.Requests.{set_pages}
use crashmonkey.CowBrd.Ioctl.{brd_ioctl, free_all, cow_brd_restore_snapshot}
use crashmonkey.CowBrd.View.{byte_at, parent_byte, absent-byte}

All-map {κ μ} :
    {P : ℕ → Type κ} {Q : ℕ → Type μ} (is : List ℕ) → ((i : ℕ) → P i → Q i) → All P is → All Q is
All-map [] f h = tt
All-map (i ∷ is) f h = (f i h.0, All-map is f h.1)

ascending-above : (p : ℕ) (is : List ℕ) {b : ℕ} → b ≤ p → IsAscendingFrom p is → All (λ i. b ≤ i) is
ascending-above p [] h asc = tt
ascending-above p (i ∷ is) h asc =
    (omega (arith, asc.0), ascending-above (1 + i) is (omega (arith, asc.0)) asc.1)

module _ (radix : RadixTree) (laws : IsRadixTree radix) where
  abbrev IsPresent : radix.Tree → ℕ → Type 0
  IsPresent t i = radix.lookup t i ≢ none

  -- What is left of a tree after the pages of a list are freed, and where `pos` stands.
  record Freed (t : radix.Tree) (pos : ℕ) (is : List ℕ) (t' : radix.Tree) (pos' : ℕ) : Type 0 where
    left : (j : ℕ) → IsPresent t' j → IsPresent t j × All (λ i. i ≢ j) is
    forward : pos ≤ pos'
    last : (b : ℕ) → pos < b → All (λ i. i < b) is → pos' < b

  found-step :
      (t : radix.Tree) (pos i : ℕ) (is : List ℕ)
      → pos ≤ i
      → IsPresent t i
      → free_found radix t pos (i ∷ is) ≡ free_found radix (radix.delete t i) i is
  unfolding free_found
  found-step t pos i is h present = elim (Option-cases (radix.lookup t i)) [
    | inl e ↦ absurd (present e)
    | inr (p, e) ↦ let fine : ltb i pos ≡ false = ground arith in rw (fine, e, free_found) refl
  ]

  delete-present :
      (t : radix.Tree) (i j : ℕ) → i ≢ j → IsPresent t j → IsPresent (radix.delete t i) j
  delete-present t i j ne h e = h (sym (laws.lookup-delete_ne t ne) ∙ e)

  deleted-present :
      (t : radix.Tree) (i j : ℕ) → IsPresent (radix.delete t i) j → IsPresent t j × (i ≢ j)
  deleted-present t i j h =
      let ne : i ≢ j =
        λ e. h (ap (radix.lookup (radix.delete t i)) (sym e) ∙ laws.lookup-delete_self t i) in
      (λ e. h (laws.lookup-delete_ne t ne ∙ e), ne)

  free_found-Freed :
      (t : radix.Tree) (pos p : ℕ) (is : List ℕ)
      → pos ≤ p
      → IsAscendingFrom p is
      → All (IsPresent t) is
      → (t' : radix.Tree) × (pos' : ℕ) × (free_found radix t pos is ≡ some (t', pos'))
        × Freed t pos is t' pos'
  unfolding free_found
  free_found-Freed t pos p [] h asc present = (
    t,
    pos,
    refl,
    record { left = λ j here. (here, tt); forward = omega arith; last = λ b lt below. lt },
  )
  free_found-Freed t pos p (i ∷ is) h asc present =
      let above = ascending-above (1 + i) is {b = 1 + i} (omega arith) asc.1 in
      let still : All (IsPresent (radix.delete t i)) is = both-All is above present.1 in
      let (t', pos', e, freed) =
        free_found-Freed (radix.delete t i) i (1 + i) is (omega arith) asc.1 still in
      (
        t',
        pos',
        found-step t pos i is (omega (arith, asc.0)) present.0 ∙ e,
        record {
          left = λ j here.
              let (there, others) = freed.left j here in
              let (old, ne) = deleted-present t i j there in (old, (ne, others));
          forward = omega (arith, freed.forward, asc.0);
          last = λ b lt below. freed.last b below.0 below.1;
        },
      )
    where
      both-All :
          (js : List ℕ)
          → All (λ j. 1 + i ≤ j) js
          → All (IsPresent t) js
          → All (IsPresent (radix.delete t i)) js
      both-All [] a b = tt
      both-All (j ∷ js) a b = (delete-present t i j (omega (arith, a.0)) b.0, both-All js a.1 b.1)

  some-below :
      (pos b : ℕ) (is : List ℕ)
      → 0 < length is
      → IsAscendingFrom pos is
      → All (λ i. i < b) is
      → pos < b
  some-below pos b [] h asc below = elim h [ ]
  some-below pos b (i ∷ is) h asc below = omega (arith, asc.0, below.0)

  loop-last :
      (fuel : ℕ) (t : radix.Tree) (pos : ℕ) {t' : radix.Tree} {pos' : ℕ}
      → free_found radix t pos (radix.gang_lookup t pos free_batch) ≡ some (t', pos')
      → (length (radix.gang_lookup t pos free_batch) == free_batch) ≡ false
      → free_loop radix (suc fuel) t pos ≡ some t'
  unfolding free_loop
  loop-last fuel t pos e f = rw (f, e) refl

  loop-more :
      (fuel : ℕ) (t : radix.Tree) (pos : ℕ) {t' : radix.Tree} {pos' : ℕ}
      → free_found radix t pos (radix.gang_lookup t pos free_batch) ≡ some (t', pos')
      → (length (radix.gang_lookup t pos free_batch) == free_batch) ≡ true
      → free_loop radix (suc fuel) t pos ≡ free_loop radix fuel t' (pos' + 1)
  unfolding free_loop
  loop-more fuel t pos e f = rw (f, e) refl

  free_loop-empty :
      (fuel : ℕ) (t : radix.Tree) (pos bound : ℕ)
      → bound - pos < fuel
      → ((j : ℕ) → IsPresent t j → (pos ≤ j) × (j < bound))
      → (t' : radix.Tree) × (free_loop radix fuel t pos ≡ some t')
        × ((j : ℕ) → radix.lookup t' j ≡ none)
  free_loop-empty zero t pos bound h within = elim h [ ]
  free_loop-empty (suc fuel) t pos bound h within =
      let is = radix.gang_lookup t pos free_batch in
      let asc = laws.gang-ascending t pos free_batch in
      let (t1, pos1, e, freed) =
        free_found-Freed t pos pos is (omega arith) asc (laws.gang-present t pos free_batch) in
      let rest : (j : ℕ) → IsPresent t1 j → (length is ≡ free_batch) × All (λ i. i < j) is =
        λ j here.
          let (there, others) = freed.left j here in
          laws.gang-complete t pos free_batch j (within j there).0 there others in
      elim (Bool-cases (length is == free_batch)) [
        | inr less ↦ (
          t1,
          loop-last fuel t pos e less,
          λ j. elim (Option-cases (radix.lookup t1 j)) [
            | inl gone ↦ gone
            | inr (q, e') ↦
                absurd (ground (arith, less, (rest j (λ no. none-ne-some q (sym no ∙ e'))).0))
          ],
        )
        | inl full ↦
            let count : length is ≡ free_batch = (==_iff (length is) free_batch).0 full in
            let below : All (λ i. i < bound) is =
              All-map is (λ i here. (within i here).1) (laws.gang-present t pos free_batch) in
            let inside : pos < bound = some-below pos bound is (omega (arith, count)) asc below in
            let (t2, e2, empty) =
              free_loop-empty fuel t1 (pos1 + 1) bound
                (omega (arith, freed.forward, freed.last bound inside below))
                (λ j here.
                  let behind = (rest j here).1 in
                  (
                    omega (
                      arith,
                      freed.last j (some-below pos j is (omega (arith, count)) asc behind) behind,
                    ),
                    (within j (freed.left j here).0).1,
                  )) in
            (t2, loop-more fuel t pos e full ∙ e2, empty)
      ]

  brd_free_pages-empty :
      (t : radix.Tree)
      → (t' : radix.Tree) × (brd_free_pages radix t ≡ some t')
        × ((j : ℕ) → radix.lookup t' j ≡ none)
  unfolding brd_free_pages
  brd_free_pages-empty t =
      free_loop-empty (1 + radix.bound t) t 0 (radix.bound t) (omega arith)
        (λ j here. (omega arith, laws.below-bound t j here))

  -- COW_BRD_RESTORE_SNAPSHOT on a snapshot returns with success, without a BUG_ON and after as
  -- many batches as needed, and every byte of the snapshot is then the parent's, zero where it has
  -- none; the page tree keeps the laws of linux/radix-tree.h.
  pub restore_snapshot-byte :
      (parent : Option radix.Tree) (brd : BrdDevice radix)
      → brd.is_snapshot ≡ true
      → (t : radix.Tree) × (brd_ioctl radix brd cow_brd_restore_snapshot
          ≡ some (success, set_pages radix brd t))
        × ((a : ℕ) → byte_at radix parent t a ≡ parent_byte radix parent a)
  unfolding brd_ioctl free_all
  restore_snapshot-byte parent brd snapshot =
      let (t, e, empty) = brd_free_pages-empty brd.brd_pages in
      (
        t,
        ap (λ b. elim b [ true ↦ free_all radix brd | false ↦ some (enotty, brd) ]) snapshot
            ∙ rw (e) refl,
        λ a. absent-byte radix laws parent t a refl (empty _),
      )
