-- ===== src/Permuter/Generate/Fresh.antt =====
-- code/permuter/Permuter.cpp: GenerateCrashState ends within `max_retries` rounds, and what it
-- returns as a new state was not returned before.
use crashmonkey.Common.{
  ℕ, zero, suc, ◌+◌, ◌-◌, ◌≤◌, ◌<◌, ◌≡◌, ◌≢◌, ◌↔◌, ◌⊎◌, refl, sym, ap, ◌∙◌, inl, inr, Bool, true,
  false, not, ◌||◌, leb, le→leb, Bool-cases, List, [], ◌∷◌, All, length, map, arith,
}
use mathlib.Core.Bool.{false≢true}
use mathlib.Core.Path.{}
use crashmonkey.Permuter.{EpochOp, bio_vector_equal, same_elements}
use crashmonkey.Permuter.Generate.{
  done, contains, insert_key, max_retries, key_of, GenOneState, Tried, Generated, retry_loop,
  finish, generate_crash_state,
}

same_elements_refl : (a : List ℕ) → same_elements a a ≡ true
unfolding same_elements
same_elements_refl [] = refl
same_elements_refl (x ∷ xs) = ground (arith, same_elements_refl xs)

same_elements-eq : (a b : List ℕ) → length a ≡ length b → same_elements a b ≡ true → a ≡ b
unfolding same_elements
same_elements-eq [] [] e h = refl
same_elements-eq [] (y ∷ ys) e h = absurd (omega arith)
same_elements-eq (x ∷ xs) [] e h = absurd (omega arith)
same_elements-eq (x ∷ xs) (y ∷ ys) e h = ground (arith, same_elements-eq xs ys)

-- BioVectorEqual returns true exactly on two equal index vectors.
pub bio_vector_equal_iff : (a b : List ℕ) → (bio_vector_equal a b ≡ true) ↔ (a ≡ b)
unfolding bio_vector_equal
bio_vector_equal_iff a b = (
  λ h. same_elements-eq a b (ground arith) (ground arith),
  λ e. rw e (ground (arith, same_elements_refl b)),
)

contains-All : (ks : List (List ℕ)) (key : List ℕ) → contains ks key ≡ false → All (λ k. k ≢ key) ks
unfolding contains
contains-All [] key h = tt
contains-All (k ∷ ks) key h = elim (Bool-cases (bio_vector_equal k key)) [
  | inl same ↦ cc (rw same at h)
  | inr other ↦ (
    λ e. false≢true (sym other ∙ (bio_vector_equal_iff k key).1 e),
    contains-All ks key (rw other at h),
  )
]

insert_key-new :
    (ks : List (List ℕ)) (key : List ℕ) → contains ks key ≡ false → insert_key ks key ≡ key ∷ ks
unfolding insert_key
insert_key-new ks key h = rw (h, insert_key) refl

-- gen_one_state throws nothing, and all that it makes satisfies P.
abbrev pub Makes : {G : Type 0} → (List EpochOp → Type 0) → GenOneState G → Type 0
Makes {G} P gen =
    (g : G) (cs : List EpochOp) → (out : G × Bool × List EpochOp) × (gen g cs ≡ done out) × P out.2

-- What a call leaves, for the last state that gen_one_state made.
pub record IsOutcome {G : Type 0} (completed : List (List ℕ)) (cs : List EpochOp)
    (out : Generated G) : Type 0 where
  pub ops : out.res ≡ map (λ o. o.op) cs
  pub fresh :
      out.result ≡ true
      → All (λ k. k ≢ key_of cs) completed × (out.completed ≡ key_of cs ∷ completed)
  pub kept :
      (out.completed ≡ completed)
      ⊎ (All (λ k. k ≢ key_of cs) completed × (out.completed ≡ key_of cs ∷ completed))

module _ {G : Type 0} (P : List EpochOp → Type 0) (gen : GenOneState G)
    (completed : List (List ℕ)) where
  abbrev Checked : Tried G → Type 0
  Checked t = (t.exists ≡ contains completed (key_of t.crash_state)) × P t.crash_state

  -- The loop ends by its own tests on as much fuel as there are retries left.
  retry_loop-Checked :
      (fuel : ℕ) (g : G) (cs : List EpochOp) (retries : ℕ)
      → Makes P gen
      → max_retries completed ≤ retries + suc fuel
      → (t : Tried G) × (retry_loop gen completed (suc fuel) g cs retries ≡ done t) × Checked t
  unfolding retry_loop
  retry_loop-Checked zero g cs retries total enough =
      let (out, eq, made) = total g cs in
      let (g', n, cs') = out in
      let gives_up : leb (max_retries completed) (suc retries) ≡ true = le→leb _ _ (omega arith) in
      rw (eq, retry_loop)
        (elim (Bool-cases n) [
          | inl fresh ↦ rw fresh (rw gives_up (_, refl, (refl, made)))
          | inr last ↦ rw last (_, refl, (refl, made))
        ])
  retry_loop-Checked (suc fuel) g cs retries total enough =
      let (out, eq, made) = total g cs in
      let (g', n, cs') = out in
      rw (eq, retry_loop)
        (elim (Bool-cases (not n || leb (max_retries completed) (suc retries))) [
          | inl stop ↦ rw stop (_, refl, (refl, made))
          | inr go ↦ rw go (elim (Bool-cases (contains completed (key_of cs'))) [
            | inl old ↦ rw old (retry_loop-Checked fuel g' cs' (suc retries) total (omega arith))
            | inr new ↦ rw new (_, refl, (sym new, made))
          ])
        ])

  max_retries_pos : 0 < max_retries completed
  unfolding max_retries
  max_retries_pos = ground arith

  finish-IsOutcome :
      (t : Tried G) → Checked t → IsOutcome completed t.crash_state (finish gen completed t)
  unfolding finish
  finish-IsOutcome t v = elim (Bool-cases t.exists) [
    | inl old ↦ rw old (record { ops = refl; fresh = λ h. absurd (false≢true h); kept = inl refl })
    | inr new ↦
        let unseen = contains-All completed (key_of t.crash_state) (sym v.0 ∙ new) in
        let added = insert_key-new completed (key_of t.crash_state) (sym v.0 ∙ new) in
        rw new (record { ops = refl; fresh = λ _. (unseen, added); kept = inr (unseen, added) })
  ]

  -- Where gen_one_state throws nothing and makes states with a property P, GenerateCrashState
  -- returns after at most max_retries rounds; the vector that it hands out holds the requests of
  -- one generated state, of which P holds; it returns true only for a state whose indices were not
  -- completed before, and then remembers them, and in any case it remembers nothing else.
  pub generate_crash_state-IsOutcome :
      (g : G)
      → Makes P gen
      → (cs : List EpochOp) × (out : Generated G) × (generate_crash_state gen completed g
          ≡ done out)
        × IsOutcome completed cs out
        × P cs
  unfolding generate_crash_state
  generate_crash_state-IsOutcome g total =
      let n = max_retries completed in
      let e : n ≡ suc (n - 1) = omega (arith, max_retries_pos) in
      let (t, ended, checked) =
        retry_loop-Checked (n - 1) g [] 0 total (omega (arith, max_retries_pos)) in
      let whole : retry_loop gen completed n g [] 0 ≡ done t =
        ap (λ k. retry_loop gen completed k g [] 0) e ∙ ended in
      (
        t.crash_state,
        finish gen completed t,
        rw (whole, generate_crash_state) refl,
        finish-IsOutcome t checked,
        checked.1,
      )
