-- ===== src/Tests/WriteDataTests.antt =====
-- test_write_data of code/harness/Tester.cpp at a write that takes at most two bytes in a call.
use Prim.Native.Nat.{min}
use crashmonkey.Common.{ℕ, ◌≡◌, refl, Bool, true, some, [], ◌∷◌, arith}
use mathlib.Core.Option.{some-injective, some-ne-none}
use crashmonkey.CowBrd.{Page}
use crashmonkey.Tester.WriteData.{
  Calls, HasBuffer, IsWrite, NoErrors, test_write_data, replay_writes, test_write_data-replay,
  test_write_data-works,
}
use crashmonkey.Tests.{bits, plain, flush_write}

-- No call changes the state.
abbrev slow : Calls ℕ
slow = record { seeks = λ addr. true; write = λ g addr n. some (min n 2); after = λ g addr n. g }

slow-IsWrite : IsWrite slow
slow-IsWrite = record {
  at_most = λ g addr n k e. omega (arith, some-injective _ _ e);
  progress = λ g addr n k e h. omega (arith, some-injective _ _ e);
}

test_write_data-replay_example :
    (g' : ℕ) × (ok : Bool) × (disk' : Page) × (test_write_data bits slow 0
        (λ a. 0)
        (plain ∷ flush_write ∷ [])
      ≡ some (g', ok, disk'))
    × (ok ≡ true → (a : ℕ) → disk' a ≡ replay_writes bits (λ a. 0) (plain ∷ flush_write ∷ []) a)
unfolding HasBuffer
test_write_data-replay_example =
    test_write_data-replay bits slow slow-IsWrite 0 (λ a. 0) (plain ∷ flush_write ∷ [])
      (λ e. absurd (some-ne-none _ e), (λ e. absurd (some-ne-none _ e), tt))

slow-NoErrors : NoErrors slow
slow-NoErrors = record { seeks_all = λ addr. refl; writes_all = λ g addr n. some-ne-none _ }

test_write_data-works_example :
    (g' : ℕ) × (disk' : Page) × (test_write_data bits slow 0 (λ a. 0) (plain ∷ flush_write ∷ [])
      ≡ some (g', true, disk'))
    × ((a : ℕ) → disk' a ≡ replay_writes bits (λ a. 0) (plain ∷ flush_write ∷ []) a)
unfolding HasBuffer
test_write_data-works_example =
    test_write_data-works bits slow slow-IsWrite slow-NoErrors 0 (λ a. 0) (plain ∷ flush_write ∷ [])
      (λ e. absurd (some-ne-none _ e), (λ e. absurd (some-ne-none _ e), tt))
