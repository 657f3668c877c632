-- ===== src/Tests/CheckTests.antt =====
-- test_check_random_permutations of code/harness/Tester.cpp on a machine that gives two crash states.
use crashmonkey.Common.{
  ℕ, zero, suc, ◌-◌, lt→ltb, ◌≤◌, ◌<◌, ◌≡◌, refl, true, false, some, List, [], ◌∷◌, length, All,
  ltb, if◌then◌else◌, arith,
}
use mathlib.Core.Option.{some-injective, some-ne-none}
use crashmonkey.DiskWrite.{}
use crashmonkey.CowBrd.{Page}
use crashmonkey.Results.{SingleTestInfo}
use crashmonkey.Tester.WriteData.{Calls, HasBuffer, IsWrite, NoErrors, replay_writes}
use crashmonkey.Tester.Check.{
  Machine, State, mount_device, umount_device, completed, check_state, one_round,
  test_check_random_permutations,
}
use crashmonkey.Tester.Check.Rounds.{IsVerdict, GivesBuffers}
use crashmonkey.Tester.Check.Mounts.{IsMachine, AlwaysUmounts, KeepsMounts, mount_device-forgets}
use crashmonkey.Tester.Check.Outcome.{test_check_random_permutations-IsVerdict, one_round-replay}
use crashmonkey.Tests.{bits, plain, flush_write}

-- The calls of the generator, and what is mounted.
record World : Type 0 where
  made : ℕ
  mounts : ℕ

-- Each write takes all; fsck repairs the first state, and the data of the second one is lost.
abbrev quick : Calls World
quick = record { seeks = λ addr. true; write = λ g addr n. some n; after = λ g addr n. g }

quick-IsWrite : IsWrite quick
quick-IsWrite = record {
  at_most = λ g addr n k e. omega (arith, some-injective _ _ e);
  progress = λ g addr n k e h. omega (arith, some-injective _ _ e);
}

quick-NoErrors : NoErrors quick
quick-NoErrors = record { seeks_all = λ addr. refl; writes_all = λ g addr n. some-ne-none _ }

abbrev two_states : Machine World
two_states = record {
  generate = λ g. (ltb (g.made) 2, plain ∷ flush_write ∷ [], record g { made = suc (g.made) });
  open_snapshot = λ g. (true, g);
  restore = λ g. (true, g);
  parent = λ a. 0;
  fsck = λ g d. (if ltb (g.made) 2 then 256 else 0, d, g);
  mount = λ g d. (true, d, record g { mounts = suc (g.mounts) });
  check_test = λ g d. (ltb (g.made) 2, if ltb (g.made) 2 then 0 else 2, d, g);
  umount = λ g d. (ltb 0 (g.mounts), d, record g { mounts = g.mounts - 1 });
  mount_count = λ g. g.mounts;
}

one_less : (n : ℕ) → n - 1 ≡ (if ltb 0 n then n - 1 else n)
one_less zero = refl
one_less (suc n) = ground arith

two_states-IsMachine : IsMachine two_states
two_states-IsMachine = record {
  mounts = λ g d. refl;
  umounts = λ g d. one_less (g.mounts);
  generates = λ g. refl;
  opens = λ g. refl;
  restores = λ g. refl;
  fscks = λ g d. refl;
  checks = λ g d. refl;
}

abbrev start : State World
start = record { world = record { made = 0; mounts = 0 }; disk = λ a. 9; disk_mounted = false }

two_states-GivesBuffers : GivesBuffers two_states
unfolding GivesBuffers HasBuffer
two_states-GivesBuffers g = (λ e. absurd (some-ne-none _ e), (λ e. absurd (some-ne-none _ e), tt))

two_states-AlwaysUmounts : AlwaysUmounts two_states
unfolding AlwaysUmounts
two_states-AlwaysUmounts g d mounted = lt→ltb _ _ mounted

quick-KeepsMounts : KeepsMounts bits quick (two_states.mount_count)
unfolding KeepsMounts
quick-KeepsMounts g addr n = refl

test_check_random_permutations-IsVerdict_example :
    (tests : List SingleTestInfo) × (s' : State World) × (test_check_random_permutations bits quick
        two_states 5 start
      ≡ some (tests, s'))
    × (length tests ≤ 5)
    × All IsVerdict tests
    × (s'.disk_mounted ≡ false)
    × (s'.world.mounts ≡ 0)
test_check_random_permutations-IsVerdict_example =
    test_check_random_permutations-IsVerdict bits quick two_states two_states-IsMachine
      two_states-AlwaysUmounts quick-KeepsMounts quick-IsWrite two_states-GivesBuffers 5 start refl
      refl

one_round-replay_example :
    (g4 : World) × (disk : Page) × (one_round bits quick two_states start
      ≡ some (
          completed
            (check_state two_states (record { world = g4; disk = disk; disk_mounted = false })).0
            (check_state two_states (record { world = g4; disk = disk; disk_mounted = false })).1))
    × ((a : ℕ) → disk a ≡ replay_writes bits (λ b. 0) (plain ∷ flush_write ∷ []) a)
unfolding GivesBuffers
one_round-replay_example =
    one_round-replay bits quick two_states quick-IsWrite quick-NoErrors start
      (plain ∷ flush_write ∷ []) (record { made = 1; mounts = 0 }) (record { made = 1; mounts = 0 })
      (record { made = 1; mounts = 0 }) refl
      (two_states-GivesBuffers (record { made = 0; mounts = 0 })) refl refl

-- A machine on which no mount works.
abbrev no_mounts : Machine World
no_mounts = record two_states { mount = λ g d. (false, d, g) }

no_mounts-IsMachine : IsMachine no_mounts
no_mounts-IsMachine = record {
  mounts = λ g d. refl;
  umounts = λ g d. one_less (g.mounts);
  generates = λ g. refl;
  opens = λ g. refl;
  restores = λ g. refl;
  fscks = λ g d. refl;
  checks = λ g d. refl;
}

abbrev still_mounted : State World
still_mounted = record {
  world = record { made = 0; mounts = 1 };
  disk = λ a. 9;
  disk_mounted = true;
}

mount_device-forgets_example :
    ((umount_device no_mounts (mount_device no_mounts still_mounted).1).0 ≡ true)
    × (0 < (umount_device no_mounts (mount_device no_mounts still_mounted).1).1.world.mounts)
unfolding mount_device
mount_device-forgets_example =
    mount_device-forgets no_mounts no_mounts-IsMachine still_mounted (omega arith) refl
