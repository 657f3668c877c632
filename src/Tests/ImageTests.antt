-- ===== src/Tests/ImageTests.antt =====
-- A disk of five bytes that is saved and loaded two bytes at a time, and one that cannot be written.
use Prim.Native.Nat.{min}
use crashmonkey.Common.{ℕ, ◌+◌, ◌<◌, ◌≡◌, refl, false, none, some, [], ◌∷◌, arith}
use crashmonkey.DiskWrite.Stream.{Bytes}
use crashmonkey.CowBrd.{Page}
use crashmonkey.Tester.Profile.{success}
use crashmonkey.Tester.Image.{ImageCalls, log_snapshot_save, log_snapshot_load}
use crashmonkey.Tester.Image.Copies.{Works, log_snapshot_load-save, log_snapshot_load-fails}

-- The state counts nothing; a wiped disk is zero.
abbrev slow : ImageCalls ℕ
slow = record {
  read = λ g position n. (some (min 2 n), g);
  write = λ g position n. (some (min 2 n), g);
  wipe = λ g disk. ((λ a. 0), g);
  finish = λ g. g;
}

abbrev full : ImageCalls ℕ
full = record slow { write = λ g position n. (none, g) }

slow-Works : Works slow.read
unfolding Works
slow-Works g position n = (min 2 n, g, refl, omega arith, λ some_left. omega arith)

abbrev squares : Page
squares a = a + a

log_snapshot_load-save_example :
    (file : Bytes) × (g1 : ℕ) × (disk' : Page) × (g3 : ℕ) × (log_snapshot_save slow 5 0 squares
        (λ a. 7)
        false
      ≡ some (success, file, g1))
    × (log_snapshot_load slow 5 0 (λ a. 9) file ≡ some (success, disk', g3))
    × ((a : ℕ) → a < 5 → disk' a ≡ squares a)
log_snapshot_load-save_example =
    log_snapshot_load-save slow 5 slow-Works slow-Works (omega arith) 0 0 squares (λ a. 7) (λ a. 9)

log_snapshot_load-fails_example :
    (g' : ℕ) × (log_snapshot_load full 3 0 (λ a. 9) (1 ∷ 2 ∷ 3 ∷ []) ≡ some (success, (λ a. 0), g'))
log_snapshot_load-fails_example =
    log_snapshot_load-fails full 3 (λ g position n. refl) (omega arith) 0 (λ a. 9) (1 ∷ 2 ∷ 3 ∷ [])
      refl
