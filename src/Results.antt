-- ===== src/Results.antt =====
-- code/results: the outcome of a test (DataTestResult, FileSystemTestResult, SingleTestInfo) and the
-- counters that TestSuiteResult::PrintResults prints.
pub mod Errors
use Prim.Native.Nat.{}
use crashmonkey.Common.{
  ℕ, zero, suc, ◌+◌, ◌*◌, ◌/◌, ◌%◌, ◌^◌, ◌≤◌, ◌<◌, ◌≡◌, sym, ap, ◌∙◌, ◌&&◌, ◌==◌, ==_iff,
  if◌then◌else◌, List, [], ◌∷◌, length, Bool-cases, inl, inr, arith,
}

-- The enumerators of DataTestResult::ErrorType, and of FileSystemTestResult::ErrorType those
-- that PrintResults names: kClean, then `1 << k` for each kind of error.
abbrev pub clean : ℕ
clean = 0

abbrev pub old_file_persisted_err : ℕ
old_file_persisted_err = 1

abbrev pub file_missing_err : ℕ
file_missing_err = 2

abbrev pub file_data_corrupted_err : ℕ
file_data_corrupted_err = 4

abbrev pub file_metadata_corrupted_err : ℕ
file_metadata_corrupted_err = 8

abbrev pub other_err : ℕ
other_err = 16

abbrev pub fixed : ℕ
fixed = 2

-- SingleTestInfo: the error_summary_ of each of its two results.
pub record SingleTestInfo : Type 0 where
  pub data_test : ℕ
  pub fs_test : ℕ

-- The local variables of PrintResults.
pub record Counts : Type 0 where
  pub num_failed : ℕ
  pub num_passed_fixed : ℕ
  pub num_passed : ℕ
  pub old_file_persisted : ℕ
  pub file_missing : ℕ
  pub file_data_corrupted : ℕ
  pub file_metadata_corrupted : ℕ
  pub other : ℕ

-- The switch on the error of the data test.
unfoldable pub count_error : Counts → ℕ → Counts
count_error c err =
    if err == old_file_persisted_err
    then record c { old_file_persisted = suc c.old_file_persisted }
    else if err == file_missing_err
    then record c { file_missing = suc c.file_missing }
    else if err == file_data_corrupted_err
    then record c { file_data_corrupted = suc c.file_data_corrupted }
    else if err == file_metadata_corrupted_err
    then record c { file_metadata_corrupted = suc c.file_metadata_corrupted }
    else if err == other_err
    then record c { other = suc c.other }
    else c

unfoldable pub count_one : Counts → SingleTestInfo → Counts
count_one c result =
    if (result.fs_test == clean) && (result.data_test == clean)
    then record c { num_passed = suc c.num_passed }
    else if (result.fs_test == fixed) && (result.data_test == clean)
    then record c { num_passed_fixed = suc c.num_passed_fixed }
    else count_error (record c { num_failed = suc c.num_failed }) result.data_test

unfoldable pub count_all : Counts → List SingleTestInfo → Counts
count_all c [] = c
count_all c (r ∷ rs) = count_all (count_one c r) rs

unfoldable pub print_results : List SingleTestInfo → Counts
print_results completed =
    count_all
      (record {
        num_failed = 0;
        num_passed_fixed = 0;
        num_passed = 0;
        old_file_persisted = 0;
        file_missing = 0;
        file_data_corrupted = 0;
        file_metadata_corrupted = 0;
        other = 0;
      })
      completed

-- The counters add up.
total : Counts → ℕ
total c = c.num_failed + c.num_passed_fixed + c.num_passed

by_kind : Counts → ℕ
by_kind c =
    c.old_file_persisted + c.file_missing + c.file_data_corrupted + c.file_metadata_corrupted
    + c.other

count_one-total :
    (c : Counts) (r : SingleTestInfo)
    → (total (count_one c r) ≡ suc (total c))
      × (by_kind (count_one c r) + c.num_failed ≤ by_kind c + (count_one c r).num_failed)
unfolding total by_kind count_one count_error
count_one-total c r = ground arith

count_all-total :
    (c : Counts) (rs : List SingleTestInfo)
    → (total (count_all c rs) ≡ total c + length rs)
      × (by_kind (count_all c rs) + c.num_failed ≤ by_kind c + (count_all c rs).num_failed)
unfolding count_all
count_all-total c [] = omega arith
count_all-total c (r ∷ rs) =
    let one = count_one-total c r in
    let rest = count_all-total (count_one c r) rs in omega (arith, one.0, one.1, rest.0, rest.1)

-- The number of tests that PrintResults says it ran, the sum of failed, passed fixed and passed
-- cleanly, is the number of completed tests, and the counts by kind of error are together at most
-- the failed ones.
pub print_results-total :
    (rs : List SingleTestInfo)
    → ((print_results rs).num_failed
          + (print_results rs).num_passed_fixed
          + (print_results rs).num_passed
        ≡ length rs)
      × ((print_results rs).old_file_persisted
            + (print_results rs).file_missing
            + (print_results rs).file_data_corrupted
            + (print_results rs).file_metadata_corrupted
            + (print_results rs).other
          ≤ (print_results rs).num_failed)
unfolding print_results total by_kind
print_results-total rs =
    let all =
      count_all-total
        (record {
          num_failed = 0;
          num_passed_fixed = 0;
          num_passed = 0;
          old_file_persisted = 0;
          file_missing = 0;
          file_data_corrupted = 0;
          file_metadata_corrupted = 0;
          other = 0;
        })
        rs in
    omega (arith, all.0, all.1)
