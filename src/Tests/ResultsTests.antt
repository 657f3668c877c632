-- ===== src/Tests/ResultsTests.antt =====
-- The theorems on code/results and on the saved log of code/harness/Tester.cpp at concrete inputs.
use crashmonkey.Common.{◌+◌, ◌≡◌, ◌≤◌, List, [], ◌∷◌, ◌++◌, some, true, false, arith}
use crashmonkey.DiskWrite.Stream.{Bytes}
use crashmonkey.DiskWrite.Stream.RoundTrip.{IsBuilt}
use crashmonkey.Results.{SingleTestInfo, print_results, print_results-total}
use crashmonkey.Results.Errors.{data_names, file_system_names, print_errors}
use crashmonkey.Results.Errors.Names.{set_names, print_errors-set_names}
use crashmonkey.Tester.Profile.{success, log_profile_save, log_profile_load, log_profile_load-save}
use crashmonkey.Tests.{plain}

-- A clean test, one that was fixed, one with corrupted data, and one that could not be mounted.
abbrev runs : List SingleTestInfo
runs =
    record { data_test = 0; fs_test = 0 }
    ∷ record { data_test = 0; fs_test = 2 }
    ∷ record { data_test = 4; fs_test = 0 }
    ∷ record { data_test = 0; fs_test = 1 }
    ∷ []

print_results-total_example :
    ((print_results runs).num_failed
        + (print_results runs).num_passed_fixed
        + (print_results runs).num_passed
      ≡ 4)
    × ((print_results runs).old_file_persisted
          + (print_results runs).file_missing
          + (print_results runs).file_data_corrupted
          + (print_results runs).file_metadata_corrupted
          + (print_results runs).other
        ≤ (print_results runs).num_failed)
print_results-total_example = print_results-total runs

-- Two errors that have a name, and behind them a bit that has none for a test of the data.
print_errors-set_names_example :
    (print_errors data_names (record { printed = []; good = true }) 41
      ≡ record { printed = 1 ∷ 8 ∷ []; good = false })
    × (print_errors file_system_names (record { printed = []; good = true }) 41
        ≡ record { printed = 1 ∷ 8 ∷ 32 ∷ []; good = true })
unfolding set_names
print_errors-set_names_example = print_errors-set_names [] 41 (omega arith)

plain-Built : IsBuilt plain
plain-Built = omega arith

log_profile_load-save_example :
    (file : Bytes) × (log_profile_save (plain ∷ plain ∷ []) ≡ some file)
    × (log_profile_load (plain ∷ []) (some file)
        ≡ some (success, (plain ∷ []) ++ (plain ∷ plain ∷ [])))
log_profile_load-save_example =
    log_profile_load-save (plain ∷ []) (plain ∷ plain ∷ []) (plain-Built, (plain-Built, tt))
