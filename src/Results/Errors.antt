-- ===== src/Results/Errors.antt =====
-- PrintErrors and operator<< of code/results/DataTestResult.cpp and FileSystemTestResult.cpp. The two
-- classes differ only in the names that operator<< knows, which are an argument.
pub mod Names
use crashmonkey.Common.{
  ℕ, zero, suc, ◌/◌, ◌%◌, ◌^◌, Bool, true, false, ◌==◌, ◌||◌, List, [], ◌∷◌, ◌++◌,
}

-- What is printed, an enumerator for its name, and whether the failbit is not set.
pub record Stream : Type 0 where
  pub printed : List ℕ
  pub good : Bool

-- The cases of the switch in operator<<.
abbrev pub data_names : List ℕ
data_names = 1 ∷ 2 ∷ 4 ∷ 8 ∷ 16 ∷ []

abbrev pub file_system_names : List ℕ
file_system_names = 1 ∷ 2 ∷ 4 ∷ 8 ∷ 16 ∷ 32 ∷ []

unfoldable pub is_named : List ℕ → ℕ → Bool
is_named [] err = false
is_named (e ∷ es) err = (err == e) || is_named es err

-- `os << "…"`, which prints nothing once the failbit is set.
unfoldable pub put_name : Stream → ℕ → Stream
put_name s err = elim (s.good) [ true ↦ record s { printed = s.printed ++ (err ∷ []) } | false ↦ s ]

-- operator<<.
unfoldable pub print_error : List ℕ → Stream → ℕ → Stream
print_error names s err = elim (is_named names err) [
  | true ↦ put_name s err
  | false ↦ record s { good = false }
]

-- The body of the loop, for a bit.
unfoldable pub print_bit : List ℕ → Stream → ℕ → ℕ → Stream
print_bit names s bit shift = elim (bit == 1) [ true ↦ print_error names s (2 ^ shift) | false ↦ s ]

unfoldable pub print_errors_loop : List ℕ → ℕ → Stream → ℕ → ℕ → Stream
print_errors_loop names zero s noted shift = s
print_errors_loop names (suc fuel) s noted shift = elim (noted == 0) [
  | true ↦ s
  | false ↦
      print_errors_loop names fuel (print_bit names s (noted % 2) shift) (noted / 2) (suc shift)
]

-- `unsigned int` has 32 bits, so that there are at most 32 rounds.
unfoldable pub print_errors : List ℕ → Stream → ℕ → Stream
print_errors names s error_summary = print_errors_loop names 32 s error_summary 0
