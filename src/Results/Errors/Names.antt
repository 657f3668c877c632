-- ===== src/Results/Errors/Names.antt =====
-- PrintErrors of code/results/DataTestResult.cpp and FileSystemTestResult.cpp: which names it prints.
use native.Mathlib.Nat.{div-div-eq-div-mul}
use mathlib.Core.List.{append_assoc, append-nil}
use crashmonkey.Common.{
  ℕ, zero, suc, ◌+◌, ◌*◌, ◌/◌, ◌%◌, ◌^◌, ◌<◌, ◌≤◌, ◌≡◌, refl, sym, ap, ◌∙◌, inl, inr, true, false,
  ◌==◌, ==_iff, ltb, List, [], ◌∷◌, ◌++◌, Bool-cases, arith,
}
use crashmonkey.Results.Errors.{
  Stream, data_names, file_system_names, is_named, put_name, print_error, print_bit,
  print_errors_loop, print_errors,
}

-- The names whose bit is set, in order.
unfoldable pub set_names : ℕ → List ℕ → List ℕ
set_names n [] = []
set_names n (e ∷ es) = elim (n / e % 2 == 1) [ true ↦ e ∷ set_names n es | false ↦ set_names n es ]

powers : ℕ → ℕ → List ℕ
powers shift zero = []
powers shift (suc j) = 2 ^ shift ∷ powers (suc shift) j

loop-stop :
    (names : List ℕ) (fuel : ℕ) (s : Stream) (noted shift : ℕ)
    → noted ≡ 0
    → print_errors_loop names fuel s noted shift ≡ s
unfolding print_errors_loop
loop-stop names zero s noted shift e = refl
loop-stop names (suc fuel) s noted shift e = rw ((==_iff noted 0).1 e, print_errors_loop) refl

loop-round :
    (names : List ℕ) (fuel : ℕ) (s : Stream) (noted shift : ℕ)
    → (noted == 0) ≡ false
    → print_errors_loop names (suc fuel) s noted shift
      ≡ print_errors_loop names fuel (print_bit names s (noted % 2) shift) (noted / 2) (suc shift)
unfolding print_errors_loop
loop-round names fuel s noted shift e = rw (e, print_errors_loop) refl

-- With the failbit set.
bit_failed :
    (names : List ℕ) (printed : List ℕ) (bit shift : ℕ)
    → print_bit names (record { printed = printed; good = false }) bit shift
      ≡ record { printed = printed; good = false }
unfolding print_bit print_error put_name
bit_failed names printed bit shift = elim (Bool-cases (bit == 1)) [
  | inr clear ↦ rw (clear, print_bit) refl
  | inl set ↦ elim (Bool-cases (is_named names (2 ^ shift))) [
    | inl named ↦ rw (set, print_bit) (rw (named, print_error) refl)
    | inr unnamed ↦ rw (set, print_bit) (rw (unnamed, print_error) refl)
  ]
]

loop_failed :
    (names : List ℕ) (fuel : ℕ) (printed : List ℕ) (noted shift : ℕ)
    → print_errors_loop names fuel (record { printed = printed; good = false }) noted shift
      ≡ record { printed = printed; good = false }
unfolding print_errors_loop
loop_failed names zero printed noted shift = refl
loop_failed names (suc fuel) printed noted shift = elim (Bool-cases (noted == 0)) [
  | inl e ↦ rw (e, print_errors_loop) refl
  | inr e ↦
      loop-round names fuel (record { printed = printed; good = false }) noted shift e
      ∙ ap (λ t. print_errors_loop names fuel t (noted / 2) (suc shift))
          (bit_failed names printed (noted % 2) shift)
      ∙ loop_failed names fuel printed (noted / 2) (suc shift)
]

-- Bits that have a name, and one that has none.
bit_clear :
    (names : List ℕ) (s : Stream) (bit shift : ℕ)
    → (bit == 1) ≡ false
    → print_bit names s bit shift ≡ s
unfolding print_bit
bit_clear names s bit shift e = rw (e, print_bit) refl

bit_named :
    (names printed : List ℕ) (bit shift : ℕ)
    → (bit == 1) ≡ true
    → is_named names (2 ^ shift) ≡ true
    → print_bit names (record { printed = printed; good = true }) bit shift
      ≡ record { printed = printed ++ (2 ^ shift ∷ []); good = true }
unfolding print_bit print_error put_name
bit_named names printed bit shift set named = rw (set, print_bit) (rw (named, print_error) refl)

bit_unnamed :
    (names printed : List ℕ) (bit shift : ℕ)
    → (bit == 1) ≡ true
    → is_named names (2 ^ shift) ≡ false
    → print_bit names (record { printed = printed; good = true }) bit shift
      ≡ record { printed = printed; good = false }
unfolding print_bit print_error put_name
bit_unnamed names printed bit shift set unnamed =
    rw (set, print_bit) (rw (unnamed, print_error) refl)

-- The names are the bits below k.
IsNames : ℕ → List ℕ → Type 0
IsNames k names = (shift : ℕ) → is_named names (2 ^ shift) ≡ ltb shift k

-- Above the names nothing is printed, and a bit that is set sets the failbit.
loop_above :
    (names : List ℕ) (k : ℕ)
    → IsNames k names
    → (fuel : ℕ) (printed : List ℕ) (noted shift : ℕ) → ltb shift k ≡ false
    → noted < 2 ^ fuel
    → print_errors_loop names fuel (record { printed = printed; good = true }) noted shift
      ≡ record { printed = printed; good = noted == 0 }
unfolding IsNames
loop_above names k is zero printed noted shift above small =
    loop-stop names zero (record { printed = printed; good = true }) noted shift (omega arith)
    ∙ ap (λ b. record { printed = printed; good = b }) (sym ((==_iff noted 0).1 (omega arith)))
loop_above names k is (suc fuel) printed noted shift above small =
    let s : Stream = record { printed = printed; good = true } in
    elim (Bool-cases (noted == 0)) [
      | inl e ↦
          loop-stop names (suc fuel) s noted shift ((==_iff noted 0).0 e)
          ∙ ap (λ b. record { printed = printed; good = b }) (sym e)
      | inr e ↦ elim (Bool-cases (noted % 2 == 1)) [
        | inl set ↦
            loop-round names fuel s noted shift e
            ∙ ap (λ t. print_errors_loop names fuel t (noted / 2) (suc shift))
                (bit_unnamed names printed (noted % 2) shift set (is shift ∙ above))
            ∙ loop_failed names fuel printed (noted / 2) (suc shift)
            ∙ ap (λ b. record { printed = printed; good = b }) (sym e)
        | inr clear ↦
            let halves : (noted / 2 == 0) ≡ (noted == 0) = ground (arith, e, clear) in
            loop-round names fuel s noted shift e
            ∙ ap (λ t. print_errors_loop names fuel t (noted / 2) (suc shift))
                (bit_clear names s (noted % 2) shift clear)
            ∙ loop_above names k is fuel printed (noted / 2) (suc shift) (ground (arith, above))
                (omega arith)
            ∙ ap (λ b. record { printed = printed; good = b }) halves
      ]
    ]

-- A round for any number: at 0 it changes nothing.
loop_bit :
    (names : List ℕ) (fuel : ℕ) (s : Stream) (noted shift : ℕ)
    → print_errors_loop names (suc fuel) s noted shift
      ≡ print_errors_loop names fuel (print_bit names s (noted % 2) shift) (noted / 2) (suc shift)
loop_bit names fuel s noted shift = elim (Bool-cases (noted == 0)) [
  | inr e ↦ loop-round names fuel s noted shift e
  | inl e ↦
      let zero_left : noted ≡ 0 = (==_iff noted 0).0 e in
      loop-stop names (suc fuel) s noted shift zero_left
      ∙ sym (loop-stop names fuel s (noted / 2) (suc shift) (omega (arith, zero_left)))
      ∙ ap (λ t. print_errors_loop names fuel t (noted / 2) (suc shift))
          (sym (bit_clear names s (noted % 2) shift (ground (arith, zero_left))))
]

set_names-set :
    (n e : ℕ) (es : List ℕ) → (n / e % 2 == 1) ≡ true → set_names n (e ∷ es) ≡ e ∷ set_names n es
unfolding set_names
set_names-set n e es set = rw (set, set_names) refl

set_names-clear :
    (n e : ℕ) (es : List ℕ) → (n / e % 2 == 1) ≡ false → set_names n (e ∷ es) ≡ set_names n es
unfolding set_names
set_names-clear n e es clear = rw (clear, set_names) refl

halved : (n shift : ℕ) → n / 2 ^ shift / 2 ≡ n / 2 ^ suc shift
halved n shift =
    div-div-eq-div-mul n (2 ^ shift) 2 ∙ ap (λ m. n / m) {x = 2 ^ shift * 2} (omega arith)

-- What the loop comes to from the bit `shift` on, with j names to come.
Prints : List ℕ → ℕ → List ℕ → ℕ → ℕ → ℕ → Type 0
Prints names fuel printed n shift j =
    print_errors_loop names fuel (record { printed = printed; good = true }) (n / 2 ^ shift) shift
    ≡ record { printed = printed ++ set_names n (powers shift j); good = n / 2 ^ (shift + j) == 0 }

loop_below :
    (names : List ℕ) (k : ℕ)
    → IsNames k names
    → (j fuel : ℕ) (printed : List ℕ) (n shift : ℕ) → shift + j ≡ k
    → j ≤ fuel
    → n / 2 ^ shift < 2 ^ fuel
    → Prints names fuel printed n shift j
unfolding IsNames Prints powers set_names
loop_below names k is zero fuel printed n shift at enough small =
    loop_above names k is fuel printed (n / 2 ^ shift) shift (ground (arith, at)) small
    ∙ ap (λ l. record { printed = l; good = n / 2 ^ shift == 0 }) (sym (append-nil printed))
    ∙ ap (λ m. record { printed = printed ++ []; good = n / 2 ^ m == 0 }) {x = shift}
        {y = shift + 0} (omega arith)
loop_below names k is (suc j) zero printed n shift at enough small = absurd (omega arith)
loop_below names k is (suc j) (suc fuel) printed n shift at enough small =
    let s : Stream = record { printed = printed; good = true } in
    let noted = n / 2 ^ shift in
    let e = 2 ^ shift in
    let es = powers (suc shift) j in
    let next = halved n shift in
    let smaller : n / 2 ^ suc shift < 2 ^ fuel = omega (arith, small, next) in
    let later = λ (l : List ℕ).
      ap (λ m. print_errors_loop names fuel (record { printed = l; good = true }) m (suc shift))
        next
      ∙ loop_below names k is j fuel l n (suc shift) (omega (arith, at)) (omega arith) smaller
      ∙ ap (λ m. record { printed = l ++ set_names n es; good = n / 2 ^ m == 0 })
          {x = suc shift + j} {y = shift + suc j} (omega arith) in
    let end = n / 2 ^ (shift + suc j) == 0 in
    loop_bit names fuel s noted shift ∙ elim (Bool-cases (noted % 2 == 1)) [
      | inl set ↦
          ap (λ t. print_errors_loop names fuel t (noted / 2) (suc shift))
            (bit_named names printed (noted % 2) shift set (is shift ∙ ground (arith, at)))
          ∙ later (printed ++ (e ∷ []))
          ∙ ap (λ l. record { printed = l; good = end })
              (append_assoc printed (e ∷ []) (set_names n es)
                ∙ ap (λ l. printed ++ l) (sym (set_names-set n e es set)))
      | inr clear ↦
          ap (λ t. print_errors_loop names fuel t (noted / 2) (suc shift))
            (bit_clear names s (noted % 2) shift clear)
          ∙ later printed
          ∙ ap (λ l. record { printed = printed ++ l; good = end })
              (sym (set_names-clear n e es clear))
    ]

above_16 : (n : ℕ) → 16 < 2 ^ suc (suc (suc (suc (suc n))))
above_16 zero = omega arith
above_16 (suc n) = omega (arith, above_16 n)

above_32 : (n : ℕ) → 32 < 2 ^ suc (suc (suc (suc (suc (suc n)))))
above_32 zero = omega arith
above_32 (suc n) = omega (arith, above_32 n)

unnamed_data : (m : ℕ) → 16 < m → is_named data_names m ≡ false
unfolding is_named
unnamed_data m h = ground arith

unnamed_file_system : (m : ℕ) → 32 < m → is_named file_system_names m ≡ false
unfolding is_named
unnamed_file_system m h = ground arith

data_names-IsNames : IsNames 5 data_names
unfolding IsNames is_named
data_names-IsNames zero = refl
data_names-IsNames (suc zero) = refl
data_names-IsNames (suc (suc zero)) = refl
data_names-IsNames (suc (suc (suc zero))) = refl
data_names-IsNames (suc (suc (suc (suc zero)))) = refl
data_names-IsNames (suc (suc (suc (suc (suc n))))) = unnamed_data _ (above_16 n) ∙ ground arith

file_system_names-IsNames : IsNames 6 file_system_names
unfolding IsNames is_named
file_system_names-IsNames zero = refl
file_system_names-IsNames (suc zero) = refl
file_system_names-IsNames (suc (suc zero)) = refl
file_system_names-IsNames (suc (suc (suc zero))) = refl
file_system_names-IsNames (suc (suc (suc (suc zero)))) = refl
file_system_names-IsNames (suc (suc (suc (suc (suc zero))))) = refl
file_system_names-IsNames (suc (suc (suc (suc (suc (suc n)))))) =
    unnamed_file_system _ (above_32 n) ∙ ground arith

print_errors-Prints :
    (names : List ℕ) (k : ℕ) (printed : List ℕ) (n : ℕ)
    → IsNames k names
    → k ≤ 32
    → n < 2 ^ 32
    → print_errors names (record { printed = printed; good = true }) n
      ≡ record { printed = printed ++ set_names n (powers 0 k); good = n / 2 ^ (0 + k) == 0 }
unfolding print_errors Prints
print_errors-Prints names k printed n is enough small =
    ap (λ m. print_errors_loop names 32 (record { printed = printed; good = true }) m 0) {x = n}
      {y = n / 2 ^ 0} (omega arith)
    ∙ loop_below names k is k 32 printed n 0 (omega arith) enough (omega arith)

-- PrintErrors of any unsigned int, on a stream whose failbit is not set, prints exactly the names
-- of the errors whose bit is set, each once and in the order of their bits, and sets the failbit
-- exactly if a bit without a name is set, for DataTestResult with its five names and for
-- FileSystemTestResult with its six.
pub print_errors-set_names :
    (printed : List ℕ) (n : ℕ)
    → n < 2 ^ 32
    → (print_errors data_names (record { printed = printed; good = true }) n
        ≡ record { printed = printed ++ set_names n data_names; good = n / 32 == 0 })
      × (print_errors file_system_names (record { printed = printed; good = true }) n
          ≡ record { printed = printed ++ set_names n file_system_names; good = n / 64 == 0 })
unfolding powers
print_errors-set_names printed n small = (
  print_errors-Prints data_names 5 printed n data_names-IsNames (omega arith) small,
  print_errors-Prints file_system_names 6 printed n file_system_names-IsNames (omega arith) small,
)
