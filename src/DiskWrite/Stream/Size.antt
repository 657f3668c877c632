-- ===== src/DiskWrite/Stream/Size.antt =====
-- code/utils/utils.cpp: disk_write::serialize writes at least one byte.
use crashmonkey.Common.{
  ℕ, zero, suc, ◌/◌, ◌%◌, ◌≤◌, ◌<◌, ◌≡◌, refl, Option, none, some, [], ◌∷◌, length, arith, sym, ap,
  ◌∙◌, inl, inr, Option-cases,
}
use mathlib.Core.Option.{some-injective, none-ne-some}
use crashmonkey.DiskWrite.Meta.{OpMeta}
use crashmonkey.DiskWrite.{DiskWrite}
use crashmonkey.DiskWrite.Stream.{
  Bytes, newline, space, hex_digit, hex_digits, put_hex, put_data, put_meta, serialize,
}

length-hex_digits : (fuel n : ℕ) (rest : Bytes) → length rest ≤ length (hex_digits fuel n rest)
unfolding hex_digits
length-hex_digits zero n rest = omega arith
length-hex_digits (suc fuel) n rest =
    let more = length-hex_digits fuel (n / 16) (hex_digit (n % 16) ∷ rest) in ground (arith, more)

length-put_hex : (n : ℕ) (rest : Bytes) → length rest ≤ length (put_hex n rest)
unfolding put_hex
length-put_hex n rest = length-hex_digits 16 n rest

length-put_data :
    (size : ℕ) (d : Option Bytes) (rest : Bytes) {text : Bytes}
    → put_data size d rest ≡ some text
    → length rest ≤ length text
unfolding put_data
length-put_data zero d rest h = omega (arith, ap length (some-injective _ _ h))
length-put_data (suc n) none rest h = absurd (none-ne-some _ h)
length-put_data (suc n) (some []) rest h = absurd (none-ne-some _ h)
length-put_data (suc n) (some (b ∷ bs)) rest h = elim (Option-cases (put_data n (some bs) rest)) [
  | inl e ↦
      let failed : put_data (suc n) (some (b ∷ bs)) rest ≡ none = rw (e) refl in
      absurd (none-ne-some _ (sym failed ∙ h))
  | inr (t, e) ↦
      let put : put_data (suc n) (some (b ∷ bs)) rest ≡ some (b ∷ t) = rw (e) refl in
      omega
        (arith, length-put_data n (some bs) rest e, ap length (some-injective _ _ (sym put ∙ h)))
]

length-put_meta : (m : OpMeta) (rest : Bytes) → length rest ≤ length (put_meta m rest)
unfolding put_meta
length-put_meta m rest =
    let size = space ∷ put_hex m.size (space ∷ rest) in
    let sector = space ∷ put_hex m.write_sector size in
    let rw_flags = space ∷ put_hex m.bi_rw sector in
    omega (
      arith,
      length-put_hex m.bi_flags rw_flags,
      length-put_hex m.bi_rw sector,
      length-put_hex m.write_sector size,
      length-put_hex m.size (space ∷ rest),
    )

pub length-serialize :
    (w : DiskWrite) (rest : Bytes) {text : Bytes}
    → serialize w rest ≡ some text
    → length rest < length text
unfolding serialize
length-serialize w rest h =
    elim (Option-cases (put_data w.metadata.size w.data_ptr (newline ∷ rest))) [
      | inl e ↦
          let failed : serialize w rest ≡ none = rw (e) refl in
          absurd (none-ne-some _ (sym failed ∙ h))
      | inr (t, e) ↦
          let put : serialize w rest ≡ some (put_meta w.metadata t) = rw (e) refl in
          omega (
            arith,
            length-put_data w.metadata.size w.data_ptr (newline ∷ rest) e,
            length-put_meta w.metadata t,
            ap length (some-injective _ _ (sym put ∙ h)),
          )
    ]
