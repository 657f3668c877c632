-- ===== src/DiskWrite/Stream/RoundTrip.antt =====
-- code/utils/utils.cpp: a disk_write that the constructor built comes back from its text.
use crashmonkey.Common.{
  Bool-cases, ℕ, zero, suc, ◌+◌, ◌*◌, ◌/◌, ◌%◌, ◌^◌, ◌≤◌, ◌<◌, ◌≡◌, refl, ap, sym, ◌∙◌, inl, inr,
  false, ltb, lt→ltb, Option, none, some, List, [], ◌∷◌, length, take, arith,
}
use native.Mathlib.Nat.{pow-suc}
use crashmonkey.DiskWrite.Meta.{OpMeta}
use crashmonkey.DiskWrite.{DiskWrite, make}
use crashmonkey.DiskWrite.Stream.{
  Bytes, space, newline, hex_digit, hex_digits, put_hex, digit_value, is_space, skip_spaces,
  read_digits, number_at, get_hex, expect, read_bytes, put_data, put_meta, serialize, deserialize,
}

-- The buffer of a disk_write of that size: null if it is empty.
abbrev pub Holds : ℕ → Option Bytes → Type 0
Holds size none = size ≡ 0
Holds size (some d) = (0 < size) × (length d ≡ size)

digit_value-hex_digit : (d : ℕ) → d < 16 → digit_value (hex_digit d) ≡ some d
unfolding digit_value hex_digit
digit_value-hex_digit d h = ground arith

is_space-hex_digit : (d : ℕ) → d < 16 → is_space (hex_digit d) ≡ false
unfolding is_space hex_digit
is_space-hex_digit d h = ground arith

read_digits-hex_digit :
    (v d : ℕ) (rest : Bytes)
    → d < 16
    → read_digits v (hex_digit d ∷ rest) ≡ read_digits (v * 16 + d) rest
unfolding read_digits
read_digits-hex_digit v d rest h = rw (digit_value-hex_digit d h, read_digits)

read_digits-hex_digits :
    (fuel n : ℕ) (rest : Bytes)
    → n < 16 ^ fuel
    → read_digits 0 (hex_digits fuel n rest) ≡ read_digits n rest
unfolding hex_digits
read_digits-hex_digits zero n rest h = ground arith
read_digits-hex_digits (suc fuel) n rest h = elim (Bool-cases (ltb n 16)) [
  | inl small ↦
      rw small
        (read_digits-hex_digit 0 n rest (ground arith) ∙ ap (λ v. read_digits v rest) (omega arith))
  | inr large ↦ rw large (
      read_digits-hex_digits fuel (n / 16) (hex_digit (n % 16) ∷ rest)
        (omega (arith, pow-suc 16 fuel))
      ∙ read_digits-hex_digit (n / 16) (n % 16) rest (omega arith)
      ∙ ap (λ v. read_digits v rest) (omega arith))
]

-- The text of a number begins with a digit.
StartsWithDigit : Bytes → Type 0
StartsWithDigit s = (d : ℕ) × (tail : Bytes) × (s ≡ hex_digit d ∷ tail) × (d < 16)

hex_digits-StartsWithDigit :
    (fuel n : ℕ) (rest : Bytes) → n < 16 ^ suc fuel → StartsWithDigit (hex_digits (suc fuel) n rest)
unfolding hex_digits StartsWithDigit
hex_digits-StartsWithDigit zero n rest h = (n, rest, rw (lt→ltb n 16 (omega arith)), omega arith)
hex_digits-StartsWithDigit (suc fuel) n rest h = elim (Bool-cases (ltb n 16)) [
  | inl small ↦ (n, rest, rw small, ground arith)
  | inr large ↦ rw large (
      hex_digits-StartsWithDigit fuel (n / 16) (hex_digit (n % 16) ∷ rest)
        (omega (arith, pow-suc 16 (suc fuel))))
]

-- No digit follows.
abbrev Ends : Bytes → Type 0
Ends s = (v : ℕ) → read_digits v s ≡ (v, s)

space-Ends : (s : Bytes) → Ends (space ∷ s)
unfolding read_digits digit_value
space-Ends s v = refl

get_hex_of_digit :
    (width n : ℕ) (s rest : Bytes)
    → StartsWithDigit s
    → read_digits 0 s ≡ (n, rest)
    → n < 2 ^ width
    → get_hex width s ≡ some (n, rest)
unfolding get_hex number_at skip_spaces StartsWithDigit
get_hex_of_digit width n s rest (d, tail, e, small) read fits =
    let value : read_digits d tail ≡ (n, rest) =
      ap (λ v. read_digits v tail) (omega arith)
      ∙ sym (read_digits-hex_digit 0 d tail small)
      ∙ ap (read_digits 0) (sym e)
      ∙ read in
    rw (e, is_space-hex_digit d small, skip_spaces)
      (rw (digit_value-hex_digit d small, number_at)
        (rw value (rw (lt→ltb n (2 ^ width) fits) refl)))

-- Reading a number that was written gives it back.
get_hex-put_hex :
    (width n : ℕ) (rest : Bytes)
    → width ≤ 64
    → n < 2 ^ width
    → n < 2 ^ 64
    → get_hex width (put_hex n (space ∷ rest)) ≡ some (n, space ∷ rest)
unfolding put_hex
get_hex-put_hex width n rest hw fits word =
    get_hex_of_digit width n _ (space ∷ rest) (hex_digits-StartsWithDigit 15 n (space ∷ rest) word)
      (read_digits-hex_digits 16 n (space ∷ rest) word ∙ space-Ends rest n) fits

-- A disk_write as the constructor leaves it: a buffer of `size` bytes, or none if there are none,
-- and fields that fit their types.
pub record IsBuilt (w : DiskWrite) : Type 0 where
  pub flags_word : w.metadata.bi_flags < 2 ^ 64
  pub rw_word : w.metadata.bi_rw < 2 ^ 64
  pub sector_word : w.metadata.write_sector < 2 ^ 64
  pub size_word : w.metadata.size < 2 ^ 32
  pub buffer : Holds w.metadata.size w.data_ptr

put_data-Holds :
    (size : ℕ) (d rest : Bytes)
    → length d ≡ size
    → (text : Bytes) × (put_data size (some d) rest ≡ some text)
      × (read_bytes size text ≡ some (d, rest))
unfolding put_data read_bytes
put_data-Holds zero [] rest e = (rest, refl, refl)
put_data-Holds zero (b ∷ d) rest e = absurd (omega arith)
put_data-Holds (suc size) [] rest e = absurd (omega arith)
put_data-Holds (suc size) (b ∷ d) rest e =
    let (text, put, read) = put_data-Holds size d rest (omega arith) in
    (b ∷ text, rw put refl, rw read refl)

take_all {ℓ} : {A : Type ℓ} (n : ℕ) (xs : List A) → length xs ≡ n → take n xs ≡ xs
take_all zero [] e = refl
take_all zero (x ∷ xs) e = absurd (omega arith)
take_all (suc n) [] e = absurd (omega arith)
take_all (suc n) (x ∷ xs) e = ap (λ t. x ∷ t) (take_all n xs (omega arith))

-- The data part of a line, and what the constructor makes of it.
buffer_back :
    (m : OpMeta) (p : Option Bytes) (rest : Bytes)
    → Holds m.size p
    → (text : Bytes) × (bytes : Bytes) × (put_data m.size p rest ≡ some text)
      × (read_bytes m.size text ≡ some (bytes, rest))
      × (make m (some bytes) ≡ record { metadata = m; data_ptr = p })
unfolding make put_data read_bytes
buffer_back m none rest e = (rest, [], rw e refl, rw e refl, ground (arith, e))
buffer_back m (some d) rest (pos, e) =
    let (text, put, read) = put_data-Holds m.size d rest e in
    (text, d, put, read, rw (lt→ltb 0 m.size pos, take_all m.size d e) refl)

get_hex-space : (width : ℕ) (s : Bytes) → get_hex width (space ∷ s) ≡ get_hex width s
unfolding get_hex skip_spaces is_space
get_hex-space width s = refl

-- What serialize writes for a disk_write as the constructor leaves it (fields that fit their
-- types, a buffer of size bytes or none for size 0), deserialize reads back: the same disk_write,
-- with whatever follows in the stream left unread.
pub deserialize-serialize :
    (w : DiskWrite) (rest : Bytes)
    → IsBuilt w
    → (text : Bytes) × (serialize w rest ≡ some text) × (deserialize text ≡ some (w, rest))
unfolding put_meta serialize deserialize expect
deserialize-serialize w rest v =
    let (text, bytes, put, read, built) =
      buffer_back w.metadata w.data_ptr (newline ∷ rest) v.buffer in
    (
      put_meta w.metadata text,
      rw put refl,
      rw
          (
            get_hex-put_hex 64 w.metadata.bi_flags _ (omega arith) v.flags_word v.flags_word,
            get_hex-space 64 _,
            get_hex-put_hex 64 w.metadata.bi_rw _ (omega arith) v.rw_word v.rw_word,
            get_hex-space 64 _,
            get_hex-put_hex 64 w.metadata.write_sector _ (omega arith) v.sector_word v.sector_word,
            get_hex-space 32 _,
            get_hex-put_hex 32 w.metadata.size _ (omega arith) v.size_word
                (omega (arith, v.size_word)),
          )
          (rw read (rw built refl)),
    )
