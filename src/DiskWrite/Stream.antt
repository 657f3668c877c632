-- ===== src/DiskWrite/Stream.antt =====
-- code/utils/utils.cpp: disk_write::serialize and disk_write::deserialize. A stream is the list of
-- its bytes. `none` stands for an assertion that fails, a null pointer that is read, or a stream in
-- a failed state. A number is read as a run of hexadecimal digits (no sign and no 0x in front).
pub mod RoundTrip
pub mod Size
use crashmonkey.Common.{
  ℕ, zero, suc, ◌+◌, ◌-◌, ◌*◌, ◌/◌, ◌%◌, ◌^◌, Bool, ◌&&◌, ◌||◌, ◌==◌, ltb, leb, if◌then◌else◌,
  ◌>>=◌, Option, none, some, List, [], ◌∷◌,
}
use crashmonkey.DiskWrite.Meta.{OpMeta}
use crashmonkey.DiskWrite.{DiskWrite, make}

abbrev pub Bytes : Type 0
Bytes = List ℕ

abbrev pub space : ℕ
space = 32

abbrev pub newline : ℕ
newline = 10

-- `std::hex`: lower case, no base in front.
pub hex_digit : ℕ → ℕ
hex_digit d = if ltb d 10 then 48 + d else 87 + d

-- The digits of n in front of the rest; a word has at most 16.
pub hex_digits : ℕ → ℕ → Bytes → Bytes
hex_digits zero n rest = rest
hex_digits (suc fuel) n rest =
    let more = hex_digits fuel (n / 16) (hex_digit (n % 16) ∷ rest) in
    if ltb n 16 then hex_digit n ∷ rest else more

-- `fs << n`, with what is written after it.
pub put_hex : ℕ → Bytes → Bytes
put_hex n rest = hex_digits 16 n rest

pub digit_value : ℕ → Option ℕ
digit_value c =
    if leb 48 c && leb c 57
    then some (c - 48)
    else if leb 97 c && leb c 102
    then some (c - 87)
    else if leb 65 c && leb c 70
    then some (c - 55)
    else none

pub is_space : ℕ → Bool
is_space c = c == 32 || leb 9 c && leb c 13

-- `std::skipws`
pub skip_spaces : Bytes → Bytes
skip_spaces [] = []
skip_spaces (c ∷ cs) = if is_space c then skip_spaces cs else c ∷ cs

pub read_digits : ℕ → Bytes → ℕ × Bytes
read_digits v [] = (v, [])
read_digits v (c ∷ cs) = elim (digit_value c) [
  | none ↦ (v, c ∷ cs)
  | some d ↦ read_digits (v * 16 + d) cs
]

-- The number that starts here, if it fits the type of `width` bits.
pub number_at : ℕ → Bytes → Option (ℕ × Bytes)
number_at width [] = none
number_at width (c ∷ cs) = elim (digit_value c) [
  | none ↦ none
  | some d ↦ let (v, rest) = read_digits d cs in if ltb v (2 ^ width) then some (v, rest) else none
]

-- `is >> n`
pub get_hex : ℕ → Bytes → Option (ℕ × Bytes)
get_hex width s = number_at width (skip_spaces s)

-- `is.get(nl); assert(nl == c)`
pub expect : ℕ → Bytes → Option Bytes
expect c [] = none
expect c (b ∷ bs) = if b == c then some bs else none

-- `is.read(data, n)`
pub read_bytes : ℕ → Bytes → Option (Bytes × Bytes)
read_bytes zero s = some ([], s)
read_bytes (suc n) [] = none
read_bytes (suc n) (b ∷ bs) = do (d, rest) ← read_bytes n bs; some (b ∷ d, rest)

-- The loop that writes `size` bytes of the buffer, with what is written after it.
pub put_data : ℕ → Option Bytes → Bytes → Option Bytes
put_data zero d rest = some rest
put_data (suc n) none rest = none
put_data (suc n) (some []) rest = none
put_data (suc n) (some (b ∷ bs)) rest = do text ← put_data n (some bs) rest; some (b ∷ text)

-- The four numbers of a line, each with a space behind it.
pub put_meta : OpMeta → Bytes → Bytes
put_meta m rest = put_hex m.bi_flags (
    space
    ∷ put_hex m.bi_rw (space ∷ put_hex m.write_sector (space ∷ put_hex m.size (space ∷ rest))))

-- `serialize`, with what is written after it.
pub serialize : DiskWrite → Bytes → Option Bytes
serialize w rest = do
  text ← put_data w.metadata.size w.data_ptr (newline ∷ rest)
  some (put_meta w.metadata text)

-- `deserialize`, with what is left of the stream.
pub deserialize : Bytes → Option (DiskWrite × Bytes)
deserialize s = do
  (bi_flags, s) ← get_hex 64 s
  (bi_rw, s) ← get_hex 64 s
  (write_sector, s) ← get_hex 64 s
  (size, s) ← get_hex 32 s
  s ← expect space s
  (bytes, s) ← read_bytes size s
  s ← expect newline s
  let meta : OpMeta = record {
    bi_flags = bi_flags;
    bi_rw = bi_rw;
    write_sector = write_sector;
    size = size;
  }
  some (make meta (some bytes), s)
