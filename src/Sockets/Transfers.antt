-- ===== src/Sockets/Transfers.antt =====
-- code/utils/communication/BaseSocket.cpp: integers and strings, sent and received.
use mathlib.Core.Path.{}
use mathlib.Core.List.{append_assoc}
use crashmonkey.Common.{
  ℕ, zero, suc, ◌+◌, ◌-◌, ◌*◌, ◌/◌, ◌%◌, ◌<◌, ◌≤◌, ◌≡◌, refl, sym, ap, ◌∙◌, true, ltb, lt→ltb, ◌==◌,
  ◌&&◌, some, [], ◌∷◌, ◌++◌, length, length-append, length-replicate, replicate, arith, All,
}
use crashmonkey.DiskWrite.Stream.{Bytes}
use crashmonkey.Sockets.{
  Fd, Net, ok, ◌>>=◌, recv_loop, send_loop, bytes_of_word, word_of_bytes, swap_word, swap_words,
  c_string, as_string, until_nul, round_up, gobble_data, read_int, write_int, read_string,
  write_chars, write_string,
}
use crashmonkey.Sockets.Words.{
  IsByte, swap_word-sent, length-bytes_of_word, bytes_of_word-swap_word, swap_words_twice,
}
use crashmonkey.Sockets.Loops.{IsRecv, IsSend, recv_loop-reads, send_loop-sends}

-- A word in network byte order.
unfoldable pub network_word : ℕ → Bytes
network_word w = w / 16777216 % 256 ∷ w / 65536 % 256 ∷ w / 256 % 256 ∷ w % 256 ∷ []

-- The characters of a string with NULs behind them, up to a multiple of four.
unfoldable pub padded : Bytes → Bytes
padded value = until_nul value ++ replicate (round_up (length value) - length (until_nul value)) 0

-- The string and its NUL have room in a buffer of that size.
unfoldable pub HasNul : Bytes → Type 0
HasNul value = length (until_nul value) < round_up (length value)

unfoldable pub IsSmall : Bytes → Type 0
IsSmall value = round_up (length value) < 2147483648

pub length-until_nul : (v : Bytes) → length (until_nul v) ≤ length v
unfolding until_nul
length-until_nul [] = omega arith
length-until_nul (zero ∷ v) = omega arith
length-until_nul (suc b ∷ v) = omega (arith, length-until_nul v)

pub until_nul-IsByte : (v : Bytes) → All IsByte v → All IsByte (until_nul v)
unfolding until_nul
until_nul-IsByte [] all = tt
until_nul-IsByte (zero ∷ v) all = tt
until_nul-IsByte (suc b ∷ v) (first, all) = (first, until_nul-IsByte v all)

padded_with-IsByte : (v : Bytes) (n : ℕ) → All IsByte v → All IsByte (v ++ replicate n 0)
unfolding IsByte
padded_with-IsByte [] zero all = tt
padded_with-IsByte [] (suc n) all = (omega arith, padded_with-IsByte [] n all)
padded_with-IsByte (b ∷ v) n (first, all) = (first, padded_with-IsByte v n all)

c_string-suc :
    (b : ℕ) (bs s : Bytes) → c_string bs ≡ some s → c_string (suc b ∷ bs) ≡ some (suc b ∷ s)
unfolding c_string
c_string-suc b bs s e = rw (e) refl

c_string-padded_with :
    (v : Bytes) (n : ℕ) → c_string (until_nul v ++ replicate (suc n) 0) ≡ some (until_nul v)
unfolding c_string until_nul
c_string-padded_with [] n = refl
c_string-padded_with (zero ∷ v) n = refl
c_string-padded_with (suc b ∷ v) n =
    c_string-suc b (until_nul v ++ replicate (suc n) 0) (until_nul v) (c_string-padded_with v n)

c_string-padded : (v : Bytes) → HasNul v → c_string (padded v) ≡ some (until_nul v)
unfolding HasNul padded
c_string-padded v room =
    ap (λ n. c_string (until_nul v ++ replicate n 0))
      {y = suc (round_up (length v) - length (until_nul v) - 1)} (omega arith)
    ∙ c_string-padded_with v (round_up (length v) - length (until_nul v) - 1)

length-padded : (v : Bytes) → HasNul v → length (padded v) ≡ round_up (length v)
unfolding HasNul padded
length-padded v room =
    length-append (until_nul v) (replicate (round_up (length v) - length (until_nul v)) 0)
    ∙ omega (arith, length-replicate {A = ℕ} (round_up (length v) - length (until_nul v)) 0)

pub round_up_lem : (n : ℕ) → round_up n ≡ 4 * ((n + 3) / 4)
unfolding round_up
round_up_lem n = omega arith

padded-IsByte : (v : Bytes) → All IsByte v → All IsByte (padded v)
unfolding padded
padded-IsByte v all =
    padded_with-IsByte (until_nul v) (round_up (length v) - length (until_nul v))
      (until_nul-IsByte v all)

swapped_back :
    (v : Bytes)
    → All IsByte v
    → HasNul v
    → (swap_words (swap_words (padded v)) ≡ padded v)
      × (length (swap_words (padded v)) ≡ round_up (length v))
swapped_back v all room =
    let (twice, long) =
      swap_words_twice ((length v + 3) / 4) (padded v)
        (length-padded v room ∙ round_up_lem (length v)) (padded-IsByte v all) in
    (twice, long ∙ sym (round_up_lem (length v)))

length-swapped :
    (chars : Bytes) (len n : ℕ)
    → All IsByte chars
    → len ≡ 4 * n
    → length chars < len
    → length (swap_words (chars ++ replicate (len - length chars) 0)) ≡ len
length-swapped chars len n bytes whole room =
    let (twice, long) =
      swap_words_twice n (chars ++ replicate (len - length chars) 0)
        (length-append chars (replicate (len - length chars) 0)
          ∙ omega (arith, length-replicate {A = ℕ} (len - length chars) 0))
        (padded_with-IsByte chars (len - length chars) bytes) in
    long ∙ sym whole

low_bits : (n : ℕ) → n < 2147483648 → n % 4294967296 ≡ n
low_bits n small = omega arith

module _ {S : Type 0} (net : Net S) where
  pub write_int-sends :
      {sent : S → ℕ → Bytes}
      → IsSend net sent
      → (s : S) (fd w : ℕ)
      → (s' : S) × (write_int net s (some fd) w ≡ ok (tt, s'))
        × (sent s' fd ≡ sent s fd ++ network_word w)
  unfolding write_int network_word
  write_int-sends {sent = sent} law s fd w =
      let d = bytes_of_word (swap_word w) in
      let long = length-bytes_of_word (swap_word w) in
      let (s', sends, ends) =
        send_loop-sends net law 5 s fd d 0 (omega (arith, long)) (omega arith) in
      (s', sends, ends ∙ ap (λ l. sent s fd ++ l) (bytes_of_word-swap_word w))

  pub read_int-reads :
      {pending : S → ℕ → Bytes}
      → IsRecv net pending
      → (s : S) (fd w : ℕ) (rest : Bytes) → w < 4294967296
      → pending s fd ≡ network_word w ++ rest
      → (s' : S) × (read_int net s (some fd) ≡ ok (w, s')) × (pending s' fd ≡ rest)
  unfolding read_int network_word
  read_int-reads law s fd w rest small waits =
      let d = bytes_of_word (swap_word w) in
      let long = length-bytes_of_word (swap_word w) in
      let (s', reads, ends) =
        recv_loop-reads net law 5 s fd 4 [] d rest (omega (arith, long)) (omega (arith, long))
          (omega arith) (waits ∙ ap (λ l. l ++ rest) (sym (bytes_of_word-swap_word w))) in
      (
        s',
        ap (λ o. o >>= (λ p. ok (swap_word (word_of_bytes p.0), p.1))) reads
            ∙ ap (λ n. ok (n, s')) (swap_word-sent w small),
        ends,
      )

  pub gobble_data-reads :
      {pending : S → ℕ → Bytes}
      → IsRecv net pending
      → (s : S) (fd len : ℕ) (junk rest : Bytes) → length junk ≡ len
      → len < 2147483648
      → pending s fd ≡ junk ++ rest
      → (s' : S) × (gobble_data net s (some fd) len ≡ ok (tt, s')) × (pending s' fd ≡ rest)
  unfolding gobble_data
  gobble_data-reads law s fd len junk rest long small waits =
      let (s', reads, ends) =
        recv_loop-reads net law (suc len) s fd len [] junk rest (omega (arith, long))
          (omega (arith, long)) small waits in
      (s', ap (λ o. o >>= (λ p. ok (tt, p.1))) reads, ends)

  read_string-whole :
      (s s1 : S) (fd : Fd) (len : ℕ) (d value : Bytes)
      → (len % 4 == 0) ≡ true
      → recv_loop net (suc len) s fd len [] ≡ ok (d, s1)
      → c_string (swap_words d) ≡ some value
      → read_string net s fd len ≡ ok (value, s1)
  unfolding read_string
  read_string-whole s s1 fd len d value whole reads chars =
      rw (whole, read_string)
        (ap (λ o. o >>= (λ p. as_string p.1 (c_string (swap_words p.0)))) reads
          ∙ ap (as_string s1) chars)

  pub read_string-reads :
      {pending : S → ℕ → Bytes}
      → IsRecv net pending
      → (s : S) (fd : ℕ) (value rest : Bytes) → All IsByte value
      → HasNul value
      → IsSmall value
      → pending s fd ≡ swap_words (padded value) ++ rest
      → (s' : S) × (read_string net s (some fd) (round_up (length value))
          ≡ ok (until_nul value, s'))
        × (pending s' fd ≡ rest)
  unfolding IsSmall
  read_string-reads law s fd value rest bytes room small waits =
      let len = round_up (length value) in
      let (twice, long) = swapped_back value bytes room in
      let (s', reads, ends) =
        recv_loop-reads net law (suc len) s fd len [] (swap_words (padded value)) rest
          (omega (arith, long)) (omega (arith, long)) small waits in
      (
        s',
        read_string-whole s s' (some fd) len (swap_words (padded value)) (until_nul value)
            (ground (arith, round_up_lem (length value))) reads
            (ap c_string twice ∙ c_string-padded value room),
        ends,
      )

  write_chars-whole :
      (s s1 s2 : S) (fd : Fd) (chars : Bytes) (len : ℕ)
      → (ltb len 2147483648 && ltb (length chars) len) ≡ true
      → write_int net s fd len ≡ ok (tt, s1)
      → send_loop net (suc len) s1 fd (swap_words (chars ++ replicate (len - length chars) 0)) 0
        ≡ ok (tt, s2)
      → write_chars net s fd chars len ≡ ok (tt, s2)
  unfolding write_chars
  write_chars-whole s s1 s2 fd chars len room size sends = rw (room, write_chars) (rw (size) sends)

  pub write_chars-sends :
      {sent : S → ℕ → Bytes}
      → IsSend net sent
      → (s : S) (fd : ℕ) (chars : Bytes) (len n : ℕ) → All IsByte chars
      → len ≡ 4 * n
      → len < 2147483648
      → length chars < len
      → (s' : S) × (write_chars net s (some fd) chars len ≡ ok (tt, s'))
        × (sent s' fd
            ≡ sent s fd
              ++ (network_word len ++ swap_words (chars ++ replicate (len - length chars) 0)))
  write_chars-sends {sent = sent} law s fd chars len n bytes whole small room =
      let d = swap_words (chars ++ replicate (len - length chars) 0) in
      let long = length-swapped chars len n bytes whole room in
      let (s1, size, ends1) = write_int-sends law s fd len in
      let (s2, sends, ends2) =
        send_loop-sends net law (suc len) s1 fd d 0 (omega (arith, long)) (omega arith) in
      (
        s2,
        write_chars-whole s s1 s2 (some fd) chars len
            (ap (λ b. b && ltb (length chars) len) (lt→ltb _ _ small) ∙ lt→ltb _ _ room) size sends,
        ends2 ∙ ap (λ l. l ++ d) ends1 ∙ append_assoc (sent s fd) (network_word len) d,
      )

  pub write_string-sends :
      {sent : S → ℕ → Bytes}
      → IsSend net sent
      → (s : S) (fd : ℕ) (value : Bytes) → All IsByte value
      → HasNul value
      → IsSmall value
      → (s' : S) × (write_string net s (some fd) value ≡ ok (tt, s'))
        × (sent s' fd
            ≡ sent s fd ++ (network_word (round_up (length value)) ++ swap_words (padded value)))
  unfolding write_string HasNul IsSmall padded
  write_string-sends law s fd value bytes room small =
      let len = round_up (length value) in
      let (s', sends, ends) =
        write_chars-sends law s fd (until_nul value) len ((length value + 3) / 4)
          (until_nul-IsByte value bytes) (round_up_lem (length value)) small room in
      (s', ap (write_chars net s (some fd) (until_nul value)) (low_bits len small) ∙ sends, ends)
