-- ===== src/Sockets/Bounds.antt =====
-- code/utils/communication/BaseSocket.cpp, where the code goes wrong: strings whose NUL has no room,
-- and a connection that the other side has closed.
use mathlib.Core.List.{append-nil}
use mathlib.Core.Bool.{false≢true}
use crashmonkey.Common.{
  ℕ, zero, suc, ◌+◌, ◌-◌, ◌*◌, ◌/◌, ◌%◌, ◌<◌, ◌≤◌, ◌≡◌, ◌⊎◌, ◌&&◌, ◌↔◌, refl, sym, ap, ◌∙◌, inl,
  inr, Bool, true, false, ltb, ltb→lt, lt→ltb, Bool-cases, some, [], ◌∷◌, ◌++◌, length, arith, All,
}
use crashmonkey.DiskWrite.Stream.{Bytes}
use crashmonkey.Sockets.{
  Fd, Net, Io, ok, failed, stuck, answered, ◌>>=◌, recv_loop, until_nul, round_up, write_chars,
  write_string,
}
use crashmonkey.Sockets.Words.{IsByte}
use crashmonkey.Sockets.Loops.{IsSend}
use crashmonkey.Sockets.Transfers.{length-until_nul, until_nul-IsByte, write_chars-sends}

is_stuck : {S A : Type 0} → Io S A → Bool
is_stuck (ok p) = false
is_stuck (failed s) = false
is_stuck stuck = true

round_up-bound : (n : ℕ) → (n ≤ round_up n) × (round_up n < n + 4)
unfolding round_up
round_up-bound n = (omega arith, omega arith)

is_stuck-inv : {S A : Type 0} (o : Io S A) → is_stuck o ≡ false → ¬ (o ≡ stuck)
unfolding is_stuck
is_stuck-inv o ends e = false≢true (sym ends ∙ ap is_stuck e)

round_up-fits : (n : ℕ) → round_up n ≡ n → n % 4 ≡ 0
unfolding round_up
round_up-fits n e = omega arith

round_up-whole : (n : ℕ) → n % 4 ≡ 0 → round_up n ≡ n
unfolding round_up
round_up-whole n e = omega arith

until_nul-all : (v : Bytes) → length v ≤ length (until_nul v) → until_nul v ≡ v
unfolding until_nul
until_nul-all [] long = refl
until_nul-all (zero ∷ v) long = absurd (omega arith)
until_nul-all (suc b ∷ v) long = ap (λ l. suc b ∷ l) (until_nul-all v (omega arith))

-- Half of the remainders of 2^32 are negative as an `int`.
abbrev wrapped : Bytes → ℕ
wrapped value = round_up (length value) % 4294967296

-- The multiple of four that is kept of a length of whole words.
wrapped-whole : (value : Bytes) → wrapped value ≡ 4 * (wrapped value / 4)
unfolding round_up
wrapped-whole value = omega arith

-- When a string is too long for `send_data`, or `send_data` has a negative length.
Overruns : Bytes → Type 0
Overruns value =
    (2147483648 ≤ wrapped value)
    ⊎ ((length value % 4 ≡ 0) × (until_nul value ≡ value))
    ⊎ ((4294967296 ≤ round_up (length value)) × (wrapped value ≤ length (until_nul value)))

Overruns-negative : (value : Bytes) → (ltb (wrapped value) 2147483648 ≡ false) → Overruns value
unfolding Overruns
Overruns-negative value e = inl (ground (arith, e))

Overruns-full :
    (value : Bytes) → (ltb (length (until_nul value)) (wrapped value) ≡ false) → Overruns value
unfolding Overruns
Overruns-full value full =
    let (low, high) = round_up-bound (length value) in
    let short = length-until_nul value in
    elim (Bool-cases (ltb (round_up (length value)) 4294967296)) [
      | inr long ↦ inr (inr (ground (arith, long), ground (arith, full)))
      | inl fits ↦
          let all : round_up (length value) ≤ length (until_nul value) =
            ground (arith, fits, full) in
          inr (
            inl (
              round_up-fits (length value) (omega (arith, all, low, short)),
              until_nul-all value (omega (arith, all, low)),
            ))
    ]

Overruns-no_room :
    (value : Bytes)
    → Overruns value
    → wrapped value < 2147483648
    → ¬ (length (until_nul value) < wrapped value)
unfolding Overruns
Overruns-no_room value (inl negative) small room = omega (arith, negative, small)
Overruns-no_room value (inr (inl (whole, all))) small room =
    omega (arith, round_up-whole (length value) whole, ap length all, room)
Overruns-no_room value (inr (inr (long, full))) small room = omega (arith, full, room)

either_stuck :
    {S A : Type 0} (b : Bool) → (elim b as (λ _. Io S A) [ false ↦ stuck | true ↦ stuck ]) ≡ stuck
either_stuck false = refl
either_stuck true = refl

module _ {S : Type 0} (net : Net S) where
  write_chars-overruns :
      (s : S) (fd : Fd) (chars : Bytes) (len : ℕ)
      → (ltb len 2147483648 && ltb (length chars) len) ≡ false
      → write_chars net s fd chars len ≡ stuck
  unfolding write_chars
  write_chars-overruns s fd chars len full = rw (full, write_chars) refl

  write_string-overruns :
      (s : S) (fd : Fd) (value : Bytes)
      → (ltb (wrapped value) 2147483648 && ltb (length (until_nul value)) (wrapped value)) ≡ false
      → write_string net s fd value ≡ stuck
  unfolding write_string
  write_string-overruns s fd value full =
      write_chars-overruns s fd (until_nul value) (wrapped value) full

  write_string-fits :
      {sent : S → ℕ → Bytes}
      → IsSend net sent
      → (s : S) (fd : ℕ) (value : Bytes) → All IsByte value
      → wrapped value < 2147483648
      → length (until_nul value) < wrapped value
      → ¬ (write_string net s (some fd) value ≡ stuck)
  unfolding write_string is_stuck
  write_string-fits law s fd value bytes small room =
      let (s', sends, ends) =
        write_chars-sends net law s fd (until_nul value) (wrapped value) (wrapped value / 4)
          (until_nul-IsByte value bytes) (wrapped-whole value) small room in
      is_stuck-inv (write_string net s (some fd) value) (ap is_stuck sends)

  -- Over a stream that takes its bytes in pieces of any size, WriteStringToSocket goes wrong
  -- exactly if the length of its string, a string of bytes, is a multiple of four and no byte of
  -- it is NUL, so that strcpy writes past the end of `send_data`, or the padded length does not
  -- fit its `int len`: the low 32 bits are negative, or they are less than what strcpy writes.
  pub write_string-overruns_iff :
      {sent : S → ℕ → Bytes}
      → IsSend net sent
      → (s : S) (fd : ℕ) (value : Bytes) → All IsByte value
      → (write_string net s (some fd) value ≡ stuck) ↔ (
          (2147483648 ≤ round_up (length value) % 4294967296)
          ⊎ ((length value % 4 ≡ 0) × (until_nul value ≡ value))
          ⊎ ((4294967296 ≤ round_up (length value))
              × (round_up (length value) % 4294967296 ≤ length (until_nul value))))
  unfolding Overruns
  write_string-overruns_iff law s fd value bytes =
      elim (Bool-cases (ltb (wrapped value) 2147483648)) [
        | inr negative ↦ (
          λ e. Overruns-negative value negative,
          λ h.
              write_string-overruns s (some fd) value
                (ap (λ b. b && ltb (length (until_nul value)) (wrapped value)) negative),
        )
        | inl small ↦ elim (Bool-cases (ltb (length (until_nul value)) (wrapped value))) [
          | inr full ↦ (
            λ e. Overruns-full value full,
            λ h.
                write_string-overruns s (some fd) value
                  (ap (λ b. b && ltb (length (until_nul value)) (wrapped value)) small ∙ full),
          )
          | inl room ↦
              let is_small = ltb→lt _ _ small in
              let has_room = ltb→lt _ _ room in
              (
                λ e. absurd (write_string-fits law s fd value bytes is_small has_room e),
                λ h. absurd (Overruns-no_room value h is_small has_room),
              )
        ]
      ]

  -- Where the other end has closed the connection, so that recv returns 0 from now on, the loop
  -- around recv does not end before it has all bytes it waits for: no amount of fuel is enough.
  pub recv_loop-closed :
      (s : S) (fd : Fd) (len : ℕ) (got : Bytes)
      → ((n : ℕ) → net.recv s fd n ≡ (some [], s))
      → length got < len
      → (fuel : ℕ) → recv_loop net fuel s fd len got ≡ stuck
  unfolding recv_loop
  recv_loop-closed s fd len got closed room zero = refl
  recv_loop-closed s fd len got closed room (suc fuel) =
      let next : Bytes × S → Bool → Io S Bytes = λ p b. elim b [
        | true ↦ recv_loop net fuel p.1 fd len (got ++ p.0)
        | false ↦ ok (got ++ p.0, p.1)
      ] in
      let fitting : Io S Bytes → Bool → Io S Bytes = λ o b. elim b [ false ↦ stuck | true ↦ o ] in
      ap
        (λ p. answered p >>= (λ q.
          fitting (next q (ltb (length (got ++ q.0)) len)) (ltb (length (got ++ q.0)) 2147483648)))
        (closed (len - length got))
      ∙ ap
          (λ l.
            fitting
              (elim (ltb (length l) len) [
                | true ↦ recv_loop net fuel s fd len l
                | false ↦ ok (l, s)
              ])
              (ltb (length l) 2147483648))
          (append-nil got)
      ∙ ap
          (λ b.
            fitting (elim b [ true ↦ recv_loop net fuel s fd len got | false ↦ ok (got, s) ])
              (ltb (length got) 2147483648))
          (lt→ltb _ _ room)
      ∙ ap (λ o. fitting o (ltb (length got) 2147483648))
          (recv_loop-closed s fd len got closed room fuel)
      ∙ either_stuck (ltb (length got) 2147483648)
