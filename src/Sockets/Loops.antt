-- ===== src/Sockets/Loops.antt =====
-- code/utils/communication/BaseSocket.cpp: what the loops around send and recv do over a stream
-- that takes and gives its bytes in pieces of any size.
use mathlib.Core.Path.{}
use mathlib.Core.List.{append_assoc, append-nil}
use crashmonkey.Common.{
  ℕ, zero, suc, ◌+◌, ◌-◌, ◌<◌, ◌≤◌, ◌≡◌, refl, sym, ap, ◌∙◌, inl, inr, Bool, true, false, ltb,
  ltb→lt, lt→ltb, Bool-cases, some, [], ◌∷◌, ◌++◌, length, length-append, take, drop,
  take-append-drop, length-drop, arith,
}
use crashmonkey.DiskWrite.Stream.{Bytes}
use crashmonkey.Sockets.{Fd, Net, Io, ok, stuck, recv_loop, send_loop}

head_or : ℕ → Bytes → ℕ
head_or n [] = n
head_or n (b ∷ bs) = b

-- A piece that is not longer is a prefix.
pub append-prefix :
    (d p bytes rest : Bytes)
    → d ++ p ≡ bytes ++ rest
    → length d ≤ length bytes
    → (b : Bytes) × (bytes ≡ d ++ b) × (p ≡ b ++ rest)
unfolding head_or
append-prefix [] p bytes rest e short = (bytes, refl, e)
append-prefix (x ∷ d) p [] rest e short = absurd (omega arith)
append-prefix (x ∷ d) p (y ∷ bytes) rest e short =
    let (b, e1, e2) = append-prefix d p bytes rest (ap (drop 1) e) (omega arith) in
    (b, (λ i. head_or x (sym e i) ∷ e1 i), e2)

drop-nil : (n : ℕ) → drop {A = ℕ} n [] ≡ []
drop-nil zero = refl
drop-nil (suc n) = refl

drop-add : (w k : ℕ) (d : Bytes) → drop (w + k) d ≡ drop k (drop w d)
drop-add zero k d = ap (λ n. drop n d) {y = k} (omega arith)
drop-add (suc w) zero [] = drop-nil (suc w + zero)
drop-add (suc w) (suc k) [] = drop-nil (suc w + suc k)
drop-add (suc w) k (x ∷ d) =
    ap (λ n. drop n (x ∷ d)) {y = suc (w + k)} (omega arith) ∙ drop-add w k d

nothing_left :
    (b got : Bytes) (len : ℕ) → length got + length b ≡ len → ltb (length got) len ≡ false → b ≡ []
nothing_left [] got len sizes last = refl
nothing_left (x ∷ b) got len sizes last = absurd (ground (arith, sizes, last))

drop_all : (n : ℕ) (d : Bytes) → ltb n (length d) ≡ false → drop n d ≡ []
drop_all n [] last = drop-nil n
drop_all zero (x ∷ d) last = absurd (ground (arith, last))
drop_all (suc n) (x ∷ d) last = drop_all n d (ground (arith, last))

module _ {S : Type 0} (net : Net S) where
  -- recv gives at least one and at most n of the next bytes, where n are on their way.
  pub record IsRecv (pending : S → ℕ → Bytes) : Type 0 where
    pub recv_some :
        (s : S) (fd n : ℕ)
        → n ≤ length (pending s fd)
        → (d : Bytes) × (s' : S) × (net.recv s (some fd) n ≡ (some d, s'))
          × (length d ≤ n)
          × (0 < n → 0 < length d)
          × (pending s fd ≡ d ++ pending s' fd)

  -- send takes at least one of the bytes, if it is given any.
  pub record IsSend (sent : S → ℕ → Bytes) : Type 0 where
    pub send_some :
        (s : S) (fd : ℕ) (d : Bytes)
        → (k : ℕ) × (s' : S) × (net.send s (some fd) d ≡ (some k, s'))
          × (k ≤ length d)
          × (0 < length d → 0 < k)
          × (sent s' fd ≡ sent s fd ++ take k d)

  recv_loop-step :
      (fuel : ℕ) (s s1 : S) (fd : Fd) (len : ℕ) (got d : Bytes)
      → length (got ++ d) < 2147483648
      → net.recv s fd (len - length got) ≡ (some d, s1)
      → recv_loop net (suc fuel) s fd len got ≡ (elim (ltb (length (got ++ d)) len) [
        | true ↦ recv_loop net fuel s1 fd len (got ++ d)
        | false ↦ ok (got ++ d, s1)
      ])
  unfolding recv_loop
  recv_loop-step fuel s s1 fd len got d fits e =
      rw (e, recv_loop)
        (ap
          (λ b. elim b [
            | false ↦ stuck
            | true ↦ elim (ltb (length (got ++ d)) len) [
              | true ↦ recv_loop net fuel s1 fd len (got ++ d)
              | false ↦ ok (got ++ d, s1)
            ]
          ])
          (lt→ltb _ _ fits))

  send_loop-step :
      (fuel : ℕ) (s s1 : S) (fd : Fd) (d : Bytes) (written k : ℕ)
      → net.send s fd (drop written d) ≡ (some k, s1)
      → send_loop net (suc fuel) s fd d written ≡ (elim (ltb (written + k) (length d)) [
        | true ↦ send_loop net fuel s1 fd d (written + k)
        | false ↦ ok (tt, s1)
      ])
  unfolding send_loop
  send_loop-step fuel s s1 fd d written k e = rw (e, send_loop) refl

  pub recv_loop-reads :
      {pending : S → ℕ → Bytes}
      → IsRecv pending
      → (fuel : ℕ) (s : S) (fd len : ℕ) (got bytes rest : Bytes) → length bytes < fuel
      → length got + length bytes ≡ len
      → len < 2147483648
      → pending s fd ≡ bytes ++ rest
      → (s' : S) × (recv_loop net fuel s (some fd) len got ≡ ok (got ++ bytes, s'))
        × (pending s' fd ≡ rest)
  recv_loop-reads law zero s fd len got bytes rest room sum small waits = absurd (omega arith)
  recv_loop-reads {pending = pending} law (suc fuel) s fd len got bytes rest room sum small waits =
      let enough : len - length got ≤ length (pending s fd) =
        omega (arith, sum, ap length waits, length-append bytes rest) in
      let (d, s1, e, at_most, progress, takes) = law.recv_some s fd (len - length got) enough in
      let (b, split, left) =
        append-prefix d (pending s1 fd) bytes rest (sym takes ∙ waits)
          (omega (arith, sum, at_most)) in
      let whole : (got ++ d) ++ b ≡ got ++ bytes =
        append_assoc got d b ∙ ap (λ l. got ++ l) (sym split) in
      let sizes : length (got ++ d) + length b ≡ len =
        omega (arith, sum, ap length split, length-append d b, length-append got d) in
      let fits : length (got ++ d) < 2147483648 = omega (arith, sizes, small) in
      elim (Bool-cases (ltb (length (got ++ d)) len)) [
        | inl more ↦
            let some_left = ltb→lt _ _ more in
            let shorter : length b < fuel = omega (
              arith,
              room,
              sum,
              ap length split,
              length-append d b,
              length-append got d,
              some_left,
              progress,
            ) in
            let (s', reads, ends) =
              recv_loop-reads law fuel s1 fd len (got ++ d) b rest shorter sizes small left in
            (
              s',
              recv_loop-step fuel s s1 (some fd) len got d fits e
                  ∙ ap
                      (λ b. elim (b) [
                        | true ↦ recv_loop net fuel s1 (some fd) len (got ++ d)
                        | false ↦ ok (got ++ d, s1)
                      ])
                      more
                  ∙ reads
                  ∙ ap (λ l. ok (l, s')) whole,
              ends,
            )
        | inr last ↦
            let empty : b ≡ [] = nothing_left b (got ++ d) len sizes last in
            (
              s1,
              recv_loop-step fuel s s1 (some fd) len got d fits e
                  ∙ ap
                      (λ b. elim (b) [
                        | true ↦ recv_loop net fuel s1 (some fd) len (got ++ d)
                        | false ↦ ok (got ++ d, s1)
                      ])
                      last
                  ∙ ap (λ l. ok (l, s1))
                      (sym (append-nil (got ++ d)) ∙ ap (λ l. (got ++ d) ++ l) (sym empty) ∙ whole),
              left ∙ ap (λ l. l ++ rest) empty,
            )
      ]

  pub send_loop-sends :
      {sent : S → ℕ → Bytes}
      → IsSend sent
      → (fuel : ℕ) (s : S) (fd : ℕ) (d : Bytes) (written : ℕ) → length d < fuel + written
      → written ≤ length d
      → (s' : S) × (send_loop net fuel s (some fd) d written ≡ ok (tt, s'))
        × (sent s' fd ≡ sent s fd ++ drop written d)
  send_loop-sends law zero s fd d written room inside = absurd (omega arith)
  send_loop-sends {sent = sent} law (suc fuel) s fd d written room inside =
      let (k, s1, e, at_most, progress, takes) = law.send_some s fd (drop written d) in
      let left = length-drop written d in
      let rest : take k (drop written d) ++ drop (written + k) d ≡ drop written d =
        ap (λ l. take k (drop written d) ++ l) (drop-add written k d)
        ∙ take-append-drop k (drop written d) in
      let all : sent s1 fd ++ drop (written + k) d ≡ sent s fd ++ drop written d =
        ap (λ l. l ++ drop (written + k) d) takes
        ∙ append_assoc (sent s fd) (take k (drop written d)) (drop (written + k) d)
        ∙ ap (λ l. sent s fd ++ l) rest in
      let next : Bool → Io S Unit = λ b. elim (b) [
        | true ↦ send_loop net fuel s1 (some fd) d (written + k)
        | false ↦ ok (tt, s1)
      ] in
      elim (Bool-cases (ltb (written + k) (length d))) [
        | inl more ↦
            let (s', sends, ends) =
              send_loop-sends law fuel s1 fd d (written + k)
                (omega (arith, room, left, progress, ltb→lt _ _ more))
                (omega (arith, ltb→lt _ _ more)) in
            (
              s',
              send_loop-step fuel s s1 (some fd) d written k e ∙ ap next more ∙ sends,
              ends ∙ all,
            )
        | inr last ↦
            let empty : drop (written + k) d ≡ [] = drop_all (written + k) d last in
            (
              s1,
              send_loop-step fuel s s1 (some fd) d written k e ∙ ap next last,
              sym (append-nil (sent s1 fd)) ∙ ap (λ l. sent s1 fd ++ l) (sym empty) ∙ all,
            )
      ]
