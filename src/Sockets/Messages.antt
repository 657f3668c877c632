-- ===== src/Sockets/Messages.antt =====
-- code/utils/communication/BaseSocket.cpp: messages as bytes, written and read.
use mathlib.Core.Path.{subst}
use mathlib.Core.List.{append_assoc, append-nil}
use crashmonkey.Common.{
  ℕ, ◌<◌, ◌≡◌, refl, sym, ap, ◌∙◌, false, ◌==◌, some, [], ◌∷◌, ◌++◌, length, arith, All,
}
use crashmonkey.DiskWrite.Stream.{Bytes}
use crashmonkey.Sockets.{
  Fd, Net, Io, ok, ◌>>=◌, swap_words, until_nul, round_up, gobble_data, read_int, CmCommand,
  harness_error, invalid_command, prepare, prepare_done, begin_log, begin_log_done, end_log,
  end_log_done, run_tests, run_tests_done, checkpoint, checkpoint_done, unnamed, code_of,
  command_of, Payload, nothing, text, refused, payload_of, SocketMessage, read_payload,
  read_message, write_payload, write_message,
}
use crashmonkey.Sockets.Words.{IsByte}
use crashmonkey.Sockets.Loops.{IsRecv, IsSend}
use crashmonkey.Sockets.Transfers.{
  network_word, padded, HasNul, IsSmall, write_int-sends, read_int-reads, gobble_data-reads,
  read_string-reads, write_string-sends,
}

-- What a message of each kind has behind its type: a size, and as many bytes.
unfoldable pub size_of : Bytes → Payload → ℕ
size_of value nothing = 0
size_of value text = round_up (length value)
size_of value refused = 0

unfoldable pub body_of : Bytes → Payload → Bytes
body_of value nothing = []
body_of value text = swap_words (padded value)
body_of value refused = []

unfoldable pub wire : SocketMessage → Bytes
wire m =
    let p = payload_of m.type in
    network_word (code_of m.type)
    ++ (network_word (size_of m.string_value p) ++ body_of m.string_value p)

-- A named command, and if it has a string, one of bytes with room for its NUL.
unfoldable pub CanSend : Bytes → Payload → Type 0
CanSend value nothing = Unit
CanSend value text = All IsByte value × HasNul value × IsSmall value
CanSend value refused = ⊥

-- What is received: a checkpoint's string ends at its first NUL, other messages leave the string as
-- it was.
unfoldable pub string_of : Bytes → Bytes → Payload → Bytes
string_of value old nothing = old
string_of value old text = until_nul value
string_of value old refused = old

unfoldable pub received : SocketMessage → SocketMessage → SocketMessage
received m old =
    let p = payload_of m.type in
    record {
      type = m.type;
      size = size_of m.string_value p;
      string_value = string_of m.string_value old.string_value p;
    }

command_of-code_of :
    (value : Bytes) (c : CmCommand)
    → CanSend value (payload_of c)
    → (command_of (code_of c) ≡ c) × (code_of c < 12)
unfolding command_of code_of payload_of CanSend
command_of-code_of value harness_error can = (refl, omega arith)
command_of-code_of value invalid_command can = (refl, omega arith)
command_of-code_of value prepare can = (refl, omega arith)
command_of-code_of value prepare_done can = (refl, omega arith)
command_of-code_of value begin_log can = (refl, omega arith)
command_of-code_of value begin_log_done can = (refl, omega arith)
command_of-code_of value end_log can = (refl, omega arith)
command_of-code_of value end_log_done can = (refl, omega arith)
command_of-code_of value run_tests can = (refl, omega arith)
command_of-code_of value run_tests_done can = (refl, omega arith)
command_of-code_of value checkpoint can = (refl, omega arith)
command_of-code_of value checkpoint_done can = (refl, omega arith)
command_of-code_of value (unnamed n) can = elim can [ ]

size_of-small : (value : Bytes) (p : Payload) → CanSend value p → size_of value p < 4294967296
unfolding size_of CanSend IsSmall
size_of-small value nothing can = omega arith
size_of-small value text (bytes, room, small) = omega arith
size_of-small value refused can = elim can [ ]

module _ {S : Type 0} (net : Net S) where
  write_payload-sends :
      {sent : S → ℕ → Bytes}
      → IsSend net sent
      → (s : S) (fd : ℕ) (m : SocketMessage) (p : Payload) → CanSend m.string_value p
      → (s' : S) × (write_payload net s (some fd) m p ≡ ok (tt, s'))
        × (sent s' fd
            ≡ sent s fd ++ (network_word (size_of m.string_value p) ++ body_of m.string_value p))
  unfolding write_payload size_of body_of CanSend
  write_payload-sends {sent = sent} law s fd m nothing can =
      let (s', sends, ends) = write_int-sends net law s fd 0 in
      (s', sends, ends ∙ ap (λ l. sent s fd ++ l) (sym (append-nil (network_word 0))))
  write_payload-sends law s fd m text (bytes, room, small) =
      write_string-sends net law s fd m.string_value bytes room small
  write_payload-sends law s fd m refused can = elim can [ ]

  pub write_message-sends :
      {sent : S → ℕ → Bytes}
      → IsSend net sent
      → (s : S) (fd : ℕ) (m : SocketMessage) → CanSend m.string_value (payload_of m.type)
      → (s' : S) × (write_message net s (some fd) m ≡ ok (tt, s'))
        × (sent s' fd ≡ sent s fd ++ wire m)
  unfolding write_message wire
  write_message-sends {sent = sent} law s fd m can =
      let p = payload_of m.type in
      let (s1, kind, ends1) = write_int-sends net law s fd (code_of m.type) in
      let (s2, rest, ends2) = write_payload-sends law s1 fd m p can in
      (
        s2,
        ap (λ o. o >>= (λ q. write_payload net q.1 (some fd) m p)) kind ∙ rest,
        ends2
            ∙ ap (λ l. l ++ (network_word (size_of m.string_value p) ++ body_of m.string_value p))
                ends1
            ∙ append_assoc (sent s fd) (network_word (code_of m.type))
                (network_word (size_of m.string_value p) ++ body_of m.string_value p),
      )

  read_payload-reads :
      {pending : S → ℕ → Bytes}
      → IsRecv net pending
      → (s : S) (fd : ℕ) (c : CmCommand) (value old rest : Bytes) (p : Payload) → CanSend value p
      → pending s fd ≡ body_of value p ++ rest
      → (s' : S) × (read_payload net s
            (some fd)
            (record { type = c; size = size_of value p; string_value = old })
            p
          ≡ ok (
            record { type = c; size = size_of value p; string_value = string_of value old p },
            s',
          ))
        × (pending s' fd ≡ rest)
  unfolding read_payload size_of body_of CanSend string_of
  read_payload-reads law s fd c value old rest nothing can waits = (s, refl, waits)
  read_payload-reads law s fd c value old rest text (bytes, room, small) waits =
      let (s', reads, ends) = read_string-reads net law s fd value rest bytes room small waits in
      (
        s',
        ap
            (λ o. o >>= (λ q.
              ok (record { type = c; size = round_up (length value); string_value = q.0 }, q.1)))
            reads,
        ends,
      )
  read_payload-reads law s fd c value old rest refused can waits = elim can [ ]

  read_message-step :
      (s s1 s2 : S) (fd : Fd) (old : SocketMessage) (t n : ℕ)
      → read_int net s fd ≡ ok (t, s1)
      → read_int net s1 fd ≡ ok (n, s2)
      → read_message net s fd old
        ≡ read_payload net s2 fd
            (record { type = command_of t; size = n; string_value = old.string_value })
            (payload_of (command_of t))
  unfolding read_message
  read_message-step s s1 s2 fd old t n e1 e2 = rw (e1, read_message) (rw (e2) refl)

  pub read_message-reads :
      {pending : S → ℕ → Bytes}
      → IsRecv net pending
      → (r : S) (fd : ℕ) (m old : SocketMessage) (rest : Bytes)
      → CanSend m.string_value (payload_of m.type)
      → pending r fd ≡ wire m ++ rest
      → (r' : S) × (read_message net r (some fd) old ≡ ok (received m old, r'))
        × (pending r' fd ≡ rest)
  unfolding wire received
  read_message-reads recvs r fd m old rest can waits =
      let value = m.string_value in
      let p = payload_of m.type in
      let (back, named) = command_of-code_of value m.type can in
      let body = body_of value p in
      let (r1, e1, waits1) =
        read_int-reads net recvs r fd (code_of m.type)
          (network_word (size_of value p) ++ (body ++ rest)) (omega arith)
          (waits
            ∙ append_assoc (network_word (code_of m.type)) (network_word (size_of value p) ++ body)
                rest
            ∙ ap (λ l. network_word (code_of m.type) ++ l)
                (append_assoc (network_word (size_of value p)) body rest)) in
      let (r2, e2, waits2) =
        read_int-reads net recvs r1 fd (size_of value p) (body ++ rest) (size_of-small value p can)
          waits1 in
      let (r3, e3, waits3) =
        read_payload-reads recvs r2 fd m.type value old.string_value rest p can waits2 in
      (
        r3,
        read_message-step r r1 r2 (some fd) old (code_of m.type) (size_of value p) e1 e2
            ∙ ap
                (λ c.
                  read_payload net r2 (some fd)
                    (record { type = c; size = size_of value p; string_value = old.string_value })
                    (payload_of c))
                back
            ∙ e3,
        waits3,
      )

  -- Over a stream that gives and takes its bytes in pieces of any size, WriteMessageToSocket sends
  -- exactly the bytes of `wire`, and where those bytes come in, ReadMessageFromSocket returns 0
  -- and leaves what is behind them unread: it has the type, the size that was sent, and for a
  -- checkpoint the string up to its first NUL, while other messages leave the reader's string as
  -- it was. The conditions: the type is a named command, and a checkpoint's string is of bytes,
  -- has room for its NUL, and its padded length is below 2^31, an `int`.
  pub read_message-write :
      {sent pending : S → ℕ → Bytes}
      → IsSend net sent
      → IsRecv net pending
      → (s r : S) (fd fd' : ℕ) (m old : SocketMessage) (rest : Bytes)
      → CanSend m.string_value (payload_of m.type)
      → pending r fd' ≡ wire m ++ rest
      → ((s' : S) × (write_message net s (some fd) m ≡ ok (tt, s'))
          × (sent s' fd ≡ sent s fd ++ wire m))
        × ((r' : S) × (read_message net r (some fd') old ≡ ok (received m old, r'))
            × (pending r' fd' ≡ rest))
  read_message-write sends recvs s r fd fd' m old rest can waits =
      (write_message-sends sends s fd m can, read_message-reads recvs r fd' m old rest can waits)

  read_payload-extra :
      (s s' : S) (fd : Fd) (m : SocketMessage)
      → (m.size == 0) ≡ false
      → gobble_data net s fd m.size ≡ ok (tt, s')
      → read_payload net s fd m nothing ≡ ok (m, s')
  unfolding read_payload
  read_payload-extra s s' fd m more e =
      rw (more, read_payload) (ap (λ o. o >>= (λ q. ok (m, q.1))) e)

  read_payload-gobble :
      {pending : S → ℕ → Bytes}
      → IsRecv net pending
      → (s : S) (fd : ℕ) (c : CmCommand) (old junk rest : Bytes) → length junk < 2147483648
      → pending s fd ≡ junk ++ rest
      → (s' : S) × (read_payload net s
            (some fd)
            (record { type = c; size = length junk; string_value = old })
            nothing
          ≡ ok (record { type = c; size = length junk; string_value = old }, s'))
        × (pending s' fd ≡ rest)
  unfolding read_payload
  read_payload-gobble recvs s fd c old [] rest small waits = (s, refl, waits)
  read_payload-gobble recvs s fd c old (b ∷ junk) rest small waits =
      let (s', reads, ends) =
        gobble_data-reads net recvs s fd (length (b ∷ junk)) (b ∷ junk) rest refl small waits in
      (
        s',
        read_payload-extra s s' (some fd)
            (record { type = c; size = length (b ∷ junk); string_value = old }) (ground arith)
            reads,
        ends,
      )

  -- A message that should have no data and has some is read all the same: ReadMessageFromSocket
  -- returns 0, with the type and the size that were sent, and throws away the data and nothing
  -- behind it, if its length is below 2^31, where the reader's `int` ends.
  pub read_message-gobble :
      {pending : S → ℕ → Bytes}
      → IsRecv net pending
      → (r : S) (fd : ℕ) (c : CmCommand) (old : SocketMessage) (junk rest : Bytes)
      → payload_of c ≡ nothing
      → length junk < 2147483648
      → pending r fd ≡ network_word (code_of c) ++ (network_word (length junk) ++ (junk ++ rest))
      → (r' : S) × (read_message net r (some fd) old
          ≡ ok (record { type = c; size = length junk; string_value = old.string_value }, r'))
        × (pending r' fd ≡ rest)
  unfolding CanSend
  read_message-gobble recvs r fd c old junk rest plain small waits =
      let can : CanSend [] (payload_of c) = subst (λ p. CanSend [] p) (sym plain) tt in
      let (back, named) = command_of-code_of [] c can in
      let (r1, e1, waits1) =
        read_int-reads net recvs r fd (code_of c) (network_word (length junk) ++ (junk ++ rest))
          (omega arith) waits in
      let (r2, e2, waits2) =
        read_int-reads net recvs r1 fd (length junk) (junk ++ rest) (omega arith) waits1 in
      let (r3, e3, waits3) =
        read_payload-gobble recvs r2 fd c old.string_value junk rest small waits2 in
      let read : CmCommand → Payload → Io S SocketMessage = λ d p.
        read_payload net r2 (some fd)
          (record { type = d; size = length junk; string_value = old.string_value }) p in
      (
        r3,
        read_message-step r r1 r2 (some fd) old (code_of c) (length junk) e1 e2
            ∙ ap (λ d. read d (payload_of d)) back
            ∙ ap (read c) plain
            ∙ e3,
        waits3,
      )
