-- ===== src/Sockets.antt =====
-- code/utils/communication/BaseSocket.cpp: the loops around send and recv, integers and strings in
-- network byte order, and messages. The kernel's calls are the parameter Net; `none` is their -1.
pub mod Words
pub mod Ends
pub mod Loops
pub mod Transfers
pub mod Messages
pub mod Bounds
use crashmonkey.Common.{
  ℕ, zero, suc, ◌+◌, ◌-◌, ◌*◌, ◌/◌, ◌%◌, Bool, true, false, ◌==◌, ◌&&◌, ltb, if◌then◌else◌, Option,
  none, some, List, [], ◌∷◌, ◌++◌, length, drop, replicate, get_or,
}
use crashmonkey.DiskWrite.Stream.{Bytes}

-- A file descriptor; `none` is -1.
abbrev pub Fd : Type 0
Fd = Option ℕ

pub record Net (S : Type 0) : Type 0 where
  pub socket : S → Fd × S
  pub connect : S → Fd → Bool × S
  pub bind : S → Fd → Bool × S
  pub listen : S → Fd → ℕ → Bool × S
  pub accept : S → Fd → Fd × S
  pub close : S → Fd → S
  pub send : S → Fd → Bytes → Option ℕ × S
  pub recv : S → Fd → ℕ → Option Bytes × S

-- What a call comes to: a result, -1, or `stuck`: an access past the end of an array, an `int` that
-- overflows, an array of negative length, or a loop whose fuel ran out.
pub data Io (S A : Type 0) : Type 0 where
  ok : A × S → Io S A
  failed : S → Io S A
  stuck : Io S A

infixl 5 ◌>>=◌
abbrev pub ◌>>=◌ : {S A B : Type 0} → Io S A → (A × S → Io S B) → Io S B
ok p >>= f = f p
failed s >>= f = failed s
stuck >>= f = stuck

-- The bytes of a 32-bit word in memory, lowest first, and back.
unfoldable pub bytes_of_word : ℕ → Bytes
bytes_of_word w = w % 256 ∷ w / 256 % 256 ∷ w / 65536 % 256 ∷ w / 16777216 % 256 ∷ []

unfoldable pub word_of_bytes : Bytes → ℕ
word_of_bytes [] = 0
word_of_bytes (b ∷ bs) = b + 256 * word_of_bytes bs

-- htonl and ntohl.
unfoldable pub swap_word : ℕ → ℕ
swap_word w =
    w % 256 * 16777216 + w / 256 % 256 * 65536 + w / 65536 % 256 * 256 + w / 16777216 % 256

-- The loop that swaps each word of a string whose length is a multiple of four.
unfoldable pub swap_words : Bytes → Bytes
swap_words (a ∷ b ∷ c ∷ d ∷ rest) =
    bytes_of_word (swap_word (word_of_bytes (a ∷ b ∷ c ∷ d ∷ []))) ++ swap_words rest
swap_words rest = rest

-- What a char* stands for: the bytes in front of the first NUL, and none if the array has no NUL.
unfoldable pub c_string : Bytes → Option Bytes
c_string [] = none
c_string (zero ∷ bs) = some []
c_string (suc b ∷ bs) = elim (c_string bs) [ none ↦ none | some s ↦ some (suc b ∷ s) ]

-- What strcpy copies of a std::string's c_str(), which has a NUL behind its end.
unfoldable pub until_nul : Bytes → Bytes
until_nul [] = []
until_nul (zero ∷ bs) = []
until_nul (suc b ∷ bs) = suc b ∷ until_nul bs

-- (n + 3) & ~3
unfoldable pub round_up : ℕ → ℕ
round_up n = (n + 3) / 4 * 4

-- What recv or send returned, with its `res < 0`.
abbrev pub answered : {S A : Type 0} → Option A × S → Io S A
answered (none, s) = failed s
answered (some a, s) = ok (a, s)

-- `*data = read_string`, which reads on where there is no NUL.
abbrev pub as_string : {S : Type 0} → S → Option Bytes → Io S Bytes
as_string s none = stuck
as_string s (some value) = ok (value, s)

module _ {S : Type 0} (net : Net S) where
  -- `do { … } while (bytes_read < len)`, with the bytes read so far, whose number
  -- is an `int`.
  unfoldable pub recv_loop : ℕ → S → Fd → ℕ → Bytes → Io S Bytes
  recv_loop zero s fd len got = stuck
  recv_loop (suc fuel) s fd len got = do
    (d, s') ← answered (net.recv s fd (len - length got))
    elim (ltb (length (got ++ d)) 2147483648) [
      | false ↦ stuck
      | true ↦ elim (ltb (length (got ++ d)) len) [
        | true ↦ recv_loop fuel s' fd len (got ++ d)
        | false ↦ ok (got ++ d, s')
      ]
    ]

  -- `do { … } while (bytes_written < …)`.
  unfoldable pub send_loop : ℕ → S → Fd → Bytes → ℕ → Io S Unit
  send_loop zero s fd d written = stuck
  send_loop (suc fuel) s fd d written = do
    (res, s') ← answered (net.send s fd (drop written d))
    elim (ltb (written + res) (length d)) [
      | true ↦ send_loop fuel s' fd d (written + res)
      | false ↦ ok (tt, s')
    ]

  unfoldable pub gobble_data : S → Fd → ℕ → Io S Unit
  gobble_data s fd len = do (d, s') ← recv_loop (suc len) s fd len []; ok (tt, s')

  unfoldable pub read_int : S → Fd → Io S ℕ
  read_int s fd = do (d, s') ← recv_loop 5 s fd 4 []; ok (swap_word (word_of_bytes d), s')

  unfoldable pub write_int : S → Fd → ℕ → Io S Unit
  write_int s fd n = send_loop 5 s fd (bytes_of_word (swap_word n)) 0

  unfoldable pub read_string : S → Fd → ℕ → Io S Bytes
  read_string s fd len = elim (len % 4 == 0) [
    | false ↦ failed s
    | true ↦ do (d, s') ← recv_loop (suc len) s fd len []; as_string s' (c_string (swap_words d))
  ]

  -- WriteStringToSocket with its `len`: from 2^31 on the `int` is negative, and strcpy needs a
  -- place for the NUL behind the characters.
  unfoldable pub write_chars : S → Fd → Bytes → ℕ → Io S Unit
  write_chars s fd chars len = elim (ltb len 2147483648 && ltb (length chars) len) [
    | false ↦ stuck
    | true ↦ do
      (u, s') ← write_int s fd len
      send_loop (suc len) s' fd (swap_words (chars ++ replicate (len - length chars) 0)) 0
  ]

  -- `const int len` keeps the low 32 bits.
  unfoldable pub write_string : S → Fd → Bytes → Io S Unit
  write_string s fd value =
      write_chars s fd (until_nul value) (round_up (length value) % 4294967296)

-- SocketMessage::CmCommand, an enum over uint32_t, which may hold other values, too.
pub data CmCommand : Type 0 where
  harness_error : CmCommand
  invalid_command : CmCommand
  prepare : CmCommand
  prepare_done : CmCommand
  begin_log : CmCommand
  begin_log_done : CmCommand
  end_log : CmCommand
  end_log_done : CmCommand
  run_tests : CmCommand
  run_tests_done : CmCommand
  checkpoint : CmCommand
  checkpoint_done : CmCommand
  unnamed : ℕ → CmCommand

unfoldable pub code_of : CmCommand → ℕ
code_of harness_error = 0
code_of invalid_command = 1
code_of prepare = 2
code_of prepare_done = 3
code_of begin_log = 4
code_of begin_log_done = 5
code_of end_log = 6
code_of end_log_done = 7
code_of run_tests = 8
code_of run_tests_done = 9
code_of checkpoint = 10
code_of checkpoint_done = 11
code_of (unnamed n) = n

abbrev pub commands : List CmCommand
commands =
    harness_error ∷ invalid_command ∷ prepare ∷ prepare_done ∷ begin_log ∷ begin_log_done ∷ end_log
    ∷ end_log_done ∷ run_tests ∷ run_tests_done ∷ checkpoint ∷ checkpoint_done ∷ []

-- What the enum holds after an integer was stored into it.
unfoldable pub command_of : ℕ → CmCommand
command_of n = get_or commands n (unnamed n)

-- The cases of the two switches: a message without data, one with a string, or `default`.
pub data Payload : Type 0 where
  nothing : Payload
  text : Payload
  refused : Payload

unfoldable pub payload_of : CmCommand → Payload
payload_of checkpoint = text
payload_of (unnamed n) = refused
payload_of c = nothing

-- SocketMessage, without its `int_value`, which nothing uses.
pub record SocketMessage : Type 0 where
  pub type : CmCommand
  pub size : ℕ
  pub string_value : Bytes

module _ {S : Type 0} (net : Net S) where
  -- The switch of ReadMessageFromSocket.
  unfoldable pub read_payload : S → Fd → SocketMessage → Payload → Io S SocketMessage
  read_payload s fd m nothing = elim (m.size == 0) [
    | true ↦ ok (m, s)
    | false ↦ do (u, s') ← gobble_data net s fd m.size; ok (m, s')
  ]
  read_payload s fd m text = do
    (value, s') ← read_string net s fd m.size
    ok (record m { string_value = value }, s')
  read_payload s fd m refused = failed s

  unfoldable pub read_message : S → Fd → SocketMessage → Io S SocketMessage
  read_message s fd m = do
    (t, s1) ← read_int net s fd
    (n, s2) ← read_int net s1 fd
    read_payload s2 fd (record m { type = command_of t; size = n }) (payload_of (command_of t))

  -- The switch of WriteMessageToSocket.
  unfoldable pub write_payload : S → Fd → SocketMessage → Payload → Io S Unit
  write_payload s fd m nothing = write_int net s fd 0
  write_payload s fd m text = write_string net s fd m.string_value
  write_payload s fd m refused = failed s

  unfoldable pub write_message : S → Fd → SocketMessage → Io S Unit
  write_message s fd m = do
    (u, s1) ← write_int net s fd (code_of m.type)
    write_payload s1 fd m (payload_of m.type)
