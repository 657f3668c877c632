-- ===== src/Sockets/Ends.antt =====
-- code/utils/communication: the two ends of a connection, ClientSocket and ServerSocket, and
-- ClientCommandSender::Run. A result `none` is `stuck`; the message of a failed read is left out.
pub mod Serve
pub mod Answers
use crashmonkey.Common.{ℕ, Bool, true, false, ◌==◌, Option, none, some, [], ◌>>=◌}
use crashmonkey.Sockets.{
  Fd, Net, Io, ok, failed, stuck, CmCommand, code_of, SocketMessage, read_message, write_message,
}

pub data SocketError : Type 0 where
  no_error : SocketError
  syscall : SocketError
  wrong_type : SocketError
  already_connected : SocketError
  not_connected : SocketError

unfoldable pub sent_status : {S A : Type 0} → Io S A → Option (SocketError × S)
sent_status (ok (a, s)) = some (no_error, s)
sent_status (failed s) = some (syscall, s)
sent_status stuck = none

unfoldable pub read_status :
    {S : Type 0} → Io S SocketMessage → Option (SocketError × Option SocketMessage × S)
read_status (ok (m, s)) = some (no_error, some m, s)
read_status (failed s) = some (syscall, none, s)
read_status stuck = none

-- The message that SendCommand builds; its string is empty.
abbrev pub command_message : CmCommand → SocketMessage
command_message c = record { type = c; size = 0; string_value = [] }

-- ServerSocket; ClientSocket has only its `socket_fd`.
pub record ServerSocket : Type 0 where
  pub server_socket : Fd
  pub client_socket : Fd

module _ {S : Type 0} (net : Net S) where
  -- ClientSocket::Init: whether it returns 0, and `socket_fd`.
  unfoldable pub client_init : S → Bool × Fd × S
  client_init s =
      let (fd, s1) = net.socket s in
      elim fd [
        | none ↦ (false, none, s1)
        | some f ↦ let (connected, s2) = net.connect s1 (some f) in (connected, some f, s2)
      ]

  unfoldable pub client_send_message : S → Fd → SocketMessage → Option (SocketError × S)
  client_send_message s none m = some (not_connected, s)
  client_send_message s (some f) m = sent_status (write_message net s (some f) m)

  unfoldable pub client_wait_for_message :
      S → Fd → SocketMessage → Option (SocketError × Option SocketMessage × S)
  client_wait_for_message s fd m = read_status (read_message net s fd m)

  unfoldable pub close_client : S → Fd → Fd × S
  close_client s fd = (none, net.close s fd)

  -- ServerSocket::Init.
  unfoldable pub server_init : S → ServerSocket → ℕ → Bool × ServerSocket × S
  server_init s sv queue_depth =
      let (fd, s1) = net.socket s in
      elim fd [
        | none ↦ (false, record sv { server_socket = none }, s1)
        | some f ↦
            let (bound, s2) = net.bind s1 (some f) in
            elim bound [
              | false ↦ (false, record sv { server_socket = some f }, s2)
              | true ↦
                  let (listens, s3) = net.listen s2 (some f) queue_depth in
                  (listens, record sv { server_socket = some f }, s3)
            ]
      ]

  -- It looks at `server_socket`, and writes to `client_socket`. The second argument is
  -- `server_socket`.
  unfoldable pub send_to_client : S → Fd → Fd → SocketMessage → Option (SocketError × S)
  send_to_client s none fd m = some (not_connected, s)
  send_to_client s (some f) fd m = sent_status (write_message net s fd m)

  unfoldable pub server_send_message : S → ServerSocket → SocketMessage → Option (SocketError × S)
  server_send_message s sv m = send_to_client s sv.server_socket sv.client_socket m

  -- What accept returned is kept as `client_socket`, also where the read fails.
  unfoldable pub read_from :
      S
      → ServerSocket
      → SocketMessage
      → Fd
      → Option (SocketError × Option SocketMessage × ServerSocket × S)
  read_from s sv m none = some (syscall, none, record sv { client_socket = none }, s)
  read_from s sv m (some f) = do
    (err, got, s') ← read_status (read_message net s (some f) m)
    some (err, got, record sv { client_socket = some f }, s')

  unfoldable pub accept_and_read :
      S
      → ServerSocket
      → SocketMessage
      → Option (SocketError × Option SocketMessage × ServerSocket × S)
  accept_and_read s sv m = let (fd, s1) = net.accept s sv.server_socket in read_from s1 sv m fd

  -- ServerSocket::WaitForMessage, with `client_socket` as an argument of its own.
  unfoldable pub wait_with :
      S
      → ServerSocket
      → Fd
      → SocketMessage
      → Option (SocketError × Option SocketMessage × ServerSocket × S)
  wait_with s sv (some f) m = some (already_connected, none, sv, s)
  wait_with s sv none m = accept_and_read s sv m

  unfoldable pub server_wait_for_message :
      S
      → ServerSocket
      → SocketMessage
      → Option (SocketError × Option SocketMessage × ServerSocket × S)
  server_wait_for_message s sv m = wait_with s sv sv.client_socket m

  unfoldable pub server_close_client : S → ServerSocket → ServerSocket × S
  server_close_client s sv = (record sv { client_socket = none }, net.close s sv.client_socket)

  unfoldable pub close_server : S → ServerSocket → ServerSocket × S
  close_server s sv = (
    record { server_socket = none; client_socket = none },
    net.close (net.close s sv.client_socket) sv.server_socket,
  )

-- What ClientCommandSender::Run returns: -1, -2, -3, 0 or 1.
pub data RunResult : Type 0 where
  no_connection : RunResult
  not_sent : RunResult
  no_answer : RunResult
  wrong_answer : RunResult
  right_answer : RunResult

unfoldable pub compare_answer : CmCommand → Option SocketMessage → RunResult
compare_answer want none = no_answer
compare_answer want (some ret) = elim (code_of ret.type == code_of want) [
  | true ↦ right_answer
  | false ↦ wrong_answer
]

unfoldable pub is_sent : SocketError → Bool
is_sent no_error = true
is_sent err = false

module _ {S : Type 0} (net : Net S) where
  unfoldable pub await_answer : CmCommand → SocketMessage → S → Fd → Option (RunResult × S)
  await_answer want ret s fd = do
    (err, got, s') ← client_wait_for_message net s fd ret
    some (compare_answer want got, s')

  -- Run, once Init has returned 0.
  unfoldable pub run_connected :
      CmCommand → CmCommand → SocketMessage → S → Fd → Option (RunResult × S)
  run_connected send_command return_command ret s fd = do
    (err, s') ← client_send_message net s fd (command_message send_command)
    elim (is_sent err) [
      | false ↦ some (not_sent, s')
      | true ↦ await_answer return_command ret s' fd
    ]

  -- ClientCommandSender::Run; `ret` is the message on the stack before it is read into.
  unfoldable pub run : CmCommand → CmCommand → SocketMessage → S → Option (RunResult × S)
  run send_command return_command ret s =
      let (connected, fd, s1) = client_init net s in
      elim connected [
        | false ↦ some (no_connection, s1)
        | true ↦ run_connected send_command return_command ret s1 fd
      ]
