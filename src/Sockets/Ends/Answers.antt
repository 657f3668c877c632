-- ===== src/Sockets/Ends/Answers.antt =====
-- code/utils/communication/ClientCommandSender.cpp: Run over a connection whose other end answers.
use mathlib.Core.Path.{subst}
use crashmonkey.Common.{ℕ, ◌≡◌, sym, ap, ◌∙◌, true, false, ◌==◌, some, [], ◌++◌, ◌>>=◌}
use crashmonkey.DiskWrite.Stream.{Bytes}
use crashmonkey.Sockets.{
  Net, ok, CmCommand, code_of, nothing, payload_of, SocketMessage, write_message,
}
use crashmonkey.Sockets.Loops.{IsRecv, IsSend}
use crashmonkey.Sockets.Messages.{CanSend, wire, received, write_message-sends, read_message-reads}
use crashmonkey.Sockets.Ends.{
  client_init, client_send_message, client_wait_for_message, sent_status, read_status,
  command_message, right_answer, wrong_answer, no_connection, not_sent, compare_answer, is_sent,
  await_answer, run_connected, run,
}

module _ {S : Type 0} (net : Net S) where
  -- If Init returns 0 and the other end answers the command that ClientCommandSender::Run sends,
  -- which is a command without data, with any message that can be sent, whose padded length is
  -- below 2^31, Run takes that message from the stream and nothing behind it, and returns 1 if its
  -- type is `return_command`, and 0 otherwise.
  pub run-answers :
      {sent pending : S → ℕ → Bytes}
      → IsSend net sent
      → IsRecv net pending
      → (s s1 : S) (f : ℕ) (send_command return_command : CmCommand) (ret reply : SocketMessage)
        (rest : Bytes)
      → client_init net s ≡ (true, some f, s1)
      → payload_of send_command ≡ nothing
      → CanSend reply.string_value (payload_of reply.type)
      → ((s2 : S)
          → write_message net s1 (some f) (command_message send_command) ≡ ok (tt, s2)
          → pending s2 f ≡ wire reply ++ rest)
      → (s3 : S) × (run net send_command return_command ret s
          ≡ some (
            (elim (code_of reply.type == code_of return_command) [
              | true ↦ right_answer
              | false ↦ wrong_answer
            ]),
            s3,
          ))
        × (pending s3 f ≡ rest)
  unfolding run run_connected client_send_message sent_status is_sent await_answer
      client_wait_for_message read_status compare_answer CanSend received
  run-answers sends recvs s s1 f send_command return_command ret reply rest init plain can peer =
      let can_send : CanSend [] (payload_of send_command) =
        subst (λ p. CanSend [] p) (sym plain) tt in
      let (s2, wrote, ends2) =
        write_message-sends net sends s1 f (command_message send_command) can_send in
      let (s3, reads, ends3) =
        read_message-reads net recvs s2 f reply ret rest can (peer s2 wrote) in
      (
        s3,
        ap
              (λ c. elim c.0 [
                | false ↦ some (no_connection, c.2)
                | true ↦ run_connected net send_command return_command ret c.2 c.1
              ])
              init
            ∙ ap
                (λ o. sent_status o >>= (λ p. elim (is_sent p.0) [
                  | false ↦ some (not_sent, p.1)
                  | true ↦ await_answer net return_command ret p.1 (some f)
                ]))
                wrote
            ∙ ap (λ o. read_status o >>= (λ p. some (compare_answer return_command p.1, p.2)))
                reads,
        ends3,
      )
