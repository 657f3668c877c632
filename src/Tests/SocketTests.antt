-- ===== src/Tests/SocketTests.antt =====
-- A connection that takes and gives at most three bytes at a time, and the theorems on sockets at it.
use crashmonkey.Common.{
  ℕ, suc, ◌≡◌, ◌↔◌, ◌≤◌, ◌⊎◌, refl, sym, ap, true, none, some, [], ◌∷◌, ◌++◌, length, take, drop,
  take-append-drop, length-take, arith, All, ◌%◌, zero,
}
use Prim.Native.Nat.{min}
use crashmonkey.DiskWrite.Stream.{Bytes}
use crashmonkey.Sockets.{
  Net, Io, ok, failed, stuck, prepare, prepare_done, checkpoint, code_of, command_of, payload_of,
  SocketMessage, read_message, write_message, write_string, recv_loop, until_nul, round_up,
  bytes_of_word, word_of_bytes, swap_word, send_loop, read_int, write_int, read_payload,
  write_payload,
}
use crashmonkey.Sockets.Words.{IsByte}
use crashmonkey.Sockets.Loops.{IsRecv, IsSend}
use crashmonkey.Sockets.Transfers.{network_word, HasNul, IsSmall}
use crashmonkey.Sockets.Messages.{
  CanSend, wire, received, size_of, body_of, read_message-write, read_message-gobble,
}
use crashmonkey.Sockets.Bounds.{write_string-overruns_iff, recv_loop-closed}
use crashmonkey.Sockets.Ends.{
  wait_with, read_from, read_status, ServerSocket, no_error, already_connected,
  server_wait_for_message, server_close_client, accept_and_read, run, right_answer, client_init,
  command_message,
}
use crashmonkey.Sockets.Ends.Serve.{server_wait_for_message-once}
use crashmonkey.Sockets.Ends.Answers.{run-answers}

record Wire : Type 0 where
  gone : Bytes
  coming : Bytes

unfoldable three : Net Wire
three = record {
  socket = λ s. (some 3, s);
  connect = λ s fd. (true, s);
  bind = λ s fd. (true, s);
  listen = λ s fd n. (true, s);
  accept = λ s fd. (some 4, s);
  close = λ s fd. s;
  send =
      λ s fd d. (some (min 3 (length d)), record s { gone = s.gone ++ take (min 3 (length d)) d });
  recv = λ s fd n. (some (take (min 3 n) s.coming), record s { coming = drop (min 3 n) s.coming });
}

gone_of : Wire → ℕ → Bytes
gone_of s fd = s.gone

coming_of : Wire → ℕ → Bytes
coming_of s fd = s.coming

three-IsSend : IsSend three gone_of
unfolding three gone_of
three-IsSend = record {
  send_some = λ s fd d. (
    min 3 (length d),
    record s { gone = s.gone ++ take (min 3 (length d)) d },
    refl,
    omega arith,
    λ h. omega arith,
    refl,
  );
}

three-IsRecv : IsRecv three coming_of
unfolding three coming_of
three-IsRecv = record {
  recv_some = λ s fd n enough.
      let long = length-take (min 3 n) s.coming in
      (
        take (min 3 n) s.coming,
        record s { coming = drop (min 3 n) s.coming },
        refl,
        omega (arith, long),
        λ h. omega (arith, long),
        sym (take-append-drop (min 3 n) s.coming),
      );
}

-- The checkpoint "abcde", on its way with four bytes behind it.
abbrev hello : SocketMessage
hello = record { type = checkpoint; size = 0; string_value = 97 ∷ 98 ∷ 99 ∷ 100 ∷ 101 ∷ [] }

abbrev blank : SocketMessage
blank = record { type = prepare; size = 7; string_value = [] }

idle : Bytes → Wire
idle bytes = record { gone = []; coming = bytes }

hello-CanSend : CanSend hello.string_value (payload_of hello.type)
unfolding CanSend payload_of IsByte HasNul IsSmall until_nul round_up
hello-CanSend = (
  (omega arith, (omega arith, (omega arith, (omega arith, (omega arith, tt))))),
  omega arith,
  omega arith,
)

read_message-write_example :
    ((s' : Wire) × (write_message three (idle []) (some 3) hello ≡ ok (tt, s'))
      × (gone_of s' 3 ≡ gone_of (idle []) 3 ++ wire hello))
    × ((r' : Wire) × (read_message three (idle (wire hello ++ (1 ∷ 2 ∷ []))) (some 4) blank
          ≡ ok (received hello blank, r'))
        × (coming_of r' 4 ≡ 1 ∷ 2 ∷ []))
unfolding coming_of idle
read_message-write_example =
    read_message-write three three-IsSend three-IsRecv (idle []) (idle (wire hello ++ (1 ∷ 2 ∷ [])))
      3 4 hello blank (1 ∷ 2 ∷ []) hello-CanSend refl

abbrev two_bytes : Bytes
two_bytes = network_word 2 ++ (network_word 2 ++ ((9 ∷ 9 ∷ []) ++ (5 ∷ [])))

read_message-gobble_example :
    (r' : Wire) × (read_message three (idle two_bytes) (some 3) blank
      ≡ ok (record { type = prepare; size = 2; string_value = [] }, r'))
    × (coming_of r' 3 ≡ 5 ∷ [])
unfolding coming_of idle payload_of code_of
read_message-gobble_example =
    read_message-gobble three three-IsRecv (idle two_bytes) 3 prepare blank (9 ∷ 9 ∷ []) (5 ∷ [])
      refl (omega arith) refl

abbrev four : Bytes
four = 97 ∷ 98 ∷ 99 ∷ 100 ∷ []

four-IsByte : All IsByte four
unfolding IsByte
four-IsByte = (omega arith, (omega arith, (omega arith, (omega arith, tt))))

write_string-overruns_iff_example : (write_string three (idle []) (some 3) four ≡ stuck) ↔ (
    (2147483648 ≤ round_up (length four) % 4294967296)
    ⊎ ((length four % 4 ≡ 0) × (until_nul four ≡ four))
    ⊎ ((4294967296 ≤ round_up (length four))
        × (round_up (length four) % 4294967296 ≤ length (until_nul four))))
write_string-overruns_iff_example =
    write_string-overruns_iff three three-IsSend (idle []) 3 four four-IsByte

halves : ℕ → Bytes × Bytes
halves n = (take n [], drop n [])

nothing_comes : (n : ℕ) → halves n ≡ ([], [])
unfolding halves
nothing_comes zero = refl
nothing_comes (suc n) = refl

closed : (n : ℕ) → three.recv (idle []) (some 3) n ≡ (some [], idle [])
unfolding three idle halves
closed n = ap (λ p. (some p.0, record { gone = []; coming = p.1 })) (nothing_comes (min 3 n))

recv_loop-closed_example : recv_loop three 1000 (idle []) (some 3) 4 [] ≡ stuck
recv_loop-closed_example = recv_loop-closed three (idle []) (some 3) 4 [] closed (omega arith) 1000

abbrev listening : ServerSocket
listening = record { server_socket = some 3; client_socket = none }

abbrev serving : ServerSocket
serving = record { server_socket = some 3; client_socket = some 4 }

abbrev plain : SocketMessage
plain = record { type = prepare; size = 0; string_value = [] }

first_wait :
    server_wait_for_message three (idle (network_word 2 ++ network_word 0)) listening blank
    ≡ some (no_error, some plain, serving, idle [])
unfolding server_wait_for_message wait_with accept_and_read read_from read_status three read_message
    read_int recv_loop network_word command_of payload_of read_payload swap_word word_of_bytes idle
first_wait = refl

server_wait_for_message-once_example :
    (server_wait_for_message three (idle []) serving blank
      ≡ some (already_connected, none, serving, idle []))
    × (server_wait_for_message three
          (server_close_client three (idle []) serving).1
          (server_close_client three (idle []) serving).0
          blank
        ≡ accept_and_read three
            (three.close (idle []) (some 4))
            (record serving { client_socket = none })
            blank)
server_wait_for_message-once_example =
    server_wait_for_message-once three (idle (network_word 2 ++ network_word 0)) (idle []) listening
      serving blank blank (some plain) first_wait

abbrev done : SocketMessage
done = record { type = prepare_done; size = 0; string_value = [] }

done-CanSend : CanSend [] (payload_of prepare_done)
unfolding CanSend payload_of
done-CanSend = tt

state_or : Wire → Io Wire Unit → Wire
state_or w (ok (u, s)) = s
state_or w (failed s) = s
state_or w stuck = w

peer :
    (s2 : Wire)
    → write_message three (idle (wire done)) (some 3) (command_message prepare) ≡ ok (tt, s2)
    → coming_of s2 3 ≡ wire done ++ []
unfolding state_or coming_of three write_message write_int send_loop write_payload payload_of
    code_of swap_word bytes_of_word wire idle size_of body_of network_word
peer s2 e = sym (ap (λ o. coming_of (state_or (idle []) o) 3) e)

run-answers_example :
    (s3 : Wire) × (run three prepare prepare_done blank (idle (wire done))
      ≡ some (right_answer, s3))
    × (coming_of s3 3 ≡ [])
unfolding code_of payload_of client_init three
run-answers_example =
    run-answers three three-IsSend three-IsRecv (idle (wire done)) (idle (wire done)) 3 prepare
      prepare_done blank done [] refl refl done-CanSend peer
