-- ===== src/Sockets/Ends/Serve.antt =====
-- code/utils/communication/ServerSocket.cpp: the client that a server keeps.
use mathlib.Core.Path.{subst}
use crashmonkey.Common.{ℕ, ◌≡◌, refl, ap, Option, none, some, ◌>>=◌}
use crashmonkey.Sockets.{Fd, Net, SocketMessage, read_message}
use crashmonkey.Sockets.Ends.{
  SocketError, no_error, syscall, wrong_type, already_connected, not_connected, read_status,
  ServerSocket, read_from, accept_and_read, wait_with, server_wait_for_message, server_close_client,
}

-- What WaitForMessage leaves, if it returns kNone: a client.
HasClient : {S : Type 0} → Option (SocketError × Option SocketMessage × ServerSocket × S) → Type 0
HasClient none = Unit
HasClient (some (no_error, got, sv, s)) = (f : ℕ) × (sv.client_socket ≡ some f)
HasClient (some (syscall, got, sv, s)) = Unit
HasClient (some (wrong_type, got, sv, s)) = Unit
HasClient (some (already_connected, got, sv, s)) = Unit
HasClient (some (not_connected, got, sv, s)) = Unit

kept-HasClient :
    {S : Type 0} (sv : ServerSocket) (f : ℕ) (o : Option (SocketError × Option SocketMessage × S))
    → HasClient (o >>= (λ r. some (r.0, r.1, record sv { client_socket = some f }, r.2)))
unfolding HasClient
kept-HasClient sv f none = tt
kept-HasClient sv f (some (no_error, got, s)) = (f, refl)
kept-HasClient sv f (some (syscall, got, s)) = tt
kept-HasClient sv f (some (wrong_type, got, s)) = tt
kept-HasClient sv f (some (already_connected, got, s)) = tt
kept-HasClient sv f (some (not_connected, got, s)) = tt

module _ {S : Type 0} (net : Net S) where
  read_from-HasClient :
      (s : S) (sv : ServerSocket) (m : SocketMessage) (fd : Fd)
      → HasClient (read_from net s sv m fd)
  unfolding HasClient read_from
  read_from-HasClient s sv m none = tt
  read_from-HasClient s sv m (some f) =
      kept-HasClient sv f (read_status (read_message net s (some f) m))

  wait_with-HasClient :
      (s : S) (sv : ServerSocket) (fd : Fd) (m : SocketMessage)
      → HasClient (wait_with net s sv fd m)
  unfolding HasClient wait_with accept_and_read
  wait_with-HasClient s sv (some f) m = tt
  wait_with-HasClient s sv none m =
      read_from-HasClient (net.accept s sv.server_socket).1 sv m (net.accept s sv.server_socket).0

  -- After a WaitForMessage of ServerSocket that returned kNone the next one returns
  -- kAlreadyConnected and changes nothing, until CloseClient, after which it accepts again.
  pub server_wait_for_message-once :
      (s s' : S) (sv sv' : ServerSocket) (m next : SocketMessage) (got : Option SocketMessage)
      → server_wait_for_message net s sv m ≡ some (no_error, got, sv', s')
      → (server_wait_for_message net s' sv' next ≡ some (already_connected, none, sv', s'))
        × (server_wait_for_message net
              (server_close_client net s' sv').1
              (server_close_client net s' sv').0
              next
            ≡ accept_and_read net
                (net.close s' sv'.client_socket)
                (record sv' { client_socket = none })
                next)
  unfolding HasClient server_wait_for_message server_close_client wait_with
  server_wait_for_message-once s s' sv sv' m next got e =
      let (f, holds) = subst HasClient e (wait_with-HasClient s sv sv.client_socket m) in
      (ap (λ fd. wait_with net s' sv' fd next) holds, refl)
