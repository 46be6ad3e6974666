-- ===== src/Ipc/Server/Invariant.antt =====
-- What holds of the daemon whatever bytes its clients send.
use bb_auth.Prelude.{
  ℕ, ◌<◌, ◌≡◌, ◌⊎◌, inl, inr, false, Bool-cases, Option, none, some, List, [], ◌∷◌, ◌++◌, All,
  arith, length, ltb, is_nil, either, ◌==◌, string_eq, nat_eq,
}
use bb_auth.Prelude.Hash.{Hash, find, insert, remove}
use bb_auth.Json.{Object, value, to_string}
use bb_auth.Agent.State.{Agent, World}
use bb_auth.Agent.Keyring.{error_reply}
use bb_auth.Agent.Sound.{IsSound, send-IsSound}
use bb_auth.Agent.Sound.Handlers as Sound
use bb_auth.Agent.Loop.{new_agent, starts}
use bb_auth.Agent.Loop.Invariant.{handle_message-IsSound, handle-IsSound, reachable-IsSound}
use bb_auth.Ipc.Framing.{on_ready_read, max_message_size}
use bb_auth.Ipc.Framing.Chunks.{lines_of-left, on_ready_read-long, on_ready_read-lines_of}
use bb_auth.Ipc.Server.{
  Server, new_server, or_empty, handle_object, handle_line, handle_nonempty, handle_lines, receive,
  on_new_connection, on_disconnected, ServerEvent, connects, leaves, sends, other, serve,
}

-- A buffer between two reads: no line in it is complete, or it is longer than the limit.
abbrev pub IsRest : List ℕ → Type 0
IsRest b = All (λ c. (c == 10) ≡ false) b ⊎ (max_message_size < length b)

abbrev pub IsBuffered : ℕ × List ℕ → Type 0
IsBuffered (socket, b) = IsRest b

on_ready_read-IsRest : (buffer chunk : List ℕ) → IsRest (on_ready_read buffer chunk).2
on_ready_read-IsRest buffer chunk =
    elim (Bool-cases (ltb max_message_size (length (buffer ++ chunk)))) [
      | inl e ↦ rw (on_ready_read-long buffer chunk e) (inr (ground (arith, e)))
      | inr e ↦
          rw (on_ready_read-lines_of buffer chunk (ground (arith, e)))
            (inl (lines_of-left (buffer ++ chunk)))
    ]

insert-IsBuffered :
    (socket : ℕ) (b : List ℕ) (m : Hash ℕ (List ℕ))
    → IsRest b
    → All IsBuffered m
    → All IsBuffered (insert socket b m)
unfolding insert
insert-IsBuffered socket b [] h hs = (h, tt)
insert-IsBuffered socket b ((j, c) ∷ m) h (k, ks) =
    either (All IsBuffered) (j == socket) ((j, b) ∷ m) ((j, c) ∷ insert socket b m) (λ e. (h, ks))
      (λ e. (k, insert-IsBuffered socket b m h ks))

remove-IsBuffered :
    (socket : ℕ) (m : Hash ℕ (List ℕ)) → All IsBuffered m → All IsBuffered (remove socket m)
unfolding remove
remove-IsBuffered socket [] hs = tt
remove-IsBuffered socket ((j, c) ∷ m) (k, ks) =
    either (All IsBuffered) (j == socket) (remove socket m) ((j, c) ∷ remove socket m)
      (λ e. remove-IsBuffered socket m ks) (λ e. (k, remove-IsBuffered socket m ks))

-- The agent is sound, and every buffer holds the rest of a line, or more than the limit.
abbrev pub IsSafe : Server → Type 0
IsSafe s = IsSound s.agent × All IsBuffered s.buffers

module _ (w : World) (boot : Object) where
  handle_object-IsSound :
      (a : Agent) (socket : ℕ) (o : Option Object)
      → IsSound a
      → IsSound (handle_object w boot a socket o)
  unfolding handle_object
  handle_object-IsSound a socket none h = send-IsSound w a socket (error_reply "Invalid JSON") h
  handle_object-IsSound a socket (some msg) h =
      either IsSound (to_string (value "type" msg) == "") _ _
        (λ e. send-IsSound w a socket (error_reply "Missing type field") h)
        (λ e. handle_message-IsSound w boot a socket (to_string (value "type" msg)) msg h)

  module _ (trimmed : List ℕ → List ℕ) (from_json : List ℕ → Option Object) where
    handle_lines-IsSound :
        (a : Agent) (socket : ℕ) (lines : List (List ℕ))
        → IsSound a
        → IsSound (handle_lines w boot trimmed from_json a socket lines)
    unfolding handle_lines handle_line
    handle_lines-IsSound a socket [] h = h
    handle_lines-IsSound a socket (raw ∷ lines) h =
        handle_lines-IsSound (handle_nonempty w boot trimmed from_json a socket (trimmed raw))
          socket lines
          (either IsSound (is_nil (trimmed raw)) a
            (handle_object w boot a socket (from_json (trimmed raw))) (λ e. h)
            (λ e. handle_object-IsSound a socket (from_json (trimmed raw)) h))

    receive-IsSafe :
        (s : Server) (socket : ℕ) (bytes : List ℕ)
        → IsSafe s
        → IsSafe (receive w boot trimmed from_json s socket bytes)
    unfolding receive
    receive-IsSafe s socket bytes (h, bs) =
        let (too_long, lines, left) = on_ready_read (or_empty (find socket s.buffers)) bytes in
        let rest = on_ready_read-IsRest (or_empty (find socket s.buffers)) bytes in
        let kept = insert-IsBuffered socket left s.buffers rest bs in
        either IsSafe too_long _ _ (λ e. (h, kept))
          (λ e. (handle_lines-IsSound s.agent socket lines h, kept))

-- The servers that some sequence of events leads to.
pub data IsServing (trimmed : List ℕ → List ℕ) (from_json : List ℕ → Option Object)
    : Server → Type 0 where
  idle : IsServing trimmed from_json new_server
  served :
      {s : Server} (w : World) (boot : Object) (e : ServerEvent)
      → IsServing trimmed from_json s
      → IsServing trimmed from_json (serve trimmed from_json w boot e s)

serve-IsSafe :
    (trimmed : List ℕ → List ℕ) (from_json : List ℕ → Option Object) (w : World) (boot : Object)
    (e : ServerEvent) (s : Server)
    → IsSafe s
    → IsSafe (serve trimmed from_json w boot e s)
unfolding serve on_new_connection on_disconnected
serve-IsSafe trimmed from_json w boot (connects socket) s (h, bs) =
    (h, insert-IsBuffered socket [] s.buffers (inl tt) bs)
serve-IsSafe trimmed from_json w boot (leaves socket) s (h, bs) =
    (Sound.on_client_disconnected-IsSound w s.agent socket h, remove-IsBuffered socket s.buffers bs)
serve-IsSafe trimmed from_json w boot (sends socket bytes) s h =
    receive-IsSafe w boot trimmed from_json s socket bytes h
serve-IsSafe trimmed from_json w boot (other e) s (h, bs) = (handle-IsSound w boot e s.agent h, bs)

-- Whatever bytes the clients of the daemon send, cut into reads in whatever way, valid messages or
-- not, and whatever else happens in between: the agent stays sound (its active provider and its
-- sessions are consistent, as in every state that its handlers reach), and between two reads the
-- buffer of each client holds no complete line, unless it is longer than 64 KiB.
pub serving-IsSafe :
    (trimmed : List ℕ → List ℕ) (from_json : List ℕ → Option Object) (s : Server)
    → IsServing trimmed from_json s
    → IsSafe s
serving-IsSafe trimmed from_json d idle = (reachable-IsSound new_agent starts, tt)
serving-IsSafe trimmed from_json d (served {s} w boot e r) =
    serve-IsSafe trimmed from_json w boot e s (serving-IsSafe trimmed from_json s r)
