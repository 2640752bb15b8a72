-- ===== src/Tests/World.antt =====
-- A world outside for the tests: a socket is a queue of what recv(2) is to answer, and what is sent
-- on any descriptor joins that queue.
use libipc_old.Prelude.{
  ℕ, ℤ, pos, true, false, List, [], ◌∷◌, ◌++◌, Option, none, some, length, map,
}
use libipc_old.Types.{Ipccb}
use libipc_old.Env.{Env, Received, Revents, MadeDir}

abbrev pub Queue : Type 0
Queue = List Received

abbrev pub all_ready : Revents
all_ready = record { input = true; output = true; hup = false; err = false; nval = false }

abbrev pub send : ℤ → List ℕ → Queue → Option ℕ × Queue
send fd [] w = (some 0, w)
send fd (b ∷ bs) w = (some (length (b ∷ bs)), w ++ Received.got b bs ∷ [])

abbrev pub recv : ℤ → ℕ → Queue → Received × Queue
recv fd len [] = (Received.closed, [])
recv fd len (r ∷ rs) = (r, rs)

abbrev pub toy : Env Queue
toy = record {
  close = λ fd w. (true, w);
  send = send;
  recv = recv;
  accept = λ fd w. (pos 9, w);
  socket = λ w. (pos 8, w);
  bind = λ fd path w. (true, w);
  listen = λ fd w. (true, w);
  connect = λ fd path w. (true, w);
  stat = λ path w. (none, w);
  unlink = λ path w. (true, w);
  mkdir = λ path w. (MadeDir.made, w);
  uid = λ w. 0;
  gid = λ w. 0;
  rundir = λ w. none;
  network = λ w. none;
  time = λ w. (record { sec = 0; usec = 0 }, w);
  poll = λ cells timeout w. (some (length cells, map (λ p. all_ready) cells), w);
  send_fd = λ sock fd w. (true, w);
  recv_fd = λ sock w. (some (pos 7), w);
  callback_in = λ n fd m w. (Ipccb.no_error, m, false, w);
  callback_out = λ n fd m w. (Ipccb.no_error, w);
}
