-- ===== src/Tests/Connections.antt =====
-- A server in the directory "/d", over the queue of Tests/World.
use libipc_old.Prelude.{ℕ, ◌≡◌, refl, true, false, List, [], ◌∷◌, ◌++◌, none, some, arith}
use libipc_old.Errors.{ErrorCode}
use libipc_old.Env.{Env, Stat}
use libipc_old.Context.Valid.{IsValid}
use libipc_old.Context.Addition.{extended}
use libipc_old.Paths.{slash, last_slash, is_writable_}
use libipc_old.Paths.Names.{IsGenerous}
use libipc_old.Connecting.{ipc_server_init}
use libipc_old.Connecting.Serving.{
  IsReady, Listens, server_info, server_cell, ipc_server_init-serves,
}
use libipc_old.Sockets.{usock_remove}
use libipc_old.Tests.Inputs.{plenty, two_clients, two_clients-IsValid}
use libipc_old.Tests.World.{Queue, toy}

-- "/d" and "pong"
abbrev pub run_dir : List ℕ
run_dir = 47 ∷ 100 ∷ []

abbrev pub pong : List ℕ
pong = 112 ∷ 111 ∷ 110 ∷ 103 ∷ []

abbrev pub open_dir : Stat
open_dir = record {
  is_dir = true;
  uid = 0;
  gid = 0;
  user_writes = true;
  group_writes = false;
  other_writes = false;
}

abbrev host : Env Queue
host = record toy { rundir = λ w. some run_dir; stat = λ path w. (some open_dir, w) }

run_dir-IsReady : IsReady host run_dir [] []
unfolding is_writable_
run_dir-IsReady = record { status = open_dir; there = refl; directory = refl; writable = refl }

pong-Listens : Listens host 8 (run_dir ++ slash ∷ pong) [] []
unfolding usock_remove
pong-Listens = record { opened = []; bound = []; socket = refl; bind = refl; listen = refl }

pub pong-plain : last_slash pong ≡ none
unfolding last_slash
pong-plain = refl

ipc_server_init-serves_example :
    (ipc_server_init host plenty (some two_clients) (some pong) []
      ≡ some (
        ErrorCode.no_error,
        some (extended two_clients (server_info (run_dir ++ slash ∷ pong)) (server_cell 8)),
        [],
      ))
    × IsValid (extended two_clients (server_info (run_dir ++ slash ∷ pong)) (server_cell 8))
ipc_server_init-serves_example =
    ipc_server_init-serves host plenty two_clients run_dir pong 8 [] [] [] refl refl refl
      two_clients-IsValid refl pong-plain (omega arith) run_dir-IsReady pong-Listens

toy-IsGenerous : IsGenerous toy
toy-IsGenerous path w e = cc
