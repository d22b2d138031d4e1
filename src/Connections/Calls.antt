-- ===== src/Connections/Calls.antt =====
-- Any history of the connections of one worker.
use apiserver_asymetric_encr.Base.{size_mod, ℕ, suc, ◌<◌, ◌≡◌, Bool, none, some, List, arith}
use apiserver_asymetric_encr.Text.{Bytes}
use apiserver_asymetric_encr.Connections.{
  Connection, ResponseItem, Worker, new_worker, find_connection, touch_connection, close_connection,
  accept_one, check_timeouts,
}
use apiserver_asymetric_encr.Connections.Keeps.{
  IsWellFormed, touch_connection-IsWellFormed, close_connection-IsWellFormed,
  check_timeouts-IsWellFormed, accept_one-IsWellFormed,
}
use apiserver_asymetric_encr.Connections.Writing.{Written, do_write, deliver}
use apiserver_asymetric_encr.Connections.Writing.Keeps.{do_write-IsWellFormed, deliver-IsWellFormed}

-- The calls that the event loop makes. The kernel hands out a descriptor only when no open
-- connection has it, and the numbers of the connections do not wrap.
pub data Step {J : Type 0} : Worker J → Worker J → Type 0 where
  accepts :
      (w : Worker J) (now fd : ℕ) (added : Bool) (ip : Bytes)
      → find_connection fd w.connections ≡ none
      → suc w.next_connection_id < size_mod
      → Step w (accept_one now added fd ip w)
  times_out : (w : Worker J) (timeout now : ℕ) → Step w (check_timeouts timeout now w)
  delivers :
      (w : Worker J) (armed : Bool) (now : ℕ) (results : List Written) (item : ResponseItem)
      → Step w (deliver armed now results item w)
  writes :
      (w : Worker J) (armed : Bool) (now fd : ℕ) (results : List Written) (c : Connection J)
      → find_connection fd w.connections ≡ some c
      → Step w (do_write armed now fd results c w)
  touches : (w : Worker J) (now fd : ℕ) → Step w (touch_connection now fd w)
  closes : (w : Worker J) (fd : ℕ) → Step w (close_connection fd w)

pub data Reachable {J : Type 0} : Worker J → Type 0 where
  begun : Reachable new_worker
  stepped : {w v : Worker J} → Reachable w → Step w v → Reachable v

Step-IsWellFormed : {J : Type 0} {w v : Worker J} → Step w v → IsWellFormed w → IsWellFormed v
Step-IsWellFormed (accepts w now fd added ip e small) v =
    accept_one-IsWellFormed now added fd ip w e small v
Step-IsWellFormed (times_out w timeout now) v = check_timeouts-IsWellFormed timeout now w v
Step-IsWellFormed (delivers w armed now results item) v =
    deliver-IsWellFormed armed now results item w v
Step-IsWellFormed (writes w armed now fd results c e) v =
    do_write-IsWellFormed armed now fd results c w v
Step-IsWellFormed (touches w now fd) v = touch_connection-IsWellFormed now fd w v
Step-IsWellFormed (closes w fd) v = close_connection-IsWellFormed fd w v

-- After any history of accepts, timeouts, deliveries, writes, touches and closes, the gauge of the
-- active connections is the number of connections in the map, in 32-bit arithmetic, no connection
-- has a number that has not been given out yet, and no descriptor stands twice in the map; the
-- kernel hands out no descriptor that is open, and numbers do not wrap.
pub Reachable-IsWellFormed : {J : Type 0} {w : Worker J} → Reachable w → IsWellFormed w
unfolding new_worker
Reachable-IsWellFormed begun = record {
  counted = omega arith;
  numbered = tt;
  in_range = omega arith;
  distinct = tt;
}
Reachable-IsWellFormed (stepped r s) = Step-IsWellFormed s (Reachable-IsWellFormed r)
