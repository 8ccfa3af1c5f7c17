-- ===== src/Control/Connection.antt =====
-- src/rt_control_thread.cpp: the thread of `run` with its connection, `push_frame` of other threads, and `stop`, cut into
-- the steps between which they interleave. `write_mutex_` is held by a `push_frame` that is writing; the critical
-- sections of `handle_connection` and `stop` are one step each. What is served is in nomos_rt.Control.Dispatch.
pub mod Safety
mod Tests
use nomos_rt.Common.{
  ℕ, Bool, true, false, if◌then◌else◌, Option, none, some, List, [], ◌∷◌, ◌++◌, ◌≡◌,
}

-- The thread: before the load of `running_`, in `accept`, and with a connection before, in and behind the time in which
-- `conn_fd_write_` is set.
pub data RunPhase : Type 0 where
  loading accepting ended : RunPhase
  accepted serving served : ℕ → RunPhase

pub data PushPhase : Type 0 where
  pushing_none : PushPhase
  writing : ℕ → PushPhase

-- `stop`: behind the exchange, the shutdown of the connection, the close of the listening socket, and the join.
pub data StopPhase : Type 0 where
  started stopping shut closed joined : StopPhase

pub record ControlThread : Type 0 where
  pub running : Bool
  pub listen_fd : Option ℕ
  pub conn_fd_write : Option ℕ
  pub thread : RunPhase
  pub pusher : PushPhase
  pub stopper : StopPhase
  -- The descriptors of connections that are open, those that have been shut down, and the bytes put out.
  pub opened : List ℕ
  pub downed : List ℕ
  pub written : List (ℕ × List ℕ)

-- Behind a `start` that gets a socket.
unfoldable pub start : ℕ → ControlThread
start fd = record {
  running = true;
  listen_fd = some fd;
  conn_fd_write = none;
  thread = loading;
  pusher = pushing_none;
  stopper = started;
  opened = [];
  downed = [];
  written = [];
}

abbrev pub load_running : ControlThread → ControlThread
load_running s = record s { thread = if s.running then accepting else ended }

abbrev pub accept : ℕ → ControlThread → ControlThread
accept fd s = record s { thread = accepted fd; opened = fd ∷ s.opened }

abbrev pub accept_fails : Bool → ControlThread → ControlThread
accept_fails is_eintr s = record s { thread = if is_eintr then loading else ended }

-- The two critical sections of `handle_connection`.
abbrev pub publish : ℕ → ControlThread → ControlThread
publish fd s = record s { thread = serving fd; conn_fd_write = some fd }

abbrev pub unpublish : ℕ → ControlThread → ControlThread
unpublish fd s = record s { thread = served fd; conn_fd_write = none }

-- `close` of the descriptor, which is the head of the list of those that are open.
abbrev pub close_conn : List ℕ → ControlThread → ControlThread
close_conn others s = record s { thread = loading; opened = others }

abbrev pub push_target : Option ℕ → PushPhase
push_target none = pushing_none
push_target (some fd) = writing fd

-- `push_frame` takes the mutex and returns at once if there is no connection.
abbrev pub push_enter : ControlThread → ControlThread
push_enter s = record s { pusher = push_target s.conn_fd_write }

abbrev pub push_write : ℕ → List ℕ → ControlThread → ControlThread
push_write fd bytes s = record s { written = s.written ++ (fd, bytes) ∷ [] }

abbrev pub push_leave : ControlThread → ControlThread
push_leave s = record s { pusher = pushing_none }

abbrev pub downed_with : Option ℕ → List ℕ → List ℕ
downed_with none fds = fds
downed_with (some fd) fds = fd ∷ fds

abbrev pub stop_exchange : ControlThread → ControlThread
stop_exchange s = record s { running = false; stopper = stopping }

abbrev pub stop_shutdown : ControlThread → ControlThread
stop_shutdown s = record s { stopper = shut; downed = downed_with s.conn_fd_write s.downed }

abbrev pub stop_listening : ControlThread → ControlThread
stop_listening s = record s { stopper = closed; listen_fd = none }

abbrev pub stop_join : ControlThread → ControlThread
stop_join s = record s { stopper = joined }

pub data Step (s : ControlThread) : ControlThread → Type 0 where
  loads : s.thread ≡ loading → Step s (load_running s)
  accepts :
      (fd listening : ℕ)
      → s.thread ≡ accepting
      → s.listen_fd ≡ some listening
      → Step s (accept fd s)
  fails : (is_eintr : Bool) → s.thread ≡ accepting → Step s (accept_fails is_eintr s)
  publishes : (fd : ℕ) → s.thread ≡ accepted fd → s.pusher ≡ pushing_none → Step s (publish fd s)
  unpublishes : (fd : ℕ) → s.thread ≡ serving fd → s.pusher ≡ pushing_none → Step s (unpublish fd s)
  closes :
      (fd : ℕ) (others : List ℕ)
      → s.thread ≡ served fd
      → s.opened ≡ fd ∷ others
      → Step s (close_conn others s)
  pushes : s.pusher ≡ pushing_none → Step s (push_enter s)
  writes : (fd : ℕ) (bytes : List ℕ) → s.pusher ≡ writing fd → Step s (push_write fd bytes s)
  leaves : (fd : ℕ) → s.pusher ≡ writing fd → Step s (push_leave s)
  exchanges : s.running ≡ true → s.stopper ≡ started → Step s (stop_exchange s)
  shuts : s.stopper ≡ stopping → s.pusher ≡ pushing_none → Step s (stop_shutdown s)
  unlistens : s.stopper ≡ shut → Step s (stop_listening s)
  joins : s.stopper ≡ closed → s.thread ≡ ended → Step s (stop_join s)

-- From a `start`, by any steps.
pub data Reach (fd : ℕ) : ControlThread → Type 0 where
  here : Reach fd (start fd)
  later : {s t : ControlThread} → Reach fd s → Step s t → Reach fd t
