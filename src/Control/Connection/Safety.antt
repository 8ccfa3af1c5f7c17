-- ===== src/Control/Connection/Safety.antt =====
-- Where `push_frame` writes and what `stop` leaves.
use nomos_rt.Common.{ℕ, Option, none, some, List, [], ◌∷◌, ◌≡◌, refl, arith}
use nomos_rt.Control.Connection.{
  RunPhase, loading, accepting, ended, accepted, serving, served, PushPhase, pushing_none, writing,
  StopPhase, started, stopping, shut, closed, joined, ControlThread, start, Step, Reach, here,
  later, loads, accepts, fails, publishes, unpublishes, closes, pushes, writes, leaves, exchanges,
  shuts, unlistens, joins,
}

abbrev published : RunPhase → Option ℕ
published loading = none
published accepting = none
published ended = none
published (accepted fd) = none
published (serving fd) = some fd
published (served fd) = none

abbrev held : RunPhase → List ℕ
held loading = []
held accepting = []
held ended = []
held (accepted fd) = fd ∷ []
held (serving fd) = fd ∷ []
held (served fd) = fd ∷ []

-- The descriptor that a push has, or the published one.
abbrev pushed_or : PushPhase → Option ℕ → Option ℕ
pushed_or pushing_none fd = fd
pushed_or (writing fd) published_fd = some fd

-- What `stop` has left of the socket and of the thread.
abbrev listening_or : StopPhase → Option ℕ → Option ℕ
listening_or started fd = fd
listening_or stopping fd = fd
listening_or shut fd = fd
listening_or closed fd = none
listening_or joined fd = none

abbrev thread_or : StopPhase → RunPhase → RunPhase
thread_or started phase = phase
thread_or stopping phase = phase
thread_or shut phase = phase
thread_or closed phase = phase
thread_or joined phase = ended

record IsConsistent (s : ControlThread) : Type 0 where
  conn : s.conn_fd_write ≡ published s.thread
  descriptors : s.opened ≡ held s.thread
  push : s.conn_fd_write ≡ pushed_or s.pusher s.conn_fd_write
  listen : s.listen_fd ≡ listening_or s.stopper s.listen_fd
  finished : s.thread ≡ thread_or s.stopper s.thread

step-IsConsistent : {s t : ControlThread} → Step s t → IsConsistent s → IsConsistent t
step-IsConsistent (loads e) c = ground arith
step-IsConsistent (accepts fd l e o) c = ground arith
step-IsConsistent (fails i e) c = ground arith
step-IsConsistent (publishes fd e p) c = ground arith
step-IsConsistent (unpublishes fd e p) c = ground arith
step-IsConsistent (closes fd others e o) c = ground arith
step-IsConsistent (pushes p) c = ground arith
step-IsConsistent (writes fd bytes p) c = ground arith
step-IsConsistent (leaves fd p) c = ground arith
step-IsConsistent (exchanges r p) c = ground arith
step-IsConsistent (shuts r p) c = ground arith
step-IsConsistent (unlistens r) c = ground arith
step-IsConsistent (joins r p) c = ground arith

Reach-IsConsistent : (socket : ℕ) {s : ControlThread} → Reach socket s → IsConsistent s
unfolding start
Reach-IsConsistent socket here = record {
  conn = refl;
  descriptors = refl;
  push = refl;
  listen = refl;
  finished = refl;
}
Reach-IsConsistent socket (later r st) = step-IsConsistent st (Reach-IsConsistent socket r)

-- However the thread, the calls of push_frame and a call of stop interleave, a push_frame that writes to a descriptor
-- writes to the connection that the thread serves, whose descriptor is the one that is open and is published.
pub push_to_served :
    (socket fd : ℕ) {s : ControlThread}
    → Reach socket s
    → s.pusher ≡ writing fd
    → (s.thread ≡ serving fd) × (s.opened ≡ fd ∷ []) × (s.conn_fd_write ≡ some fd)
push_to_served socket fd {s} r e =
    let c = Reach-IsConsistent socket r in ground (arith, c.conn, c.descriptors, c.push, e)

-- When stop has joined the thread, the listening socket is closed, and no connection is open or published.
pub stop_leaves_nothing :
    (socket : ℕ) {s : ControlThread}
    → Reach socket s
    → s.stopper ≡ joined
    → (s.listen_fd ≡ none) × (s.opened ≡ []) × (s.conn_fd_write ≡ none)
stop_leaves_nothing socket {s} r e =
    let c = Reach-IsConsistent socket r in
    ground (arith, c.conn, c.descriptors, c.listen, c.finished, e)
