-- ===== src/Control/Connection/Tests.antt =====
-- A client connects, and stop is called while a push_frame writes to it.
use nomos_rt.Common.{some, [], ◌∷◌, ◌≡◌, refl}
use nomos_rt.Control.Connection.{
  serving, start, load_running, accept, publish, push_enter, push_write, stop_exchange,
  ControlThread, Reach, here, later, loads, accepts, publishes, pushes, writes, exchanges,
}
use nomos_rt.Control.Connection.Safety.{push_to_served}

abbrev in_push : ControlThread
in_push =
    push_write 4 (7 ∷ [])
      (stop_exchange (push_enter (publish 4 (accept 4 (load_running (start 3))))))

in_push-Reach : Reach 3 in_push
unfolding start
in_push-Reach =
    later
      (later
        (later
          (later (later (later here (loads refl)) (accepts 4 3 refl refl)) (publishes 4 refl refl))
          (pushes refl))
        (exchanges refl refl))
      (writes 4 (7 ∷ []) refl)

push_to_served_example :
    (in_push.thread ≡ serving 4) × (in_push.opened ≡ 4 ∷ []) × (in_push.conn_fd_write ≡ some 4)
unfolding start
push_to_served_example = push_to_served 3 4 in_push-Reach refl
