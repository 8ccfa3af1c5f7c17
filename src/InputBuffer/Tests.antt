-- ===== src/InputBuffer/Tests.antt =====
-- Runs of the input buffer.
use nomos_rt.Common.{ℕ, replicate, length-replicate, refl, arith}
use nomos_rt.SpscQueue
use nomos_rt.SpscQueue.{SpscQueue, fresh}
use nomos_rt.SpscQueue.Capacity.{IsCapacity}
use nomos_rt.SpscQueue.Refine.{fresh-IsValid, push-IsValid}
use nomos_rt.Events.{ClapEvent, other}
use nomos_rt.InputBuffer.{max_events, in_queue_slots, InputEventBuffer, drain}
use nomos_rt.InputBuffer.Drain.{IsBuffer, queued, Drained, drain-Drained}

abbrev blank : ClapEvent ℕ
blank = other 0

abbrev buffer : InputEventBuffer ℕ
buffer = record { events = replicate max_events blank; count = 63 }

buffer-IsBuffer : IsBuffer buffer
buffer-IsBuffer = record { storage = length-replicate max_events blank; counted = omega arith }

in-IsCapacity : IsCapacity in_queue_slots
in-IsCapacity = record { one_bit = refl; two_slots = omega arith; fits = omega arith }

abbrev after : ℕ → SpscQueue (ClapEvent ℕ) → SpscQueue (ClapEvent ℕ)
after n q = (SpscQueue.push blank in_queue_slots (other n) q).1

abbrev two_events : SpscQueue (ClapEvent ℕ)
two_events = after 2 (after 1 (fresh blank in_queue_slots))

-- One event fits and the other stays in the queue.
drain-Drained_example :
    Drained blank buffer (queued blank two_events) (drain blank 65 buffer two_events)
drain-Drained_example =
    drain-Drained blank in-IsCapacity 65 buffer two_events buffer-IsBuffer
      (push-IsValid blank in-IsCapacity (other 2)
        (push-IsValid blank in-IsCapacity (other 1) (fresh-IsValid blank in-IsCapacity).0))
      (omega arith)
