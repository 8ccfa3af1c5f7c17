-- ===== src/Control/Sound/Queues.antt =====
-- The messages that push into the queues keep the state sound.
use nomos_rt.Common.{ℕ, refl, Option, none, some, List, [], ◌∷◌, arith}
use nomos_rt.SpscQueue.{SpscQueue}
use nomos_rt.SpscQueue.Capacity.{IsCapacity}
use nomos_rt.SpscQueue.Refine.{IsValid, push-IsValid}
use nomos_rt.Events.{ClapEvent}
use nomos_rt.InputBuffer.{in_queue_slots}
use nomos_rt.Scheduler.{ScheduledEvent, sched_queue_capacity}
use nomos_rt.Edn.{Edn, Dictionary}
use nomos_rt.Control.Host.{Host}
use nomos_rt.Control.State.{
  Control, ParamEvent, param_queue_capacity, blank_input, blank_scheduled, payload_map,
}
use nomos_rt.Control.Notes.{
  blank_param, push_param, push_input, stage_item, stage_items, bundle_item, stage_bundle,
  stage_map, stage_payload, handle_map, schedule_bundle, on_map, param_event_of, deliver,
  midi_event_of,
}
use nomos_rt.Control.Sound.{Holds, IsSound, Keeps}

pub params-IsCapacity : IsCapacity param_queue_capacity
params-IsCapacity = record { one_bit = refl; two_slots = omega arith; fits = omega arith }

pub inputs-IsCapacity : IsCapacity in_queue_slots
inputs-IsCapacity = record { one_bit = refl; two_slots = omega arith; fits = omega arith }

pub staging-IsCapacity : IsCapacity sched_queue_capacity
staging-IsCapacity = record { one_bit = refl; two_slots = omega arith; fits = omega arith }

module _ (h : Host) where
  pub push_param-IsSound : (e : ParamEvent h.num.D) → Keeps (push_param h e)
  unfolding push_param
  push_param-IsSound e c s = record {
    params_valid = push-IsValid (blank_param h) params-IsCapacity e s.params_valid;
    inputs_valid = s.inputs_valid;
    staging_valid = s.staging_valid;
    engine_listed = s.engine_listed;
  }

  pub push_input-IsSound : (e : ClapEvent h.num.D) → Keeps (push_input h e)
  unfolding push_input
  push_input-IsSound e c s = record {
    params_valid = s.params_valid;
    inputs_valid = push-IsValid (blank_input h) inputs-IsCapacity e s.inputs_valid;
    staging_valid = s.staging_valid;
    engine_listed = s.engine_listed;
  }

  pub with_staging :
      (q : SpscQueue (ScheduledEvent h.num.D)) (c : Control h)
      → IsValid sched_queue_capacity q
      → IsSound c
      → IsSound (record c { staging = some q })
  with_staging q c v s = record {
    params_valid = s.params_valid;
    inputs_valid = s.inputs_valid;
    staging_valid = v;
    engine_listed = s.engine_listed;
  }

  pub handle_map-IsSound :
      (handle : Dictionary h.num.D → Control h → Control h) (m : Option (Dictionary h.num.D))
      → ((m : Dictionary h.num.D) → Keeps (handle m))
      → Keeps (handle_map h handle m)
  unfolding handle_map
  handle_map-IsSound handle none keep c s = s
  handle_map-IsSound handle (some m) keep c s = keep m c s

  pub on_map-IsSound :
      (handle : Dictionary h.num.D → Control h → Control h) (payload : List ℕ)
      → ((m : Dictionary h.num.D) → Keeps (handle m))
      → Keeps (on_map h handle payload)
  unfolding on_map
  on_map-IsSound handle payload keep c s =
      handle_map-IsSound handle (payload_map h payload) keep c s

  pub param_event_of-IsSound :
      (path value : Option (Edn h.num.D)) → Keeps (param_event_of h path value)
  unfolding param_event_of
  param_event_of-IsSound none value c s = s
  param_event_of-IsSound (some path) none c s = s
  param_event_of-IsSound (some path) (some value) c s = push_param-IsSound _ c s

  pub deliver-IsSound :
      (beat : Option h.num.D) (e : ClapEvent h.num.D)
      (staging : Option (SpscQueue (ScheduledEvent h.num.D)))
      → Holds (IsValid sched_queue_capacity) staging
      → Keeps (deliver h beat e staging)
  unfolding deliver
  deliver-IsSound none e staging v c s = push_input-IsSound e c s
  deliver-IsSound (some beat) e none v c s = push_input-IsSound e c s
  deliver-IsSound (some beat) e (some q) v c s =
      with_staging _ c (push-IsValid (blank_scheduled h) staging-IsCapacity _ v) s

  pub stage_items-IsValid :
      (anchor : h.num.D) (es : List (Edn h.num.D)) (q : SpscQueue (ScheduledEvent h.num.D))
      → IsValid sched_queue_capacity q
      → IsValid sched_queue_capacity (stage_items h anchor es q)
  unfolding stage_items
  stage_items-IsValid anchor [] q v = v
  stage_items-IsValid anchor (e ∷ es) q v =
      stage_items-IsValid anchor es _ (stage_item-IsValid (bundle_item h anchor e) q v)
    where
      stage_item-IsValid :
          (o : Option (ScheduledEvent h.num.D)) (q : SpscQueue (ScheduledEvent h.num.D))
          → IsValid sched_queue_capacity q
          → IsValid sched_queue_capacity (stage_item h o q)
      stage_item-IsValid none q v = v
      stage_item-IsValid (some e) q v = push-IsValid (blank_scheduled h) staging-IsCapacity e v

  pub stage_bundle-IsValid :
      (anchor : Option h.num.D) (es : Option (List (Edn h.num.D)))
      (q : SpscQueue (ScheduledEvent h.num.D))
      → IsValid sched_queue_capacity q
      → IsValid sched_queue_capacity (stage_bundle h anchor es q)
  unfolding stage_bundle
  stage_bundle-IsValid none es q v = v
  stage_bundle-IsValid (some anchor) none q v = v
  stage_bundle-IsValid (some anchor) (some es) q v = stage_items-IsValid anchor es q v

  pub stage_map-IsValid :
      (m : Option (Dictionary h.num.D)) (q : SpscQueue (ScheduledEvent h.num.D))
      → IsValid sched_queue_capacity q
      → IsValid sched_queue_capacity (stage_map h m q)
  unfolding stage_map
  stage_map-IsValid none q v = v
  stage_map-IsValid (some m) q v = stage_bundle-IsValid _ _ q v

  pub stage_payload-IsSound :
      (m : Option (Dictionary h.num.D)) (staging : Option (SpscQueue (ScheduledEvent h.num.D)))
      → Holds (IsValid sched_queue_capacity) staging
      → Keeps (stage_payload h m staging)
  unfolding stage_payload
  stage_payload-IsSound m none v c s = s
  stage_payload-IsSound m (some q) v c s = with_staging _ c (stage_map-IsValid m q v) s

  pub schedule_bundle-IsSound : (payload : List ℕ) → Keeps (schedule_bundle h payload)
  unfolding schedule_bundle
  schedule_bundle-IsSound payload c s =
      stage_payload-IsSound (payload_map h payload) c.staging s.staging_valid c s

  pub midi_event_of-IsSound :
      (port : ℕ) (bytes : Option (List (Edn h.num.D))) → Keeps (midi_event_of h port bytes)
  unfolding midi_event_of
  midi_event_of-IsSound port none c s = s
  midi_event_of-IsSound port (some bytes) c s = push_input-IsSound _ c s
