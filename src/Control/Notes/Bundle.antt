-- ===== src/Control/Notes/Bundle.antt =====
-- What `schedule_bundle` puts into the staging queue of the scheduler.
use nomos_rt.Common.{ℕ, ◌≡◌, refl, ap, ◌∙◌, Option, none, some, List, [], ◌∷◌, ◌++◌, take, codes}
use nomos_rt.SpscQueue.{SpscQueue}
use nomos_rt.SpscQueue.Capacity.{IsCapacity}
use nomos_rt.SpscQueue.Refine.{IsValid, contents}
use nomos_rt.SpscQueue.Bursts.{push_all, push_all-contents}
use nomos_rt.Scheduler.{ScheduledEvent, sched_queue_capacity}
use nomos_rt.Edn.{Edn, Dictionary, as_vector}
use nomos_rt.Control.Host.{Host}
use nomos_rt.Control.State.{Control, blank_scheduled, payload_map}
use nomos_rt.Control.Notes.{
  bundle_item, beat_of, stage_item, stage_items, stage_bundle, stage_map, stage_payload,
  schedule_bundle,
}

module _ (h : Host) where
  -- The events of a bundle, in order; an item that is no map or an OSC message that cannot be built gives none.
  abbrev pub also :
      Option (ScheduledEvent h.num.D)
      → List (ScheduledEvent h.num.D)
      → List (ScheduledEvent h.num.D)
  also none es = es
  also (some e) es = e ∷ es

  abbrev pub bundle_events : h.num.D → List (Edn h.num.D) → List (ScheduledEvent h.num.D)
  bundle_events anchor [] = []
  bundle_events anchor (e ∷ es) = also (bundle_item h anchor e) (bundle_events anchor es)

  stage_item-push_all :
      (o : Option (ScheduledEvent h.num.D)) (later : List (ScheduledEvent h.num.D))
      (q : SpscQueue (ScheduledEvent h.num.D))
      (rest : SpscQueue (ScheduledEvent h.num.D) → SpscQueue (ScheduledEvent h.num.D))
      → ((p : SpscQueue (ScheduledEvent h.num.D))
          → rest p ≡ push_all (blank_scheduled h) sched_queue_capacity later p)
      → rest (stage_item h o q) ≡ push_all (blank_scheduled h) sched_queue_capacity (also o later) q
  stage_item-push_all none later q rest same = same q
  stage_item-push_all (some e) later q rest same = same _

  stage_items-push_all :
      (anchor : h.num.D) (es : List (Edn h.num.D)) (q : SpscQueue (ScheduledEvent h.num.D))
      → stage_items h anchor es q
        ≡ push_all (blank_scheduled h) sched_queue_capacity (bundle_events anchor es) q
  unfolding stage_items
  stage_items-push_all anchor [] q = refl
  stage_items-push_all anchor (e ∷ es) q =
      stage_item-push_all (bundle_item h anchor e) (bundle_events anchor es) q
        (stage_items h anchor es) (stage_items-push_all anchor es)

  -- A bundle with a beat and a vector of events changes the staging queue and nothing else: the queue holds what it held,
  -- then the events of the bundle in their order, up to the 1023 items that it has room for; the others are lost.
  pub schedule_bundle-contents :
      (capacity : IsCapacity sched_queue_capacity) (payload : List ℕ) (c : Control h)
      (q : SpscQueue (ScheduledEvent h.num.D)) (m : Dictionary h.num.D) (anchor : h.num.D)
      (es : List (Edn h.num.D))
      → c.staging ≡ some q
      → IsValid sched_queue_capacity q
      → payload_map h payload ≡ some m
      → beat_of h (h.find_kw m (codes "at-beat")) ≡ some anchor
      → as_vector (h.find_kw m (codes "events")) ≡ some es
      → (q' : SpscQueue (ScheduledEvent h.num.D)) × (schedule_bundle h payload c
          ≡ record c { staging = some q' })
        × IsValid sched_queue_capacity q'
        × (contents (blank_scheduled h) sched_queue_capacity q'
            ≡ take 1023
                (contents (blank_scheduled h) sched_queue_capacity q ++ bundle_events anchor es))
  unfolding schedule_bundle stage_payload stage_map stage_bundle
  schedule_bundle-contents capacity payload c q m anchor es staged valid map beat events =
      let r =
        push_all-contents (blank_scheduled h) sched_queue_capacity capacity
          (bundle_events anchor es) q valid in
      (
        push_all (blank_scheduled h) sched_queue_capacity (bundle_events anchor es) q,
        (λ i. stage_payload h (map i) (staged i) c)
            ∙ (λ i. record c { staging = some (stage_bundle h (beat i) (events i) q) })
            ∙ ap (λ t. record c { staging = some t }) (stage_items-push_all anchor es q),
        r.0,
        r.1,
      )
