-- ===== src/Scheduler/Order.antt =====
-- Sorting events by beat, and how it goes with picking some of them.
use nomos_rt.Common.{
  All, Bool, true, false, not, if◌then◌else◌, List, [], ◌∷◌, ◌++◌, Bool-cases, inl, inr, ◌≡◌, refl,
  ap, ap₂, sym, ◌∙◌, arith,
}
use nomos_rt.Scheduler.{ScheduledEvent, insert_by_beat, stable_sort}

-- What `<` and `<=` promise of doubles that are numbers.
pub record IsOrder {V : Type 0} (lt le : V → V → Bool) : Type 0 where
  pub strict : (a b : V) → lt a b ≡ not (le b a)
  pub trans : (a b c : V) → le a b ≡ true → le b c ≡ true → le a c ≡ true
  pub total : (a b : V) → le a b ≡ false → le b a ≡ true

abbrev pub filter : {A : Type 0} → (A → Bool) → List A → List A
filter p [] = []
filter p (x ∷ xs) = if p x then x ∷ filter p xs else filter p xs

module _ {V : Type 0} (le : V → V → Bool) where
  -- In the order of the beats: no event is before one to its left.
  abbrev pub IsSorted : List (ScheduledEvent V) → Type 0
  IsSorted [] = Unit
  IsSorted (e ∷ es) = All (λ f. le e.beat f.beat ≡ true) es × IsSorted es

  -- The events that are due and those that are not.
  abbrev pub due : V → List (ScheduledEvent V) → List (ScheduledEvent V)
  due now = filter (λ e. le e.beat now)

  abbrev pub waiting : V → List (ScheduledEvent V) → List (ScheduledEvent V)
  waiting now = filter (λ e. not (le e.beat now))

module _ {V : Type 0} (zero_beat : V) (lt le : V → V → Bool) (order : IsOrder lt le) where
  All-insert :
      (b : V) (e : ScheduledEvent V) (fs : List (ScheduledEvent V))
      → le b e.beat ≡ true
      → All (λ f. le b f.beat ≡ true) fs
      → All (λ f. le b f.beat ≡ true) (insert_by_beat zero_beat lt le e fs)
  unfolding insert_by_beat
  All-insert b e [] h k = (h, tt)
  All-insert b e (f ∷ fs) h (k, ks) = elim (Bool-cases (lt f.beat e.beat)) [
    | inl before ↦ rw before (k, All-insert b e fs h ks)
    | inr after ↦ rw after (h, (k, ks))
  ]

  All-later :
      (a b : V) (fs : List (ScheduledEvent V))
      → le a b ≡ true
      → All (λ f. le b f.beat ≡ true) fs
      → All (λ f. le a f.beat ≡ true) fs
  All-later a b [] h k = tt
  All-later a b (f ∷ fs) h (k, ks) = (order.trans a b f.beat h k, All-later a b fs h ks)

  insert-IsSorted :
      (e : ScheduledEvent V) (fs : List (ScheduledEvent V))
      → IsSorted le fs
      → IsSorted le (insert_by_beat zero_beat lt le e fs)
  unfolding insert_by_beat
  insert-IsSorted e [] h = (tt, tt)
  insert-IsSorted e (f ∷ fs) (k, ks) = elim (Bool-cases (lt f.beat e.beat)) [
    | inl before ↦ rw before (
      All-insert f.beat e fs
          (order.total e.beat f.beat (ground (arith, before, order.strict f.beat e.beat))) k,
      insert-IsSorted e fs ks,
    )
    | inr after ↦
        let first : le e.beat f.beat ≡ true = ground (arith, after, order.strict f.beat e.beat) in
        rw after ((first, All-later e.beat f.beat fs first k), (k, ks))
  ]

  pub sort-IsSorted : (es : List (ScheduledEvent V)) → IsSorted le (stable_sort zero_beat lt le es)
  unfolding stable_sort
  sort-IsSorted [] = tt
  sort-IsSorted (e ∷ es) = insert-IsSorted e (stable_sort zero_beat lt le es) (sort-IsSorted es)

  insert_first :
      (e : ScheduledEvent V) (fs : List (ScheduledEvent V))
      → All (λ f. le e.beat f.beat ≡ true) fs
      → insert_by_beat zero_beat lt le e fs ≡ e ∷ fs
  unfolding insert_by_beat
  insert_first e [] h = refl
  insert_first e (f ∷ fs) (h, hs) = ground (arith, h, order.strict f.beat e.beat)

  All-filter :
      (b : V) (p : ScheduledEvent V → Bool) (fs : List (ScheduledEvent V))
      → All (λ f. le b f.beat ≡ true) fs
      → All (λ f. le b f.beat ≡ true) (filter p fs)
  All-filter b p [] h = tt
  All-filter b p (f ∷ fs) (h, hs) = elim (Bool-cases (p f)) [
    | inl kept ↦ rw kept (h, All-filter b p fs hs)
    | inr dropped ↦ rw dropped (All-filter b p fs hs)
  ]

  filter-insert :
      (p : ScheduledEvent V → Bool) (e : ScheduledEvent V) (fs : List (ScheduledEvent V))
      → IsSorted le fs
      → filter p (insert_by_beat zero_beat lt le e fs)
        ≡ (if p e then insert_by_beat zero_beat lt le e (filter p fs) else filter p fs)
  unfolding insert_by_beat
  filter-insert p e [] h = refl
  filter-insert p e (f ∷ fs) (k, ks) = elim (Bool-cases (lt f.beat e.beat)) [
    | inl before ↦ ground (arith, before, filter-insert p e fs ks)
    | inr after ↦
        let first : le e.beat f.beat ≡ true = ground (arith, after, order.strict f.beat e.beat) in
        let alone =
          insert_first e (filter p (f ∷ fs))
            (All-filter e.beat p (f ∷ fs) (first, All-later e.beat f.beat fs first k)) in
        rw after (ap (λ rest. if p e then rest else filter p (f ∷ fs)) (sym alone))
  ]

  -- Sorting and picking go in either order.
  pub filter-sort :
      (p : ScheduledEvent V → Bool) (es : List (ScheduledEvent V))
      → filter p (stable_sort zero_beat lt le es) ≡ stable_sort zero_beat lt le (filter p es)
  unfolding stable_sort
  filter-sort p [] = refl
  filter-sort p (e ∷ es) =
      filter-insert p e (stable_sort zero_beat lt le es) (sort-IsSorted es)
      ∙ elim (Bool-cases (p e)) [
        | inl kept ↦ rw kept (ap (insert_by_beat zero_beat lt le e) (filter-sort p es))
        | inr dropped ↦ rw dropped (filter-sort p es)
      ]

  sort-sorted :
      (es : List (ScheduledEvent V)) → IsSorted le es → stable_sort zero_beat lt le es ≡ es
  unfolding stable_sort
  sort-sorted [] h = refl
  sort-sorted (e ∷ es) (h, hs) =
      ap (insert_by_beat zero_beat lt le e) (sort-sorted es hs) ∙ insert_first e es h

  pub none_due :
      (b now : V) (es : List (ScheduledEvent V))
      → le b now ≡ false
      → All (λ f. le b f.beat ≡ true) es
      → (due le now es ≡ []) × (waiting le now es ≡ es)
  none_due b now [] h k = (refl, refl)
  none_due b now (e ∷ es) h (k, ks) =
      let r = none_due b now es h ks in
      let early : le e.beat now ≡ false = elim (Bool-cases (le e.beat now)) [
        | inl ready ↦ absurd (ground (arith, h, order.trans b e.beat now k ready))
        | inr early ↦ early
      ] in
      rw early (r.0, ap (◌∷◌ e) r.1)

  due_of_waiting :
      (now later : V) (es : List (ScheduledEvent V))
      → le now later ≡ true
      → IsSorted le es
      → (due le now es ++ due le later (waiting le now es) ≡ due le later es)
        × (waiting le later (waiting le now es) ≡ waiting le later es)
  due_of_waiting now later [] h k = (refl, refl)
  due_of_waiting now later (e ∷ es) h (k, ks) = elim (Bool-cases (le e.beat now)) [
    | inl ready ↦
        let r = due_of_waiting now later es h ks in
        rw (ready, order.trans e.beat now later ready h) (ap (◌∷◌ e) r.0, r.1)
    | inr early ↦ let r = none_due e.beat now es early k in rw (early, r.0, r.1) (refl, refl)
  ]

  -- What is due at a later time, in two parts.
  pub due_twice :
      (now later : V) (es : List (ScheduledEvent V))
      → le now later ≡ true
      → let sort = stable_sort zero_beat lt le in
        (sort (due le now es) ++ sort (due le later (sort (waiting le now es)))
          ≡ sort (due le later es))
        × (sort (waiting le later (sort (waiting le now es))) ≡ sort (waiting le later es))
  due_twice now later es h =
      let sort = stable_sort zero_beat lt le in
      let pick = filter-sort in
      let ready : ScheduledEvent V → Bool = λ e. le e.beat later in
      let left : ScheduledEvent V → Bool = λ e. not (le e.beat now) in
      let rest : sort (sort (waiting le now es)) ≡ waiting le now (sort es) =
        sort-sorted _ (sort-IsSorted (waiting le now es)) ∙ sym (pick left es) in
      let r = due_of_waiting now later (sort es) h (sort-IsSorted es) in
      (
        ap₂ ◌++◌ (sym (pick (λ e. le e.beat now) es)) (sym (pick ready _) ∙ ap (due le later) rest)
            ∙ r.0
            ∙ pick ready es,
        sym (pick (λ e. not (le e.beat later)) _)
            ∙ ap (waiting le later) rest
            ∙ r.1
            ∙ pick (λ e. not (le e.beat later)) es,
      )
