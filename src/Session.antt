-- ===== src/Session.antt =====
-- src/session.cpp and include/nomos/rt/session.hpp: a session owns a log. The log is the txlog library's; the model
-- records what is put into it.
use nomos_rt.Common.{ℕ, Bool, true, false, if◌then◌else◌, Option, none, some, List, [], ◌∷◌, ◌++◌}
use nomos_rt.Edn.{Edn, Text}

-- `txlog::entry`
pub record LogEntry (D : Type 0) : Type 0 where
  pub id : List ℕ
  pub beat : D
  pub wall_ns : ℕ
  pub source : Text
  pub path : Edn D
  pub before : Option (Edn D)
  pub after : Option (Edn D)
  pub parent : Option (Edn D)

-- `source_info`
pub record SourceInfo : Type 0 where
  pub id : Text
  pub name : Text
  pub description : Text

pub data LogCall (D : Type 0) : Type 0 where
  registered : SourceInfo → LogCall D
  emitted : LogEntry D → LogCall D

-- `log_` is empty after `close`.
pub record Session (D : Type 0) : Type 0 where
  pub log : Option (List (LogCall D))

module _ {D : Type 0} where
  -- `session::open`; the database opens or its constructor throws.
  unfoldable pub open_session : Bool → Option (Session D)
  open_session opens = if opens then some (record { log = some [] }) else none

  unfoldable pub close : Session D → Session D
  close s = record { log = none }

  unfoldable pub is_open : Session D → Bool
  is_open s = elim (s.log) [ none ↦ false | some calls ↦ true ]

  unfoldable pub logged : LogCall D → Option (List (LogCall D)) → Option (List (LogCall D))
  logged call none = none
  logged call (some calls) = some (calls ++ call ∷ [])

  unfoldable pub register_source : SourceInfo → Session D → Session D
  register_source info s = record { log = logged (registered info) s.log }

  unfoldable pub emit : LogEntry D → Session D → Session D
  emit e s = record { log = logged (emitted e) s.log }
