-- ===== src/Control/Log.antt =====
-- src/rt_control_thread.cpp: the messages of a session, `session_open`, `session_close`, `register_source` and `tx_log`.
use nomos_rt.Common.{ℕ, if◌then◌else◌, Option, none, some, List, [], codes, bytes_eq}
use nomos_rt.Edn.{Edn, string, tagged, Dictionary, as_int, as_string, as_keyword, present, value_or}
use nomos_rt.Session.{LogEntry, SourceInfo, Session, open_session, register_source, emit}
use nomos_rt.Control.Host.{Host}
use nomos_rt.Control.State.{Control, payload_map, double_or}
use nomos_rt.Control.Uuid.{parse_uuid}

module _ (h : Host) where
  open h use {num, find_kw}

  unfoldable pub session_open : Control h → Control h
  session_open c = record c { session = open_session h.opens }

  -- `sess->close()` and `sess.reset()`: the session with its log is gone.
  unfoldable pub session_close : Control h → Control h
  session_close c = record c { session = none }

  unfoldable pub source_info : Dictionary num.D → Option SourceInfo
  source_info m = elim (as_keyword (find_kw m (codes "id"))) [
    | none ↦ none
    | some id ↦ some (record {
      id = id;
      name = value_or (as_string (find_kw m (codes "name"))) [];
      description = value_or (as_string (find_kw m (codes "description"))) [];
    })
  ]

  unfoldable pub uuid_of : Option (Edn num.D) → List ℕ → List ℕ
  uuid_of (some (tagged tag (string s))) default =
      if bytes_eq tag (codes "uuid") then parse_uuid s else default
  uuid_of e default = default

  -- A field of the entry that is not in the map keeps the value that the constructor gives it.
  unfoldable pub log_entry : Dictionary num.D → LogEntry num.D
  unfolding uuid_of double_or
  log_entry m = record {
    id = uuid_of (find_kw m (codes "id")) h.blank_entry.id;
    beat = double_or h (find_kw m (codes "beat")) h.blank_entry.beat;
    wall_ns = value_or (as_int (find_kw m (codes "wall-ns"))) h.blank_entry.wall_ns;
    source = value_or (as_keyword (find_kw m (codes "source"))) h.blank_entry.source;
    path = value_or (find_kw m (codes "path")) h.blank_entry.path;
    before = elim (present (find_kw m (codes "before"))) [
      | none ↦ h.blank_entry.before
      | some v ↦ some v
    ];
    after = elim (present (find_kw m (codes "after"))) [
      | none ↦ h.blank_entry.after
      | some v ↦ some v
    ];
    parent = elim (present (find_kw m (codes "parent"))) [
      | none ↦ h.blank_entry.parent
      | some v ↦ some v
    ];
  }

  -- Both handlers want a session; `none` where the handler leaves it alone.
  unfoldable pub registered : Option SourceInfo → Session num.D → Session num.D
  registered none s = s
  registered (some info) s = register_source info s

  unfoldable pub emitted : Dictionary num.D → Session num.D → Session num.D
  emitted m s = emit (log_entry m) s

  unfoldable pub session_payload :
      (Dictionary num.D → Session num.D → Session num.D)
      → Option (Dictionary num.D)
      → Option (Session num.D)
      → Control h
      → Control h
  session_payload handle none o c = c
  session_payload handle (some m) none c = c
  session_payload handle (some m) (some s) c = record c { session = some (handle m s) }

  unfoldable pub session_message :
      (Dictionary num.D → Session num.D → Session num.D) → List ℕ → Control h → Control h
  unfolding session_payload
  session_message handle payload c = session_payload handle (payload_map h payload) c.session c
