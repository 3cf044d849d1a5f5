-- ===== src/Logging/Tests.antt =====
-- src/logging.rs: one event.
use processkit_py.Common.{◌≡◌, refl, true, some, [], ◌∷◌, ok, codes, text_eq}
use processkit_py.Logging.{warn, Event, Python, on_event}

abbrev python : Python
python = record { imports = ok tt; get_logger = λ target. ok tt; log = ok tt }

abbrev event : Event
event = record {
  level = warn;
  target = codes "processkit";
  fields = (codes "pid", codes "7") ∷ (codes "message", codes "spawned") ∷ [];
}

event_logged :
    on_event true python event
    ≡ some (record { target = codes "processkit"; level = 30; message = codes "spawned pid=7" })
unfolding on_event text_eq
event_logged = refl
