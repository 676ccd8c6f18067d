-- ===== src/Session/Queue.antt =====
-- The steering queue of src/xarness/session.py: what comes into it and what leaves it.
use xarness.Prelude.{◌≡◌, refl}
use xarness.Session.{Session, Event, emit}

emit-queued : (e : Event) (s : Session) → (emit e s).queued ≡ s.queued
unfolding emit
emit-queued e s = refl
