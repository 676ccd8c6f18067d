-- ===== src/Host/Loading.antt =====
-- `Host.load_session` of src/xarness/host.py for one name: coroutines that load it at the same time, each
-- step of one between two of its awaits. Loading, which `_load_session_locked` does under the lock, ends
-- with a new session or with an error; a session is known by a number. Nothing evicts the session
-- between the steps.
pub mod One
use xarness.Prelude.{
  ℕ, zero, suc, ◌+◌, Bool, true, false, Option, none, some, List, [], ◌∷◌, if◌then◌else◌,
}

-- A call of `load_session`.
pub data Loader : Type 0 where
  entering waiting loading failed : Loader
  loaded : ℕ → Loader

-- `self.sessions.get(name)`, whether the name's lock is held, and the number of the next session.
pub record Hosted : Type 0 where
  pub session : Option ℕ
  pub locked : Bool
  pub next : ℕ

abbrev pub LoaderTurn : Type 0
LoaderTurn = Loader × Hosted

-- The lock is taken, and the sessions are looked at again.
abbrev pub take_lock : Hosted → LoaderTurn
take_lock h = elim h.session [
  | none ↦ (loading, record h { locked = true })
  | some session ↦ (loaded session, h)
]

-- `load_session` up to the lock: `async with` takes a free lock at once.
abbrev pub enter : Hosted → LoaderTurn
enter h = elim h.session [
  | none ↦ if h.locked then (waiting, h) else take_lock h
  | some session ↦ (loaded session, h)
]

-- The end of `_load_session_locked`, and the release of the lock.
abbrev pub publish : Hosted → LoaderTurn
publish h = (loaded h.next, record { session = some h.next; locked = false; next = suc h.next })

-- One step of a call; `fails` says whether loading ends with an error.
unfoldable pub load_step : Bool → Loader → Hosted → LoaderTurn
load_step fails entering h = enter h
load_step fails waiting h = if h.locked then (waiting, h) else take_lock h
load_step fails loading h = if fails then (failed, record h { locked = false }) else publish h
load_step fails failed h = (failed, h)
load_step fails (loaded session) h = (loaded session, h)

abbrev pub in_front : Loader → List Loader × Hosted → List Loader × Hosted
in_front loader rest = (loader ∷ rest.0, rest.1)

-- The call with a number takes a step.
unfoldable pub advance_at : Bool → ℕ → List Loader → Hosted → List Loader × Hosted
unfolding load_step
advance_at fails i [] h = ([], h)
advance_at fails zero (loader ∷ loaders) h =
    let turn = load_step fails loader h in (turn.0 ∷ loaders, turn.1)
advance_at fails (suc i) (loader ∷ loaders) h = in_front loader (advance_at fails i loaders h)

-- Steps of calls, each with its number and whether loading fails in it.
unfoldable pub advance_all : List (Bool × ℕ) → List Loader → Hosted → List Loader × Hosted
unfolding advance_at
advance_all [] loaders h = (loaders, h)
advance_all ((fails, i) ∷ steps) loaders h =
    let next = advance_at fails i loaders h in advance_all steps next.0 next.1
