-- ===== src/Sandbox/Shell.antt =====
-- The persistent shell: the starts and restarts of `SandboxSession` (src/xarness/sandbox.py). What
-- `SandboxConfig.mount_key` computes is a value of a type `Key` with its equality test; a shell is
-- known by the number of its start. `run` is here up to the write of the command; what it reads is in
-- Sandbox/Capture.antt.
use xarness.Prelude.{
  ℕ, suc, ◌≤◌, ◌≡◌, refl, ◌⊎◌, inl, inr, Bool, true, false, not, ◌&&◌, Option, none, some, arith,
  if◌then◌else◌,
}

-- A process, and whether `returncode is None`.
pub record Shell : Type 0 where
  pub number : ℕ
  pub alive : Bool

-- `SandboxSession`, with the key of its configuration and the number of the next start.
pub record SandboxSession (Key : Type 0) : Type 0 where
  pub config_key : Key
  pub default_timeout : ℕ
  pub mount_key : Option Key
  pub proc : Option Shell
  pub next : ℕ

module _ {Key : Type 0} (same : Key → Key → Bool) where
  -- `adopt`
  unfoldable pub adopt : Key → Option ℕ → SandboxSession Key → SandboxSession Key
  adopt key none s = record s { config_key = key }
  adopt key (some timeout) s = record s { config_key = key; default_timeout = timeout }

  -- `close`
  unfoldable pub close : SandboxSession Key → SandboxSession Key
  close s = record s { proc = none }

  abbrev pub start : SandboxSession Key → SandboxSession Key
  start s = record s {
    mount_key = some s.config_key;
    proc = some (record { number = s.next; alive = true });
    next = suc s.next;
  }

  abbrev pub same_key : Option Key → Key → Bool
  same_key none key = false
  same_key (some old) key = same old key

  -- `_ensure_started`
  unfoldable pub ensure_started : SandboxSession Key → SandboxSession Key
  unfolding close
  ensure_started s = elim s.proc [
    | none ↦ start s
    | some shell ↦
        if not shell.alive
        then start s
        else if same_key s.mount_key s.config_key
        then s
        else start (close s)
  ]

  -- The start of `run`: `broken` says whether the write of the command finds the pipe closed.
  unfoldable pub send : Bool → SandboxSession Key → SandboxSession Key
  unfolding ensure_started close
  send broken s =
      let started = ensure_started s in if broken then ensure_started (close started) else started

  -- The shell that a session has, if it lives and was started under the mounts of the configuration.
  unfoldable pub usable : SandboxSession Key → Bool
  usable s = elim s.proc [
    | none ↦ false
    | some shell ↦ shell.alive && same_key s.mount_key s.config_key
  ]

  usable_parts :
      (s : SandboxSession Key) (shell : Shell)
      → s.proc ≡ some shell
      → usable s ≡ (shell.alive && same_key s.mount_key s.config_key)
  unfolding usable
  usable_parts s shell e = rw (usable, e) refl

  -- `_ensure_started` leaves a usable shell as it is, and starts another one otherwise.
  ensure_started_lem :
      (s : SandboxSession Key)
      → ((usable s ≡ true) × (ensure_started s ≡ s))
        ⊎ ((usable s ≡ false) × (ensure_started s ≡ start s))
  unfolding ensure_started close usable
  ensure_started_lem s = ground arith

  ensure_started-next : (s : SandboxSession Key) → s.next ≤ (ensure_started s).next
  ensure_started-next s = elim (ensure_started_lem s) [
    | inl (u, e) ↦ rw e (omega arith)
    | inr (u, e) ↦ rw e (omega arith)
  ]

  start-usable :
      (s : SandboxSession Key) → ((key : Key) → same key key ≡ true) → usable (start s) ≡ true
  unfolding usable
  start-usable s r = r s.config_key

  -- A command is sent to a shell that lives and was started under the mounts of the configuration: the one
  -- there was, if it was so and its pipe is open, and otherwise one that was started since.
  pub send-usable :
      (broken : Bool) (s : SandboxSession Key)
      → ((key : Key) → same key key ≡ true)
      → (usable (send broken s) ≡ true)
        × (((broken ≡ false) × (usable s ≡ true) × (send broken s ≡ s))
            ⊎ ((shell : Shell) × ((send broken s).proc ≡ some shell) × (s.next ≤ shell.number)))
  unfolding send usable close
  send-usable true s r = (
    start-usable (close (ensure_started s)) r,
    inr (record { number = (ensure_started s).next; alive = true }, refl, ensure_started-next s),
  )
  send-usable false s r = elim (ensure_started_lem s) [
    | inl (u, e) ↦ (rw e u, inl (refl, u, e))
    | inr (u, e) ↦ (
      rw e (start-usable s r),
      inr (record { number = s.next; alive = true }, rw e refl, omega arith),
    )
  ]
