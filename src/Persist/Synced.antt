-- ===== src/Persist/Synced.antt =====
-- The invariant of the background writer of src/xarness/session.py.
use xarness.Prelude.{
  ◌≡◌, refl, sym, subst, Bool, true, false, not, ◌&&◌, ◌||◌, some, List, [], ◌∷◌, ◌++◌, arith, inl,
  inr, Bool-cases, if◌then◌else◌,
}
use xarness.Conversation.Message.{Message}
use xarness.Conversation.Log.{Conversation, lowest, take_dirty_from, mark_dirty}
use xarness.Conversation.Mutation.Kept.{Changes, mutate-Changes}
use xarness.Store.{Saved, Payload, serialize_state, write_state}
use xarness.Store.Rows.{number}
use xarness.Store.Sync.{
  Agree, Agree-take, Agree-Changes, Agree-Changes_marked, write_state-serialize_state,
}
use xarness.Persist.{
  Persister, Writer, stopped, looping, writing, started, persist, persist_state, start_write,
  loop_head, write_succeeds, write_fails, write_cancelled, Step, change, spend, request, head,
  succeed, fail, cancel, cancel_head, land, lose, Reach, here, next,
}

-- No cancelled write is under way.
abbrev pub settled : List Payload → Bool
settled [] = true
settled (p ∷ ps) = false

settled→≡ : (ps : List Payload) → settled ps ≡ true → ps ≡ []
settled→≡ [] h = refl
settled→≡ (p ∷ ps) h = absurd (ground arith)

-- The steps that take care of cancelled writes: none is lost, and the writer begins no write while
-- one is under way.
abbrev pub step_orderly : {s t : Persister} → Step s t → Bool
step_orderly (head s e) = not s.dirty || settled s.abandoned
step_orderly (lose s before after p e) = false
step_orderly _ = true

abbrev pub orderly : {s t : Persister} → Reach s t → Bool
orderly here = true
orderly (next r st) = orderly r && step_orderly st

-- The write leaves messages on disk of which the watermark says what still holds.
abbrev pub Lands : Conversation → Saved → Payload → Type 0
Lands c saved p =
    (target : List Message) × ((write_state p saved).rows ≡ number 0 target)
    × Agree c.dirty_from target c.messages

-- The messages `disk` are on disk, and either the watermark says which of them still hold, or a
-- write is under way: then both its outcomes leave such a state behind. Where it was cancelled, the
-- outcome that it lands does, and no other is under way.
abbrev pub Tracks : Conversation → List Message → Saved → List Payload → Writer → Type 0
Tracks c disk saved [] stopped = Agree c.dirty_from disk c.messages
Tracks c disk saved [] looping = Agree c.dirty_from disk c.messages
Tracks c disk saved [] (writing p) =
    Lands c saved p × Agree (some (lowest p.from_seq c.dirty_from)) disk c.messages
Tracks c disk saved (p ∷ []) stopped = Lands c saved p
Tracks c disk saved (p ∷ []) looping = Lands c saved p
Tracks c disk saved (p ∷ []) (writing q) = true ≡ false
Tracks c disk saved (p ∷ q ∷ ps) w = true ≡ false

pub record IsSynced (s : Persister) : Type 0 where
  pub disk : List Message
  pub rows : s.saved.rows ≡ number 0 disk
  pub tracks : Tracks s.conversation disk s.saved s.abandoned s.writer

Lands-Changes :
    (saved : Saved) (p : Payload) {c c' : Conversation}
    → Changes c c'
    → Lands c saved p
    → Lands c' saved p
Lands-Changes saved p h (target, e, t) = (target, e, Agree-Changes target h t)

Tracks-Changes :
    (disk : List Message) (saved : Saved) (ps : List Payload) (w : Writer) {c c' : Conversation}
    → Changes c c'
    → Tracks c disk saved ps w
    → Tracks c' disk saved ps w
Tracks-Changes disk saved [] stopped h t = Agree-Changes disk h t
Tracks-Changes disk saved [] looping h t = Agree-Changes disk h t
Tracks-Changes disk saved [] (writing p) h (l, f) =
    (Lands-Changes saved p h l, Agree-Changes_marked p.from_seq disk h f)
Tracks-Changes disk saved (p ∷ []) stopped h l = Lands-Changes saved p h l
Tracks-Changes disk saved (p ∷ []) looping h l = Lands-Changes saved p h l
Tracks-Changes disk saved (p ∷ []) (writing q) h e = e
Tracks-Changes disk saved (p ∷ q ∷ ps) w h e = e

Tracks-started :
    (c : Conversation) (disk : List Message) (saved : Saved) (ps : List Payload) (w : Writer)
    → Tracks c disk saved ps w
    → Tracks c disk saved ps (started w)
Tracks-started c disk saved [] stopped t = t
Tracks-started c disk saved [] looping t = t
Tracks-started c disk saved [] (writing p) t = t
Tracks-started c disk saved (p ∷ []) stopped t = t
Tracks-started c disk saved (p ∷ []) looping t = t
Tracks-started c disk saved (p ∷ []) (writing q) t = t
Tracks-started c disk saved (p ∷ q ∷ ps) w t = t

Tracks-stopped :
    (c : Conversation) (disk : List Message) (saved : Saved) (ps : List Payload)
    → Tracks c disk saved ps looping
    → Tracks c disk saved ps stopped
Tracks-stopped c disk saved [] t = t
Tracks-stopped c disk saved (p ∷ []) t = t
Tracks-stopped c disk saved (p ∷ q ∷ ps) t = t

-- While a write is awaited no cancelled one is under way.
Tracks-writing :
    (c : Conversation) (disk : List Message) (saved : Saved) (ps : List Payload) (p : Payload)
    → Tracks c disk saved ps (writing p)
    → (ps ≡ []) × Lands c saved p × Agree (some (lowest p.from_seq c.dirty_from)) disk c.messages
Tracks-writing c disk saved [] p t = (refl, t.0, t.1)
Tracks-writing c disk saved (q ∷ []) p t = absurd (ground arith)
Tracks-writing c disk saved (q ∷ r ∷ ps) p t = absurd (ground arith)

-- A cancelled write that is under way is the only one, and nothing is awaited.
Tracks-land :
    (c : Conversation) (disk : List Message) (saved : Saved) (before after : List Payload)
    (p : Payload) (w : Writer)
    → Tracks c disk saved (before ++ p ∷ after) w
    → (target : List Message) × ((write_state p saved).rows ≡ number 0 target)
      × Tracks c target (write_state p saved) (before ++ after) w
Tracks-land c disk saved [] [] p stopped t = t
Tracks-land c disk saved [] [] p looping t = t
Tracks-land c disk saved [] [] p (writing q) t = absurd (ground arith)
Tracks-land c disk saved [] (q ∷ after) p w t = absurd (ground arith)
Tracks-land c disk saved (q ∷ []) after p w t = absurd (ground arith)
Tracks-land c disk saved (q ∷ r ∷ before) after p w t = absurd (ground arith)

persist-IsSynced : (s : Persister) → IsSynced s → IsSynced (persist s)
unfolding persist
persist-IsSynced s h =
    elim s.no_save
      as (λ b. IsSynced (if b then s else record s { dirty = true; writer = started s.writer })) [
        | true ↦ h
        | false ↦ record {
          disk = h.disk;
          rows = h.rows;
          tracks = Tracks-started s.conversation h.disk s.saved s.abandoned s.writer h.tracks;
        }
      ]

Tracks-at :
    (s : Persister) (w : Writer)
    → s.writer ≡ w
    → (h : IsSynced s) → Tracks s.conversation h.disk s.saved s.abandoned w
Tracks-at s w e h = subst (Tracks s.conversation h.disk s.saved s.abandoned) e h.tracks

stop-IsSynced :
    (s : Persister) → s.writer ≡ looping → IsSynced s → IsSynced (record s { writer = stopped })
stop-IsSynced s e h = record {
  disk = h.disk;
  rows = h.rows;
  tracks = Tracks-stopped s.conversation h.disk s.saved s.abandoned (Tracks-at s looping e h);
}

-- With nothing cancelled under way, at the head of the loop.
head-Agree :
    (s : Persister)
    → s.writer ≡ looping
    → s.abandoned ≡ []
    → (h : IsSynced s) → Agree s.conversation.dirty_from h.disk s.conversation.messages
head-Agree s e n h =
    subst (λ ps. Tracks s.conversation h.disk s.saved ps looping) n (Tracks-at s looping e h)

start_write-IsSynced :
    (s : Persister) → s.writer ≡ looping → s.abandoned ≡ [] → IsSynced s → IsSynced (start_write s)
unfolding start_write take_dirty_from serialize_state
start_write-IsSynced s e n h =
    let agree = head-Agree s e n h in
    record {
      disk = h.disk;
      rows = h.rows;
      tracks =
          subst
            (λ ps.
              Tracks (take_dirty_from s.conversation).1 h.disk s.saved ps
                (writing (persist_state s).0))
            (sym n)
            (
              (
                s.conversation.messages,
                write_state-serialize_state s.conversation s.usage_total s.last_usage h.disk s.saved
                    h.rows agree,
                refl,
              ),
              (
                omega arith,
                Agree-take s.conversation.dirty_from h.disk s.conversation.messages agree,
              ),
            );
    }

head-IsSynced :
    (s : Persister)
    → s.writer ≡ looping
    → (not s.dirty || settled s.abandoned) ≡ true
    → IsSynced s
    → IsSynced (loop_head s)
unfolding loop_head
head-IsSynced s e o h = elim (Bool-cases s.dirty) [
  | inl d ↦
      let n : settled s.abandoned ≡ true = ground arith in
      subst (λ b. IsSynced (if b then start_write s else record s { writer = stopped })) (sym d)
        (start_write-IsSynced s e (settled→≡ s.abandoned n) h)
  | inr d ↦
      subst (λ b. IsSynced (if b then start_write s else record s { writer = stopped })) (sym d)
        (stop-IsSynced s e h)
]

succeed-IsSynced :
    (s : Persister) (p : Payload)
    → s.writer ≡ writing p
    → IsSynced s
    → IsSynced (write_succeeds p s)
unfolding write_succeeds
succeed-IsSynced s p e h =
    let (n, (target, rows, agree), _) =
      Tracks-writing s.conversation h.disk s.saved s.abandoned p (Tracks-at s (writing p) e h) in
    record {
      disk = target;
      rows = rows;
      tracks =
          subst (λ ps. Tracks s.conversation target (write_state p s.saved) ps looping) (sym n)
            agree;
    }

fail-IsSynced :
    (s : Persister) (p : Payload) → s.writer ≡ writing p → IsSynced s → IsSynced (write_fails p s)
unfolding write_fails mark_dirty
fail-IsSynced s p e h =
    let (n, _, agree) =
      Tracks-writing s.conversation h.disk s.saved s.abandoned p (Tracks-at s (writing p) e h) in
    record {
      disk = h.disk;
      rows = h.rows;
      tracks =
          subst (λ ps. Tracks (mark_dirty p.from_seq s.conversation) h.disk s.saved ps stopped)
            (sym n) agree;
    }

cancel-IsSynced :
    (s : Persister) (p : Payload)
    → s.writer ≡ writing p
    → IsSynced s
    → IsSynced (write_cancelled p s)
unfolding write_cancelled
cancel-IsSynced s p e h =
    let (n, lands, _) =
      Tracks-writing s.conversation h.disk s.saved s.abandoned p (Tracks-at s (writing p) e h) in
    record {
      disk = h.disk;
      rows = h.rows;
      tracks = subst (λ ps. Tracks s.conversation h.disk s.saved (p ∷ ps) stopped) (sym n) lands;
    }

land-IsSynced :
    (s : Persister) (before after : List Payload) (p : Payload)
    → s.abandoned ≡ before ++ p ∷ after
    → IsSynced s
    → IsSynced (record s { saved = write_state p s.saved; abandoned = before ++ after })
land-IsSynced s before after p e h =
    let (target, rows, tracks) =
      Tracks-land s.conversation h.disk s.saved before after p s.writer
        (subst (λ ps. Tracks s.conversation h.disk s.saved ps s.writer) e h.tracks) in
    record { disk = target; rows = rows; tracks = tracks }

pub Step-IsSynced :
    {s t : Persister} (st : Step s t) → step_orderly st ≡ true → IsSynced s → IsSynced t
Step-IsSynced (change s μ) o h = record {
  disk = h.disk;
  rows = h.rows;
  tracks =
      Tracks-Changes h.disk s.saved s.abandoned s.writer (mutate-Changes μ s.conversation) h.tracks;
}
Step-IsSynced (spend s total last) o h = record { disk = h.disk; rows = h.rows; tracks = h.tracks }
Step-IsSynced (request s) o h = persist-IsSynced s h
Step-IsSynced (head s e) o h = head-IsSynced s e o h
Step-IsSynced (succeed s p e) o h = succeed-IsSynced s p e h
Step-IsSynced (fail s p e) o h = fail-IsSynced s p e h
Step-IsSynced (cancel s p e) o h = cancel-IsSynced s p e h
Step-IsSynced (cancel_head s e) o h = stop-IsSynced s e h
Step-IsSynced (land s before after p e) o h = land-IsSynced s before after p e h
Step-IsSynced (lose s before after p e) o h = absurd (ground arith)

pub Reach-IsSynced : {s t : Persister} (r : Reach s t) → orderly r ≡ true → IsSynced s → IsSynced t
Reach-IsSynced here o h = h
Reach-IsSynced (next r st) o h =
    let before : orderly r ≡ true = ground arith in
    let now : step_orderly st ≡ true = ground arith in
    Step-IsSynced st now (Reach-IsSynced r before h)
