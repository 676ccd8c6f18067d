-- ===== src/Client/Stream.antt =====
-- The events of a whole round of src/xarness/client.py: how it ends, and that each tool call that
-- is announced is finished.
use xarness.Prelude.{
  ℕ, zero, suc, ◌+◌, ◌≡◌, refl, sym, ◌∙◌, Bool, true, false, ◌||◌, ◌⊎◌, inl, inr, any, any-append,
  ap, Option, none, some, List, [], ◌∷◌, ◌++◌, append-nil, append_assoc, Text, nonempty, eqb, arith,
  if◌then◌else◌,
}
use xarness.Conversation.Message.{Usage}
use xarness.Protocol.{StreamEvent, round_complete, stream_error}
use xarness.Client.{
  Accumulator, finish, Chunk, choice_events, Decoded, Line, skipped, done, raising, chunk, Ending,
  complete, dropped, Attempt, unreachable, status, response, Reading, no_reading, later_usage,
  Verdict, ended, refused, raised, broken, classify, Read, read_chunk, read_line, read_lines,
  retry_attempts, retry, finished, after_lines, try_once, attempts, stream,
}
use xarness.Client.Events.{
  is_terminal, ends_once, starts, dones, completes, entry_ids, starts-append, dones-append,
  ends_once-append, completes-append,
}
use xarness.Client.Growth.{Grows, Grows-nil, Grows-append, choice_events-Grows}

-- The code raises on a line.
abbrev is_raising : Line → Bool
is_raising raising = true
is_raising _ = false

module _ (Raised : Type 0) where
  -- Reading ends open, or with the provider's error; where an exception ended it, `Raised` holds.
  abbrev AfterLines : Accumulator → List StreamEvent → Verdict → Reading → Type 0
  AfterLines acc es ended r = Grows acc es r.calls
  AfterLines acc es refused r = (ends_once es ≡ true) × (completes es ≡ false)
  AfterLines acc es raised r = Raised × Grows acc es r.calls
  AfterLines acc es (broken failure) r = Grows acc es r.calls

  AfterLines-append :
      (a b : Accumulator) (xs ys : List StreamEvent) (v : Verdict) (r : Reading)
      → Grows a xs b
      → AfterLines b ys v r
      → AfterLines a (xs ++ ys) v r
  AfterLines-append a b xs ys ended r h k = Grows-append a b r.calls xs ys h k
  AfterLines-append a b xs ys refused r h (k, l) =
      (ends_once-append xs ys h.is_open.unended ∙ k, completes-append xs ys h.is_open.unended ∙ l)
  AfterLines-append a b xs ys raised r h (e, k) = (e, Grows-append a b r.calls xs ys h k)
  AfterLines-append a b xs ys (broken failure) r h k = Grows-append a b r.calls xs ys h k

  read_chunk-AfterLines :
      (error : Option Text) (c : Chunk) (r : Reading) (rest : Reading → Read)
      → ((r' : Reading) → let (es, v, s) = rest r' in AfterLines r'.calls es v s)
      → let (es, v, s) = read_chunk error c r rest in AfterLines r.calls es v s
  unfolding read_chunk
  read_chunk-AfterLines (some message) c r rest h = (refl, refl)
  read_chunk-AfterLines none c r rest h =
      let (events, calls) = choice_events c.choices r.calls in
      let r' : Reading = record {
        usage = later_usage c.usage r.usage;
        calls = calls;
        received_any = r.received_any || nonempty events;
      } in
      AfterLines-append r.calls calls events (rest r').0 (rest r').1 (rest r').2
        (choice_events-Grows c.choices r.calls) (h r')

  read_line-AfterLines :
      (l : Line) (r : Reading) (rest : Reading → Read)
      → (is_raising l ≡ true → Raised)
      → ((r' : Reading) → let (es, v, s) = rest r' in AfterLines r'.calls es v s)
      → let (es, v, s) = read_line l r rest in AfterLines r.calls es v s
  unfolding read_line
  read_line-AfterLines skipped r rest e h = h r
  read_line-AfterLines done r rest e h = Grows-nil r.calls
  read_line-AfterLines raising r rest e h = (e refl, Grows-nil r.calls)
  read_line-AfterLines (chunk c) r rest e h = read_chunk-AfterLines c.error c r rest h

  -- What a round that goes on from the entries `acc` guarantees.
  record IsRound (acc : Accumulator) (es : List StreamEvent) : Type 0 where
    ends : (ends_once es ≡ true) ⊎ (Raised × (any is_terminal es ≡ false))
    matched : completes es ≡ true → entry_ids acc ++ starts es ≡ dones es

  error-IsRound : (acc : Accumulator) (failure : Text) → IsRound acc (stream_error failure ∷ [])
  error-IsRound acc failure = record { ends = inl refl; matched = λ h. absurd (ground arith) }

  ends-append :
      (xs ys : List StreamEvent)
      → any is_terminal xs ≡ false
      → (ends_once ys ≡ true) ⊎ (Raised × (any is_terminal ys ≡ false))
      → (ends_once (xs ++ ys) ≡ true) ⊎ (Raised × (any is_terminal (xs ++ ys) ≡ false))
  ends-append xs ys h (inl e) = inl (ends_once-append xs ys h ∙ e)
  ends-append xs ys h (inr (r, e)) = inr (r, any-append is_terminal xs ys ∙ rw (h, e) refl)

  IsRound-append :
      (a b : Accumulator) (xs ys : List StreamEvent)
      → Grows a xs b
      → IsRound b ys
      → IsRound a (xs ++ ys)
  IsRound-append a b xs ys h k = record {
    ends = ends-append xs ys h.is_open.unended k.ends;
    matched = λ p.
        rw
          (
            starts-append xs ys,
            dones-append xs ys,
            h.is_open.announced,
            h.is_open.unfinished,
            ← append_assoc,
            ← h.gained,
          )
          (k.matched (sym (completes-append xs ys h.is_open.unended) ∙ p));
  }

  -- A round that an exception ends is left open.
  raised-IsRound :
      (a b : Accumulator) (xs : List StreamEvent) → Grows a xs b → Raised → IsRound a xs
  raised-IsRound a b xs h e = record {
    ends = inr (e, h.is_open.unended);
    matched = λ p.
        let same : completes xs ≡ false =
          ap completes (sym (append-nil xs)) ∙ completes-append xs [] h.is_open.unended in
        absurd (ground (arith, same, p));
  }

finish_round :
    (u : Option Usage) (b : Bool) (acc : Accumulator)
    → (ends_once (finish acc ++ round_complete u b ∷ []) ≡ true)
      × (starts (finish acc ++ round_complete u b ∷ []) ≡ [])
      × (dones (finish acc ++ round_complete u b ∷ []) ≡ entry_ids acc)
unfolding finish
finish_round u b [] = (refl, refl, refl)
finish_round u b ((i, e) ∷ acc) = let (x, y, z) = finish_round u b acc in (x, y, rw z)

module _ (loads : Text → Decoded) where
  -- A response with a line on which the code raises.
  abbrev pub has_raising : Attempt → Bool
  has_raising (response lines ending) = any (λ line. is_raising (classify loads line)) lines
  has_raising _ = false

  module _ (Raised : Type 0) where
    read_lines-AfterLines :
        (ending : Ending) (lines : List Text) (r : Reading)
        → (has_raising (response lines ending) ≡ true → Raised)
        → let (es, v, r') = read_lines loads ending lines r in AfterLines Raised r.calls es v r'
    unfolding read_lines
    read_lines-AfterLines complete [] r h = Grows-nil r.calls
    read_lines-AfterLines (dropped failure) [] r h = Grows-nil r.calls
    read_lines-AfterLines ending (line ∷ lines) r h =
        read_line-AfterLines Raised (classify loads line) r (λ r'. read_lines loads ending lines r')
          (λ e. h (ground (arith, e)))
          (λ r'. read_lines-AfterLines ending lines r' (λ e. h (ground (arith, e))))

    finished-IsRound : (r : Reading) → IsRound Raised r.calls (finished loads r)
    finished-IsRound r =
        let (x, y, z) = finish_round r.usage (nonempty r.calls) r.calls in
        record { ends = inl x; matched = λ p. rw (y, z, append-nil) }

    retry-IsRound :
        (acc : Accumulator) (received : Bool) (attempt : ℕ) (failure : Text)
        (again : List StreamEvent)
        → IsRound Raised acc again
        → IsRound Raised acc (retry received attempt failure again)
    retry-IsRound acc received attempt failure again h =
        elim (received || eqb attempt retry_attempts)
          as (λ b. IsRound Raised acc (if b then stream_error failure ∷ [] else again)) [
            | true ↦ error-IsRound Raised acc failure
            | false ↦ h
          ]

    after_lines-IsRound :
        (v : Verdict) (attempt : ℕ) (acc : Accumulator) (es : List StreamEvent) (r : Reading)
        (again : Reading → List StreamEvent)
        → AfterLines Raised acc es v r
        → ((s : Reading) → IsRound Raised s.calls (again s))
        → IsRound Raised acc (after_lines loads v attempt es r again)
    unfolding after_lines
    after_lines-IsRound ended attempt acc es r again h k =
        IsRound-append Raised acc r.calls es (finished loads r) h (finished-IsRound r)
    after_lines-IsRound refused attempt acc es r again h k = record {
      ends = inl h.0;
      matched = λ p. absurd (ground (arith, h.1));
    }
    after_lines-IsRound raised attempt acc es r again (e, h) k =
        raised-IsRound Raised acc r.calls es h e
    after_lines-IsRound (broken failure) attempt acc es r again h k =
        IsRound-append Raised acc r.calls es _ h
          (retry-IsRound r.calls r.received_any attempt failure (again r) (k r))

    try_once-IsRound :
        (a : Attempt) (attempt : ℕ) (r : Reading) (again : Reading → List StreamEvent)
        → (has_raising a ≡ true → Raised)
        → ((s : Reading) → IsRound Raised s.calls (again s))
        → IsRound Raised r.calls (try_once loads a attempt r again)
    unfolding try_once
    try_once-IsRound (unreachable failure) attempt r again h k =
        retry-IsRound r.calls r.received_any attempt failure (again r) (k r)
    try_once-IsRound (status detail) attempt r again h k = error-IsRound Raised r.calls detail
    try_once-IsRound (response lines ending) attempt r again h k =
        let (es, v, r') = read_lines loads ending lines r in
        after_lines-IsRound v attempt r.calls es r' again (read_lines-AfterLines ending lines r h) k

  module _ (transport : ℕ → Attempt) where
    -- One of the attempts has a response with such a line.
    abbrev Raised : Type 0
    Raised = (n : ℕ) × (has_raising (transport n) ≡ true)

    attempts-IsRound :
        (left attempt : ℕ) (r : Reading)
        → IsRound Raised r.calls (attempts loads transport left attempt r)
    unfolding attempts
    attempts-IsRound zero attempt r = finished-IsRound Raised r
    attempts-IsRound (suc left) attempt r =
        try_once-IsRound Raised (transport attempt) attempt r
          (λ s. attempts loads transport left (attempt + 1) s) (λ e. (attempt, e))
          (λ s. attempts-IsRound left (attempt + 1) s)

    -- In a round that completes the tool calls finished are those announced, in the same order.
    pub starts-stream :
        completes (stream loads transport) ≡ true
        → starts (stream loads transport) ≡ dones (stream loads transport)
    unfolding stream
    starts-stream = (attempts-IsRound retry_attempts 1 no_reading).matched
