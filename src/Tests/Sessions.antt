-- ===== src/Tests/Sessions.antt =====
-- The theorems on the run state of session.py, and on the parts of a message, at concrete inputs.
use xarness.Prelude.{
  ◌+◌, ◌≡◌, refl, Bool, true, false, none, some, List, [], ◌∷◌, ◌++◌, Text, codes, length, arith,
  any, map,
}
use xarness.Prelude.Decimal.{decimal}
use xarness.Conversation.Message.{Part, image, part_images, ImageRef, token_text, token_id}
use xarness.Conversation.Parts.{build_parts, pieces}
use xarness.Conversation.Parts.Kept.{rendered, count, shows, all_shown, build_parts-text}
use xarness.Controller.{init}
use xarness.Session.{
  idle, running, compacting, absent, working, QueuedSteer, Session, finished, emit_status, emit,
  start_queued,
}
use xarness.Session.Commands.{
  Command, Reply, started, was_cancelled, send_message, cancel, flush_queued, cmd_send, cmd_cancel,
  dispatch, subscribe,
}
use xarness.Session.Steps.{close_out}
use xarness.Session.Honest.{
  IsHonest, subscribe-IsHonest, subscribe-auto_compact, close_out-two_turns,
}
use xarness.Session.Output.{shown, sink_all, limited, joined, shown-sink_all}
use xarness.Session.Executor.{Executor, execute, execute_all, execute_retry}
use xarness.Tests.Data.{clean}

abbrev busy : Session
busy = record {
  state = running;
  turn = working;
  compaction = absent;
  live = 1;
  queued = [];
  pending_ask = none;
  pending_drift = false;
  closed = false;
  controller = init clean;
  subscribers = (1, []) ∷ [];
}

abbrev reply : Reply
reply = (cmd_send (λ _. true) "t1" (codes "wait") [] busy).0

abbrev sent : Session
sent = (cmd_send (λ _. true) "t1" (codes "wait") [] busy).1

sent-queued : length sent.queued ≡ 1
unfolding cmd_send emit_status emit
sent-queued = refl

-- A running state whose task is gone.
subscribe-IsHonest_example : IsHonest (subscribe 2 (record busy { turn = absent }))
subscribe-IsHonest_example = subscribe-IsHonest 2 (record busy { turn = absent })

abbrev summarizing : Session
summarizing = record busy { state = compacting }

subscribe-auto_compact_example :
    let attached = subscribe 2 summarizing in
    (attached.state ≡ idle)
    × (attached.turn ≡ working)
    × ((cmd_cancel attached).0 ≡ was_cancelled false)
    × ((cmd_send (λ _. true) "t2" (codes "go") [] attached).0 ≡ started)
    × ((cmd_send (λ _. true) "t2" (codes "go") [] attached).1.live ≡ 2)
subscribe-auto_compact_example =
    subscribe-auto_compact 2 (λ _. true) "t2" (codes "go") summarizing refl refl refl

abbrev steer : QueuedSteer
steer = record { text = codes "wait"; images = []; send_time = "t1" }

abbrev waiting : Session
waiting = record busy { queued = steer ∷ [] }

close_out-two_turns_example :
    let ended = close_out finished waiting in
    let after = (cmd_send (λ _. true) "t2" (codes "go") [] ended).1 in
    ((start_queued after).0 ≡ some steer) × ((start_queued after).1.live ≡ ended.live + 2)
close_out-two_turns_example =
    close_out-two_turns finished (λ _. true) "t2" (codes "go") steer [] waiting refl refl

shown-sink_all_example :
    shown (sink_all "call_0" 4 (codes "ab" ∷ codes "cde" ∷ codes "f" ∷ [])).0
    ≡ limited 4 (joined (codes "ab" ∷ codes "cde" ∷ codes "f" ∷ []))
shown-sink_all_example =
    shown-sink_all "call_0" 4 (codes "ab" ∷ codes "cde" ∷ codes "f" ∷ []) (omega arith)

abbrev run_command : Command → Session → Reply × Session
run_command = dispatch (λ _. true) "t3" (λ _ s. (Reply.error "not modelled", s))

abbrev fresh_executor : Executor
fresh_executor = record { session = busy; recent = [] }

execute_retry_example :
    let (result, x) = execute run_command "c1" (send_message (codes "wait") []) fresh_executor in
    execute run_command "c1"
      (send_message (codes "wait") [])
      (execute_all run_command (("c2", flush_queued) ∷ ("c3", cancel) ∷ []) x)
    ≡ (result, execute_all run_command (("c2", flush_queued) ∷ ("c3", cancel) ∷ []) x)
execute_retry_example =
    execute_retry run_command "c1" (send_message (codes "wait") []) (send_message (codes "wait") [])
      (("c2", flush_queued) ∷ ("c3", cancel) ∷ []) fresh_executor refl (omega arith)

abbrev picture : ImageRef
picture = record { id = "abcdef"; name = "a.png"; mime = "image/png"; width = 2; height = 3 }

abbrev typed : Text
typed = codes "see " ++ (token_text picture ++ codes " and [🖼 b]")

-- The token with an image is cut out, the other stays text.
picture-placed : length (build_parts typed (picture ∷ [])) ≡ 4
unfolding build_parts token_text token_id decimal
picture-placed = refl

build_parts-text_example :
    (front : List Part) × (left : List ImageRef) × (build_parts typed (picture ∷ [])
      ≡ front ++ map image left)
    × (rendered front ≡ typed)
    × ((p : ImageRef → Bool) → count p (part_images front) + count p left ≡ count p (picture ∷ []))
    × (all_shown
          (λ u. any (shows u) (part_images front))
          (λ u. any (shows u) (picture ∷ []))
          (pieces typed)
        ≡ true)
build_parts-text_example = build_parts-text typed (picture ∷ [])
