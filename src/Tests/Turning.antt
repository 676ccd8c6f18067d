-- ===== src/Tests/Turning.antt =====
-- The theorem on the rounds of a turn of session.py at a concrete input.
use xarness.Prelude.{
  ℕ, ◌≡◌, refl, none, true, false, List, [], ◌∷◌, ◌++◌, String, Text, codes, length, ltb,
  Bool-cases, inl, inr, if◌then◌else◌, Option,
}
use xarness.Conversation.Message.{user, UserMessage, ToolResult, ok, no_timing, text}
use xarness.Conversation.Log.{empty, add}
use xarness.Protocol.{StreamEvent, content_delta, tool_call_arguments_done, round_complete}
use xarness.Controller.{Controller, init}
use xarness.Session.Rounds.{Turn, run_rounds}
use xarness.Session.Rounds.Paired.{
  Paired, no_messages, alone, IsReply, completes, run_rounds-Paired,
}

abbrev question : UserMessage
question = record {
  id = "u1";
  timing = no_timing;
  parts = text (codes "build") ∷ [];
  is_summary = false;
}

abbrev asks : List (ℕ × StreamEvent)
asks =
    (1, tool_call_arguments_done "c1" "run_bash" (codes "make"))
    ∷ (2, tool_call_arguments_done "c2" "run_bash" (codes "make test"))
    ∷ []

abbrev answers : List (ℕ × StreamEvent)
answers = (3, content_delta (codes "done")) ∷ []

-- The provider asks for two calls, and answers once they are in the history.
abbrev reply : Controller → List (ℕ × StreamEvent)
reply c =
    if ltb (length c.conversation.messages) 3
    then asks ++ (2, round_complete none true) ∷ []
    else answers ++ (4, round_complete none false) ∷ []

reply-IsReply : (c : Controller) → IsReply (reply c)
reply-IsReply c = elim (Bool-cases (ltb (length c.conversation.messages) 3)) [
  | inl e ↦ rw e (completes asks 2 none true tt)
  | inr e ↦ rw e (completes answers 4 none false tt)
]

abbrev echo_call : String → Text → ℕ → ToolResult × ℕ
echo_call name arguments n = (record { status = ok; content = arguments }, n)

abbrev fresh : ℕ → String
fresh n = "m"

abbrev stamp : ℕ → Option String
stamp n = none

abbrev at_boundary : Controller → List UserMessage
at_boundary c = []

abbrev start : Turn ℕ
start = record { controller = init (add (user question) empty); world = 0; drawn = 0 }

start-Paired : Paired start.controller.conversation.messages
unfolding add
start-Paired = alone [] (user question) refl refl no_messages

run_rounds-Paired_example :
    Paired
      (run_rounds fresh stamp echo_call reply at_boundary 2
        start).0.controller.conversation.messages
unfolding add
run_rounds-Paired_example =
    run_rounds-Paired fresh stamp echo_call reply at_boundary 2 start reply-IsReply start-Paired
      refl

-- The turn ends in its second round, with the question, the calls, their two results and the answer.
two_rounds : (run_rounds fresh stamp echo_call reply at_boundary 2 start).1 ≡ true
unfolding run_rounds add xarness.Controller.reset_partial
two_rounds = refl
