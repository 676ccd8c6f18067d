-- ===== src/Client.antt =====
-- client.py: the events of one round from the chunks of the provider's stream. The transport and
-- the JSON parser are parameters: a chunk is what the code reads of a parsed one.
pub mod Arguments
pub mod Events
pub mod Growth
pub mod Stream
use Prim.Native.String
use xarness.Prelude.{
  ℕ, zero, suc, ◌+◌, ◌-◌, ◌≡◌, Bool, true, false, not, ◌&&◌, ◌||◌, Option, none, some, List, [],
  ◌∷◌, ◌++◌, String, Text, codes, nonempty, is_some, ◌==◌, eqb, leb, if◌then◌else◌,
}
use xarness.Prelude.Strip.{strip, drop_prefix, text_eq}
use xarness.Prelude.Decimal.{decimal_string}
use xarness.Conversation.Message.{Usage}
use xarness.Protocol.{
  StreamEvent, processing_started, reasoning_delta, content_delta, tool_call_started,
  tool_call_arguments_delta, tool_call_arguments_done, round_complete, stream_error,
}

-- One element of `delta.tool_calls`: a field that is missing or of another type is `none`, and
-- the index of a delta that has none is 0.
pub record ToolCallDelta : Type 0 where
  pub index : ℕ
  pub id : Option String
  pub name : Option String
  pub arguments : Option Text

pub record Entry : Type 0 where
  pub call_id : String
  pub name : String
  pub args : Text

-- `_ToolCallAccumulator`: `_by_index` with its keys in the order of `_order`.
abbrev pub Accumulator : Type 0
Accumulator = List (ℕ × Entry)

-- `x or default` on texts.
abbrev pub or_else : Option String → String → String
or_else none d = d
or_else (some t) d = if t == "" then d else t

unfoldable pub get_entry : ℕ → Accumulator → Option Entry
get_entry i [] = none
get_entry i ((j, e) ∷ acc) = if eqb j i then some e else get_entry i acc

unfoldable pub set_entry : ℕ → Entry → Accumulator → Accumulator
set_entry i e [] = (i, e) ∷ []
set_entry i e ((j, f) ∷ acc) = if eqb j i then (j, e) ∷ acc else (j, f) ∷ set_entry i e acc

-- The entry of a delta whose index was not seen before.
unfoldable pub new_entry : ToolCallDelta → Entry
new_entry tc = record {
  call_id = or_else tc.id (String.◌++◌ "call_" (decimal_string tc.index));
  name = or_else tc.name "";
  args = [];
}

-- The first name that is not empty is kept.
abbrev pub keep_name : ToolCallDelta → Entry → Entry
keep_name tc e = record e { name = if e.name == "" then or_else tc.name "" else e.name }

-- `args_fragment` where it is a text and not the empty one.
abbrev pub fragment : ToolCallDelta → Text
fragment tc = elim tc.arguments [ none ↦ [] | some t ↦ t ]

abbrev pub started : ToolCallDelta → Option Entry → List StreamEvent
started tc none = tool_call_started (new_entry tc).call_id (new_entry tc).name ∷ []
started tc (some e) = []

abbrev pub entry_of : ToolCallDelta → Option Entry → Entry
entry_of tc none = new_entry tc
entry_of tc (some e) = e

abbrev pub delta_events : Entry → Text → List StreamEvent
delta_events e t = if nonempty t then tool_call_arguments_delta e.call_id t ∷ [] else []

-- The body of the loop of `feed`.
unfoldable pub feed_one : ToolCallDelta → Accumulator → List StreamEvent × Accumulator
unfolding get_entry set_entry
feed_one tc acc =
    let known = get_entry tc.index acc in
    let entry = keep_name tc (entry_of tc known) in
    (
      started tc known ++ delta_events entry (fragment tc),
      set_entry tc.index (record entry { args = entry.args ++ fragment tc }) acc,
    )

unfoldable pub feed : List ToolCallDelta → Accumulator → List StreamEvent × Accumulator
unfolding feed_one
feed [] acc = ([], acc)
feed (tc ∷ tcs) acc =
    let (events, acc') = feed_one tc acc in
    let (later, acc'') = feed tcs acc' in (events ++ later, acc'')

unfoldable pub finish : Accumulator → List StreamEvent
finish [] = []
finish ((i, e) ∷ acc) = tool_call_arguments_done e.call_id e.name e.args ∷ finish acc

pub record Choice : Type 0 where
  pub reasoning : Option Text
  pub content : Option Text
  pub tool_calls : List ToolCallDelta

-- A parsed chunk: the message of its `error` object, its usage, and its choices.
pub record Chunk : Type 0 where
  pub error : Option Text
  pub usage : Option Usage
  pub choices : List Choice

abbrev pub text_event : (Text → StreamEvent) → Option Text → List StreamEvent
text_event make none = []
text_event make (some t) = if nonempty t then make t ∷ [] else []

-- `_delta_events`
unfoldable pub choice_events : List Choice → Accumulator → List StreamEvent × Accumulator
unfolding feed
choice_events [] acc = ([], acc)
choice_events (c ∷ cs) acc =
    let (calls, acc') = feed c.tool_calls acc in
    let (later, acc'') = choice_events cs acc' in
    (
      text_event reasoning_delta c.reasoning
          ++ (text_event content_delta c.content ++ (calls ++ later)),
      acc'',
    )

-- What the parser makes of a text: it is not JSON; it is a value on which the code that reads it
-- raises, as `chunk.get` does on `null`, `[]` and `5` and `choice.get` on a choice that is `null`; or
-- it is a chunk.
pub data Decoded : Type 0 where
  not_json : Decoded
  unreadable : Decoded
  loaded : Chunk → Decoded

-- What the code makes of one line of the response: nothing, the end mark, an exception that is no
-- transport error, or a chunk.
pub data Line : Type 0 where
  skipped : Line
  done : Line
  raising : Line
  chunk : Chunk → Line

-- How a response ends: with its last line, or broken off by a transport error.
pub data Ending : Type 0 where
  complete : Ending
  dropped : Text → Ending

-- One attempt: a transport error, the error text of an HTTP status that is not 200, or a response.
pub data Attempt : Type 0 where
  unreachable : Text → Attempt
  status : Text → Attempt
  response : List Text → Ending → Attempt

-- The state that the attempts share.
pub record Reading : Type 0 where
  pub usage : Option Usage
  pub calls : Accumulator
  pub received_any : Bool

abbrev pub no_reading : Reading
no_reading = record { usage = none; calls = []; received_any = false }

-- How reading a response ended: the loop is over, the provider reported an error (the events end
-- with it), an exception left `stream` (the events stop there), or the connection broke.
pub data Verdict : Type 0 where
  ended : Verdict
  refused : Verdict
  raised : Verdict
  broken : Text → Verdict

abbrev later_usage : Option Usage → Option Usage → Option Usage
later_usage none old = old
later_usage (some u) old = some u

-- `received_any or attempt == _RETRY_ATTEMPTS`
abbrev pub retry_attempts : ℕ
retry_attempts = 3

abbrev pub retry : Bool → ℕ → Text → List StreamEvent → List StreamEvent
retry received attempt failure again =
    if received || eqb attempt retry_attempts then stream_error failure ∷ [] else again

abbrev pub Read : Type 0
Read = List StreamEvent × Verdict × Reading

-- The body of the loop over the lines; `rest` reads the lines that follow.
unfoldable pub read_chunk : Option Text → Chunk → Reading → (Reading → Read) → Read
unfolding choice_events
read_chunk (some message) c r rest = (stream_error message ∷ [], refused, r)
read_chunk none c r rest =
    let (events, calls) = choice_events c.choices r.calls in
    let r' : Reading = record {
      usage = later_usage c.usage r.usage;
      calls = calls;
      received_any = r.received_any || nonempty events;
    } in
    let (later, verdict, r'') = rest r' in (events ++ later, verdict, r'')

unfoldable pub read_line : Line → Reading → (Reading → Read) → Read
unfolding read_chunk
read_line skipped r rest = rest r
read_line done r rest = ([], ended, r)
read_line raising r rest = ([], raised, r)
read_line (chunk c) r rest = read_chunk c.error c r rest

abbrev line_of : Decoded → Line
line_of not_json = skipped
line_of unreadable = raising
line_of (loaded c) = chunk c

module _ (loads : Text → Decoded) where
  unfoldable pub classify : Text → Line
  unfolding strip
  classify line = elim (drop_prefix (codes "data:") line) [
    | none ↦ skipped
    | some rest ↦
        if text_eq (strip rest) (codes "[DONE]") then done else line_of (loads (strip rest))
  ]

  -- The loop over the lines.
  unfoldable pub read_lines : Ending → List Text → Reading → Read
  unfolding classify read_line
  read_lines complete [] r = ([], ended, r)
  read_lines (dropped failure) [] r = ([], broken failure, r)
  read_lines ending (line ∷ lines) r =
      read_line (classify line) r (λ r'. read_lines ending lines r')

  abbrev pub finished : Reading → List StreamEvent
  finished r = finish r.calls ++ round_complete r.usage (nonempty r.calls) ∷ []

  -- How the round goes on after the lines of a response.
  unfoldable pub after_lines :
      Verdict → ℕ → List StreamEvent → Reading → (Reading → List StreamEvent) → List StreamEvent
  unfolding finish
  after_lines ended attempt events r again = events ++ finished r
  after_lines refused attempt events r again = events
  after_lines raised attempt events r again = events
  after_lines (broken failure) attempt events r again =
      events ++ retry r.received_any attempt failure (again r)

  -- One attempt; `again` makes those that follow.
  unfoldable pub try_once : Attempt → ℕ → Reading → (Reading → List StreamEvent) → List StreamEvent
  unfolding read_lines after_lines
  try_once (unreachable failure) attempt r again = retry r.received_any attempt failure (again r)
  try_once (status detail) attempt r again = stream_error detail ∷ []
  try_once (response lines ending) attempt r again =
      let (events, verdict, r') = read_lines ending lines r in
      after_lines verdict attempt events r' again

  module _ (transport : ℕ → Attempt) where
    -- The loop over the attempts from number `attempt` on, `left` of them. A failed connection is
    -- tried again while no event was made and it was not the last attempt. (The loop is never
    -- left by running out of attempts: the last one returns or breaks.)
    unfoldable pub attempts : ℕ → ℕ → Reading → List StreamEvent
    unfolding try_once
    attempts zero attempt r = finished r
    attempts (suc left) attempt r =
        try_once (transport attempt) attempt r (λ r'. attempts left (attempt + 1) r')

    -- `ChatClient.stream`: the events it yields, up to an exception that leaves it.
    unfoldable pub stream : List StreamEvent
    unfolding attempts
    stream = processing_started ∷ attempts retry_attempts 1 no_reading
