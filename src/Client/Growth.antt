-- ===== src/Client/Growth.antt =====
-- The tool calls that the events of src/xarness/client.py announce, against the accumulator.
use xarness.Prelude.{
  ℕ, ◌≡◌, refl, sym, ◌∙◌, Option, none, some, List, [], ◌∷◌, ◌++◌, append-nil, append_assoc, String,
  Text, arith, Option-cases, inl, inr,
}
use xarness.Protocol.{StreamEvent, reasoning_delta, content_delta, tool_call_started}
use xarness.Client.{
  ToolCallDelta, Entry, Accumulator, get_entry, set_entry, new_entry, fragment, keep_name,
  delta_events, feed_one, feed, Choice, text_event, choice_events,
}
use xarness.Client.Events.{entry_ids, IsOpen, IsOpen-nil, IsOpen-append}

get_entry-set_entry_ids :
    (i : ℕ) (e f : Entry) (acc : Accumulator)
    → get_entry i acc ≡ some e
    → f.call_id ≡ e.call_id
    → entry_ids (set_entry i f acc) ≡ entry_ids acc
unfolding get_entry set_entry
get_entry-set_entry_ids i e f [] h p = cc
get_entry-set_entry_ids i e f ((j, g) ∷ acc) h p = ground (arith, get_entry-set_entry_ids i e f acc)

set_entry_ids_new :
    (i : ℕ) (f : Entry) (acc : Accumulator)
    → get_entry i acc ≡ none
    → entry_ids (set_entry i f acc) ≡ entry_ids acc ++ f.call_id ∷ []
unfolding get_entry set_entry
set_entry_ids_new i f [] h = refl
set_entry_ids_new i f ((j, g) ∷ acc) h = ground (arith, set_entry_ids_new i f acc)

delta_events-IsOpen : (e : Entry) (t : Text) → IsOpen (delta_events e t) []
delta_events-IsOpen e [] = IsOpen-nil
delta_events-IsOpen e (c ∷ t) = record { unended = refl; announced = refl; unfinished = refl }

-- The ids that the events announce are those that the accumulator gained, at its end.
pub record Grows (acc : Accumulator) (es : List StreamEvent) (acc' : Accumulator) : Type 0 where
  pub ids : List String
  pub is_open : IsOpen es ids
  pub gained : entry_ids acc' ≡ entry_ids acc ++ ids

pub Grows-nil : (acc : Accumulator) → Grows acc [] acc
Grows-nil acc = record { ids = []; is_open = IsOpen-nil; gained = sym (append-nil (entry_ids acc)) }

pub Grows-append :
    (a b c : Accumulator) (xs ys : List StreamEvent)
    → Grows a xs b
    → Grows b ys c
    → Grows a (xs ++ ys) c
Grows-append a b c xs ys h k = record {
  ids = h.ids ++ k.ids;
  is_open = IsOpen-append xs ys h.ids k.ids h.is_open k.is_open;
  gained = k.gained ∙ rw (h.gained, append_assoc);
}

feed_one-Grows :
    (tc : ToolCallDelta) (acc : Accumulator) → Grows acc (feed_one tc acc).0 (feed_one tc acc).1
unfolding feed_one
feed_one-Grows tc acc = elim (Option-cases (get_entry tc.index acc)) [
  | inl e ↦ rw e (record {
    ids = (new_entry tc).call_id ∷ [];
    is_open =
        IsOpen-append (tool_call_started (new_entry tc).call_id (new_entry tc).name ∷ [])
          (delta_events (keep_name tc (new_entry tc)) (fragment tc)) ((new_entry tc).call_id ∷ [])
          [] (record { unended = refl; announced = refl; unfinished = refl })
          (delta_events-IsOpen (keep_name tc (new_entry tc)) (fragment tc));
    gained = set_entry_ids_new tc.index _ acc e;
  })
  | inr (old, e) ↦ rw e (record {
    ids = [];
    is_open = delta_events-IsOpen (keep_name tc old) (fragment tc);
    gained = get_entry-set_entry_ids tc.index old _ acc e refl ∙ sym (append-nil (entry_ids acc));
  })
]

pub feed-Grows :
    (tcs : List ToolCallDelta) (acc : Accumulator) → Grows acc (feed tcs acc).0 (feed tcs acc).1
unfolding feed
feed-Grows [] acc = Grows-nil acc
feed-Grows (tc ∷ tcs) acc =
    let (events, acc') = feed_one tc acc in
    Grows-append acc acc' (feed tcs acc').1 events (feed tcs acc').0 (feed_one-Grows tc acc)
      (feed-Grows tcs acc')

text_event-IsOpen :
    (make : Text → StreamEvent) (t : Option Text)
    → ((c : Text) → IsOpen (make c ∷ []) [])
    → IsOpen (text_event make t) []
text_event-IsOpen make none h = IsOpen-nil
text_event-IsOpen make (some []) h = IsOpen-nil
text_event-IsOpen make (some (c ∷ cs)) h = h (c ∷ cs)

pub choice_events-Grows :
    (cs : List Choice) (acc : Accumulator)
    → Grows acc (choice_events cs acc).0 (choice_events cs acc).1
unfolding choice_events
choice_events-Grows [] acc = Grows-nil acc
choice_events-Grows (c ∷ cs) acc =
    let (calls, acc') = feed c.tool_calls acc in
    let rest =
      Grows-append acc acc' (choice_events cs acc').1 calls (choice_events cs acc').0
        (feed-Grows c.tool_calls acc) (choice_events-Grows cs acc') in
    record {
      ids = rest.ids;
      is_open =
          IsOpen-append (text_event reasoning_delta c.reasoning) _ [] rest.ids
            (text_event-IsOpen reasoning_delta c.reasoning
              (λ t. record { unended = refl; announced = refl; unfinished = refl }))
            (IsOpen-append (text_event content_delta c.content) _ [] rest.ids
              (text_event-IsOpen content_delta c.content
                (λ t. record { unended = refl; announced = refl; unfinished = refl }))
              rest.is_open);
      gained = rest.gained;
    }
