-- ===== src/Client/Arguments.antt =====
-- The arguments that the accumulator of src/xarness/client.py assembles.
use xarness.Prelude.{
  ℕ, ◌≡◌, refl, sym, ◌∙◌, Option, none, some, List, [], ◌∷◌, ◌++◌, append-nil, append_assoc, Text,
  eqb, arith, if◌then◌else◌,
}
use xarness.Client.{
  ToolCallDelta, Entry, Accumulator, get_entry, set_entry, new_entry, fragment, keep_name, entry_of,
  feed_one, feed,
}

-- The argument text of the entry at an index, if there is one.
abbrev pub args_of : Option Entry → Text
args_of none = []
args_of (some e) = e.args

-- The fragments of the deltas with the index, joined.
abbrev pub fragments : ℕ → List ToolCallDelta → Text
fragments i [] = []
fragments i (tc ∷ tcs) = (if eqb tc.index i then fragment tc else []) ++ fragments i tcs

get_entry-set_entry :
    (i j : ℕ) (e : Entry) (acc : Accumulator)
    → get_entry j (set_entry i e acc) ≡ (if eqb i j then some e else get_entry j acc)
unfolding get_entry set_entry
get_entry-set_entry i j e [] = ground arith
get_entry-set_entry i j e ((k, f) ∷ acc) = ground (arith, get_entry-set_entry i j e acc)

args_of-entry_of :
    (tc : ToolCallDelta) (o : Option Entry) → (keep_name tc (entry_of tc o)).args ≡ args_of o
args_of-entry_of tc none = unfold new_entry in refl
args_of-entry_of tc (some e) = refl

feed_one-args :
    (i : ℕ) (tc : ToolCallDelta) (acc : Accumulator)
    → args_of (get_entry i (feed_one tc acc).1)
      ≡ args_of (get_entry i acc) ++ (if eqb tc.index i then fragment tc else [])
unfolding feed_one
feed_one-args i tc acc =
    let entry = keep_name tc (entry_of tc (get_entry tc.index acc)) in
    rw (get_entry-set_entry tc.index i (record entry { args = entry.args ++ fragment tc }) acc) (
      ground (
        arith,
        args_of-entry_of tc (get_entry tc.index acc),
        append-nil (args_of (get_entry i acc)),
      ))

-- At each index the arguments are the fragments of that index, in order, whatever other calls the
-- stream carries between them.
pub feed-arguments :
    (i : ℕ) (tcs : List ToolCallDelta) (acc : Accumulator)
    → args_of (get_entry i (feed tcs acc).1) ≡ args_of (get_entry i acc) ++ fragments i tcs
unfolding feed
feed-arguments i [] acc = sym (append-nil (args_of (get_entry i acc)))
feed-arguments i (tc ∷ tcs) acc =
    feed-arguments i tcs (feed_one tc acc).1
    ∙ rw (feed_one-args i tc acc) (append_assoc (args_of (get_entry i acc)) _ (fragments i tcs))
