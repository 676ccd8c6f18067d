-- ===== src/Tools/Registry.antt =====
-- The registry of src/xarness/tools.py: `ToolRegistry` and its `call`. The JSON parser and the
-- checks of an args model are parameters, and so is what a handler does to the world outside.
pub mod Offered
use xarness.Prelude.{
  not, ◌==◌, ◌&&◌, ◌||◌, Dict, lookup, insert, ℕ, ◌≡◌, refl, Bool, true, false, Option, none, some,
  List, [], ◌∷◌, ◌++◌, String, Text, codes, nonempty, if◌then◌else◌,
}
use xarness.Conversation.Message.{ToolResult, ok, error, parse_error}
use xarness.Tools.Output.{truncate_output}

-- `ToolResult(status=..., content=...)`, `_ok` and `_bad`.
abbrev pub ok_result : Text → ToolResult
ok_result t = record { status = ok; content = t }

abbrev pub error_result : Text → ToolResult
error_result t = record { status = error; content = t }

abbrev pub bad : Text → ToolResult
bad t = record { status = parse_error; content = t }

-- A JSON value, as far as `call` looks: an object, or a value of a type with this name.
pub data Value (Object : Type 0) : Type 0 where
  object : Object → Value Object
  other : Text → Value Object

-- What `json.loads` gives back: a value, or the text of its error.
pub data Parsed (Object : Type 0) : Type 0 where
  parsed : Value Object → Parsed Object
  malformed : Text → Parsed Object

-- One entry of `ValidationError.errors()`.
pub record Flaw : Type 0 where
  pub loc : List Text
  pub msg : Option Text

pub data Validated (Args : Type 0) : Type 0 where
  valid : Args → Validated Args
  invalid : List Flaw → Validated Args

-- A handler's result, or the type and the text of what it raised.
pub data Ran : Type 0 where
  returned : ToolResult → Ran
  raised : Text → Text → Ran

-- `sep.join(xs)`
abbrev pub join_with : Text → List Text → Text
join_with sep [] = []
join_with sep (x ∷ []) = x
join_with sep (x ∷ y ∷ ys) = x ++ (sep ++ join_with sep (y ∷ ys))

-- `_validation_error`
unfoldable pub validation_error : Flaw → Text
validation_error flaw =
    let loc = join_with (codes ".") flaw.loc in
    let message : Text = elim flaw.msg [ none ↦ codes "invalid value" | some m ↦ m ] in
    if nonempty loc then loc ++ (codes ": " ++ message) else message

abbrev pub validation_errors : List Flaw → List Text
validation_errors [] = []
validation_errors (flaw ∷ flaws) = validation_error flaw ∷ validation_errors flaws

-- `Tool`, less what a provider reads. A handler has the limit that `call` publishes.
pub record Tool (Object World : Type 0) : Type 1 where
  pub name : String
  pub Args : Type 0
  pub model_validate : Object → Validated Args
  pub handler : Option ℕ → Args → World → Ran × World

pub record ToolRegistry (Object World : Type 0) : Type 1 where
  pub max_output_chars : ℕ
  pub registered : Dict (Tool Object World)

-- The end of `call`: an exception is an error, and the text is cut.
unfoldable pub finish_call : ℕ → Ran → ToolResult
unfolding truncate_output
finish_call limit (returned result) = record result {
  content = truncate_output result.content limit;
}
finish_call limit (raised type_name message) =
    error_result (truncate_output (type_name ++ (codes ": " ++ message)) limit)

module _ {Object World : Type 0} where
  -- `ToolRegistry.register`
  unfoldable pub register :
      Tool Object World → ToolRegistry Object World → ToolRegistry Object World
  register tool registry = record registry {
    registered = insert tool.name tool registry.registered;
  }

  -- `call` once the arguments are an object.
  unfoldable pub run_tool : ℕ → Tool Object World → Object → World → ToolResult × World
  unfolding finish_call validation_error
  run_tool limit tool fields world = elim (tool.model_validate fields) [
    | invalid flaws ↦ (bad (join_with (codes "; ") (validation_errors flaws)), world)
    | valid args ↦
        let (ran, after) = tool.handler (some limit) args world in (finish_call limit ran, after)
  ]

module _ {Object : Type 0} (loads : Text → Parsed Object) (empty_object : Object)
    (strip : Text → Text) where
  unfoldable pub parse_arguments : Text → Parsed Object
  parse_arguments arguments_json =
      if nonempty (strip arguments_json) then loads arguments_json else parsed (object empty_object)

  -- `ToolRegistry.call`
  unfoldable pub call :
      {World : Type 0} → ToolRegistry Object World → String → Text → World → ToolResult × World
  unfolding parse_arguments run_tool
  call registry name arguments_json world = elim (lookup name registry.registered) [
    | none ↦ (error_result (codes "unknown tool '" ++ (codes name ++ codes "'")), world)
    | some tool ↦ elim (parse_arguments arguments_json) [
      | malformed message ↦ (bad (codes "invalid arguments JSON: " ++ message), world)
      | parsed (other type_name) ↦
          (bad (codes "invalid arguments JSON: expected an object, got " ++ type_name), world)
      | parsed (object fields) ↦ run_tool registry.max_output_chars tool fields world
    ]
  ]

abbrev pub default_output_limit : ℕ
default_output_limit = 32768

-- The tools that `build_registry` can offer.
pub record Toolbox (Object World : Type 0) : Type 1 where
  pub ask_user : Tool Object World
  pub read_file : Tool Object World
  pub run_bash : Tool Object World
  pub write_file : Tool Object World
  pub edit_file : Tool Object World

-- Each tool has the name under which its maker registers it.
pub record Named {Object World : Type 0} (tools : Toolbox Object World) : Type 0 where
  pub ask_user : tools.ask_user.name ≡ "ask_user"
  pub read_file : tools.read_file.name ≡ "read_file"
  pub run_bash : tools.run_bash.name ≡ "run_bash"
  pub write_file : tools.write_file.name ≡ "write_file"
  pub edit_file : tools.edit_file.name ≡ "edit_file"

module _ {Object World : Type 0} (tools : Toolbox Object World) where
  abbrev pub register_if :
      Bool → Tool Object World → ToolRegistry Object World → ToolRegistry Object World
  register_if offered tool registry = if offered then register tool registry else registry

  -- `build_registry`. The flags say whether there is a callback for questions, a sandbox, a session
  -- of its shell, and whether the sandbox is a container.
  unfoldable pub build_registry : Bool → Bool → Bool → Bool → String → ToolRegistry Object World
  unfolding register
  build_registry ask sandbox session use_sandbox mode =
      register_if (sandbox && (mode == "write")) tools.edit_file (
        register_if (sandbox && (mode == "write")) tools.write_file (
          register_if (sandbox && (session && (use_sandbox || not (mode == "plan")))) tools.run_bash
            (register_if sandbox tools.read_file (
              register_if ask tools.ask_user
                (record { max_output_chars = default_output_limit; registered = [] })))))
