-- ===== src/Tools/Registry/Offered.antt =====
-- What the registry of src/xarness/tools.py offers in each mode, and what a call gives back.
use xarness.Prelude.{
  ℕ, ◌+◌, codes, eq_iff, ◌≤◌, ◌≡◌, refl, subst, ◌∙◌, inl, inr, Bool, true, false, not, ◌&&◌, ◌||◌,
  ◌==◌, Option, none, some, [], ◌∷◌, ◌++◌, Text, arith, Bool-cases, length, is_some, lookup,
  lookup-insert, length-append, String,
}
use xarness.Tools.Output.{truncate_output-length}
use xarness.Tools.Registry.{
  Tool, ToolRegistry, Toolbox, Named, register, build_registry, register_if, default_output_limit,
  finish_call, Ran, returned, raised, call, Parsed, error_result, run_tool, valid, parse_arguments,
  object, parsed,
}

module _ {Object World : Type 0} where
  abbrev pub has : String → ToolRegistry Object World → Bool
  has name registry = is_some (lookup name registry.registered)

  has-register_if :
      (tools : Toolbox Object World) (offered : Bool) (tool : Tool Object World) (n name : String)
      (registry : ToolRegistry Object World)
      → tool.name ≡ n
      → has name (register_if tools offered tool registry)
        ≡ ((offered && (n == name)) || has name registry)
  unfolding register
  has-register_if tools false tool n name registry e = refl
  has-register_if tools true tool n name registry e =
      ground (arith, e, lookup-insert tool.name name tool registry.registered)

  -- The registry of a session offers exactly: the questions, if there is a callback for them; the
  -- read, if there is a sandbox; the shell, if it has a session, but in plan mode only within a
  -- container; and the two writing tools in write mode.
  pub build_registry-offers :
      (tools : Toolbox Object World) (ask sandbox session use_sandbox : Bool) (mode name : String)
      → Named tools
      → has name (build_registry tools ask sandbox session use_sandbox mode) ≡ (
          ((sandbox && (mode == "write")) && (("edit_file" == name) || ("write_file" == name)))
          || (((sandbox && (session && (use_sandbox || not (mode == "plan"))))
                && ("run_bash" == name))
              || ((sandbox && ("read_file" == name)) || (ask && ("ask_user" == name)))))
  unfolding build_registry
  build_registry-offers tools ask sandbox session use_sandbox mode name named =
      let writes = sandbox && (mode == "write") in
      let shell = sandbox && (session && (use_sandbox || not (mode == "plan"))) in
      let r0 : ToolRegistry Object World = record {
        max_output_chars = default_output_limit;
        registered = [];
      } in
      let r1 = register_if tools ask tools.ask_user r0 in
      let r2 = register_if tools sandbox tools.read_file r1 in
      let r3 = register_if tools shell tools.run_bash r2 in
      let r4 = register_if tools writes tools.write_file r3 in
      let e1 = has-register_if tools ask tools.ask_user "ask_user" name r0 named.ask_user in
      let e2 = has-register_if tools sandbox tools.read_file "read_file" name r1 named.read_file in
      let e3 = has-register_if tools shell tools.run_bash "run_bash" name r2 named.run_bash in
      let e4 =
        has-register_if tools writes tools.write_file "write_file" name r3 named.write_file in
      let e5 = has-register_if tools writes tools.edit_file "edit_file" name r4 named.edit_file in
      ground (arith, e1, e2, e3, e4, e5)

finish_call-length : (limit : ℕ) (ran : Ran) → length (finish_call limit ran).content ≤ limit
unfolding finish_call
finish_call-length limit (returned result) =
    omega (arith, truncate_output-length result.content limit)
finish_call-length limit (raised type_name message) =
    omega (arith, truncate_output-length (type_name ++ (codes ": " ++ message)) limit)

-- What is offered, where nothing may write and the name is that of a writing tool.
not_offered :
    (ask sandbox session use_sandbox writes plans : Bool) (name : String)
    → writes ≡ false
    → (("edit_file" == name) || ("write_file" == name)) ≡ true
    → (((sandbox && writes) && (("edit_file" == name) || ("write_file" == name)))
        || (((sandbox && (session && (use_sandbox || not plans))) && ("run_bash" == name))
            || ((sandbox && ("read_file" == name)) || (ask && ("ask_user" == name)))))
      ≡ false
not_offered ask sandbox session use_sandbox writes plans name w n =
    let other : (("run_bash" == name) || ("read_file" == name) || ("ask_user" == name)) ≡ false =
      elim (Bool-cases ("edit_file" == name)) [
        | inl e ↦
            subst (λ x. (("run_bash" == x) || ("read_file" == x) || ("ask_user" == x)) ≡ false)
              ((eq_iff "edit_file" name).0 e) refl
        | inr e ↦
            let k : "write_file" == name ≡ true = ground arith in
            subst (λ x. (("run_bash" == x) || ("read_file" == x) || ("ask_user" == x)) ≡ false)
              ((eq_iff "write_file" name).0 k) refl
      ] in
    ground arith

lookup_none : {A : Type 1} (o : Option A) → is_some o ≡ false → o ≡ none
lookup_none none h = refl
lookup_none (some a) h = absurd (ground arith)

module _ {Object World : Type 0} (loads : Text → Parsed Object) (empty_object : Object)
    (strip : Text → Text) where
  -- A call whose tool is there and whose arguments are valid gives back no more characters than the
  -- registry's limit, whatever its handler returns or raises.
  pub call-length :
      (registry : ToolRegistry Object World) (name : String) (json : Text) (world : World)
      (tool : Tool Object World) (fields : Object) (args : tool.Args)
      → lookup name registry.registered ≡ some tool
      → parse_arguments loads empty_object strip json ≡ parsed (object fields)
      → tool.model_validate fields ≡ valid args
      → length (call loads empty_object strip registry name json world).0.content
        ≤ registry.max_output_chars
  unfolding call run_tool
  call-length registry name json world tool fields args l p v =
      rw (call, l, p, run_tool, v) (finish_call-length registry.max_output_chars _)

  -- The other results are not cut: the answer to an unknown tool's name has the whole name in it.
  pub call_unknown-length :
      (registry : ToolRegistry Object World) (name : String) (json : Text) (world : World)
      → lookup name registry.registered ≡ none
      → length (call loads empty_object strip registry name json world).0.content
        ≡ 15 + length (codes name)
  unfolding call
  call_unknown-length registry name json world l =
      rw (call, l) (omega (arith, length-append (codes name) (39 ∷ [])))

  -- In a mode other than write, a call of a writing tool runs nothing: it says that the tool is
  -- unknown, and the world outside is as it was.
  pub call_writing-read_only :
      (tools : Toolbox Object World) (ask sandbox session use_sandbox : Bool) (mode name : String)
      (json : Text) (world : World)
      → Named tools
      → mode == "write" ≡ false
      → (("edit_file" == name) || ("write_file" == name)) ≡ true
      → call loads empty_object strip
          (build_registry tools ask sandbox session use_sandbox mode)
          name
          json
          world
        ≡ (error_result (codes "unknown tool '" ++ (codes name ++ codes "'")), world)
  unfolding call
  call_writing-read_only tools ask sandbox session use_sandbox mode name json world named m n =
      let o = build_registry-offers tools ask sandbox session use_sandbox mode name named in
      rw
        (
          call,
          lookup_none
              (lookup name (build_registry tools ask sandbox session use_sandbox mode).registered)
              (o
                ∙ not_offered ask sandbox session use_sandbox (mode == "write") (mode == "plan")
                    name m n),
        )
        refl
