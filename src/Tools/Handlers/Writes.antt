-- ===== src/Tools/Handlers/Writes.antt =====
-- What the writing handlers of src/xarness/tools.py do to the world outside.
use xarness.Prelude.{
  ℕ, ◌≡◌, refl, ◌⊎◌, inl, inr, Bool, List, [], Text, arith, Bool-cases, Option-cases, length,
}
use xarness.Conversation.Message.{ToolResult}
use xarness.Tools.Edits.{EditSpec, RunResult, Plan, finish, write, plan_edit}
use xarness.Tools.Edits.Batch.{Applies, plan_edit-Applies}
use xarness.Tools.Handlers.{
  check_write_path, cat_command, tee_command, write_edited, edit_file, wants_read,
}

Plan-cases : (p : Plan) → ((r : ToolResult) × (p ≡ finish r)) ⊎ ((t : Text) × (p ≡ write t))
Plan-cases (finish r) = inl (r, refl)
Plan-cases (write t) = inr (t, refl)

module _ (strip : Text → Text) (use_sandbox : Bool) (workspace : Text) {World : Type 0}
    (run : List Text → Text → World → RunResult × World)
    (unified_diff : List Text → List Text → Text → Text → List Text) where
  write_edited-world :
      (path : Text) (edits : ℕ) (current updated : Text) (world : World)
      → (write_edited strip use_sandbox workspace run unified_diff path edits current updated
          world).1
        ≡ (run (tee_command use_sandbox workspace path) updated world).1
  unfolding write_edited
  write_edited-world path edits current updated world = ground arith

  -- `edit_file` leaves the world as it was, or as the read of the file left it, or it writes once,
  -- and then what it writes is the text that it read with every edit of the batch applied in order.
  pub edit_file-writes :
      (path : Text) (edits : List EditSpec) (world : World)
      → let found = run (cat_command use_sandbox workspace path) [] world in
        let after = (edit_file strip use_sandbox workspace run unified_diff path edits world).1 in
        (after ≡ world)
        ⊎ (after ≡ found.1)
        ⊎ ((updated : Text) × Applies found.0.stdout edits updated
            × (after ≡ (run (tee_command use_sandbox workspace path) updated found.1).1))
  unfolding edit_file
  edit_file-writes path edits world = elim (Option-cases (check_write_path use_sandbox path)) [
    | inr (r, e) ↦ rw (edit_file, e) (inl refl)
    | inl e ↦
        elim (Plan-cases
          (plan_edit strip (run (cat_command use_sandbox workspace path) [] world).0 path edits)) [
            | inl (r, p) ↦
                rw (edit_file, e, p)
                  (elim (Bool-cases (wants_read edits)) [
                    | inl w ↦ rw w (inr (inl refl))
                    | inr w ↦ rw w (inl refl)
                  ])
            | inr (t, p) ↦
                rw (edit_file, e, p)
                  (inr (
                    inr (
                      t,
                      (plan_edit-Applies strip
                          (run (cat_command use_sandbox workspace path) [] world).0 path edits t
                          p).2,
                      write_edited-world path (length edits)
                          (run (cat_command use_sandbox workspace path) [] world).0.stdout t
                          (run (cat_command use_sandbox workspace path) [] world).1,
                    )))
          ]
  ]
