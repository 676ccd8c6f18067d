-- ===== src/Sandbox/Paths/Inside.antt =====
-- The paths that `validate_relpath` of src/xarness/sandbox.py lets through, and where `tool_path`
-- puts them.
use mathlib.Core.List.{reverse, reverse-cons}
use xarness.Prelude.{
  ◌≡◌, refl, ap, ◌∙◌, ◌⊎◌, inl, inr, Bool, true, false, not, none, List, [], ◌∷◌, ◌++◌, Text, codes,
  nonempty, any, any-append, filter, if◌then◌else◌, arith, contains_code, Bool-cases,
}
use xarness.Prelude.Split.{join_on, split_on-free, split_on-part, split_on-sep}
use xarness.Sandbox.Paths.{
  parts, slash, is_absolute, is_dot, is_parent, norm_parts, first_slashes, or_dot, normpath,
  tool_root, anchor, tool_path, validate_relpath,
}

-- What holds of no part that is kept holds of no part of the result, where no part is a parent.
any-norm_parts :
    (p : Text → Bool) (absolute : Bool) (kept ps : List Text)
    → any p kept ≡ false
    → any p (filter nonempty ps) ≡ false
    → any is_parent ps ≡ false
    → any p (norm_parts absolute kept ps) ≡ false
unfolding norm_parts
any-norm_parts p absolute kept [] k h n = k
any-norm_parts p absolute kept ([] ∷ ps) k h n = any-norm_parts p absolute kept ps k h n
any-norm_parts p absolute kept ((c ∷ cs) ∷ ps) k h n =
    let q : is_parent (c ∷ cs) ≡ false = ground arith in
    elim (Bool-cases (is_dot (c ∷ cs))) [
      | inl e ↦
          rw (norm_parts, e) (any-norm_parts p absolute kept ps k (ground arith) (ground arith))
      | inr e ↦
          rw (norm_parts, e, q)
            (any-norm_parts p absolute ((c ∷ cs) ∷ kept) ps (ground arith) (ground arith)
              (ground arith))
    ]

unfoldable pub has_slash : Text → Bool
has_slash t = contains_code slash t

is_empty : Text → Bool
is_empty t = not (nonempty t)

pub any-filter :
    (p q : Text → Bool) (ps : List Text) → any p ps ≡ false → any p (filter q ps) ≡ false
any-filter p q [] h = refl
any-filter p q (x ∷ ps) h = let k = any-filter p q ps (ground arith) in ground arith

none_empty : (ps : List Text) → any is_empty (filter nonempty ps) ≡ false
unfolding is_empty
none_empty [] = refl
none_empty ([] ∷ ps) = none_empty ps
none_empty ((c ∷ cs) ∷ ps) = none_empty ps

pub any-reverse : (p : Text → Bool) (ps : List Text) → any p (reverse ps) ≡ any p ps
any-reverse p [] = refl
any-reverse p (x ∷ ps) =
    ground (arith, reverse-cons x ps, any-append p (reverse ps) (x ∷ []), any-reverse p ps)

pub parts-join_on :
    (p : Text) (ps : List Text)
    → any has_slash (p ∷ ps) ≡ false
    → parts (join_on slash (p ∷ ps)) ≡ p ∷ ps
unfolding has_slash
parts-join_on p [] h = split_on-part slash p (ground arith)
parts-join_on p (q ∷ ps) h =
    split_on-sep slash p (join_on slash (q ∷ ps)) (ground arith)
    ∙ ap (λ r. p ∷ r) (parts-join_on q ps (ground arith))

-- A relative path with no part that is a parent.
Inside : Text → Type 0
Inside norm = (is_absolute norm ≡ false) × (any is_parent (parts norm) ≡ false)

joined-Inside :
    (ks : List Text)
    → any has_slash ks ≡ false
    → any is_empty ks ≡ false
    → any is_parent ks ≡ false
    → Inside (or_dot (join_on slash ks))
unfolding has_slash is_empty Inside
joined-Inside [] s e n = (refl, refl)
joined-Inside ([] ∷ ks) s e n = absurd (ground arith)
joined-Inside ((c ∷ cs) ∷ []) s e n =
    (ground arith, ap (any is_parent) (parts-join_on (c ∷ cs) [] s) ∙ n)
joined-Inside ((c ∷ cs) ∷ k ∷ ks) s e n =
    (ground arith, ap (any is_parent) (parts-join_on (c ∷ cs) (k ∷ ks) s) ∙ n)

first_slashes-relative : (path : Text) → is_absolute path ≡ false → first_slashes path ≡ []
first_slashes-relative [] h = refl
first_slashes-relative (c ∷ []) h = ground arith
first_slashes-relative (c ∷ d ∷ []) h = ground arith
first_slashes-relative (c ∷ d ∷ e ∷ rest) h = ground arith

normpath-Inside :
    (path : Text)
    → is_absolute path ≡ false
    → any is_parent (parts path) ≡ false
    → Inside (normpath path)
unfolding normpath has_slash is_empty
normpath-Inside path h n =
    let ks = norm_parts false [] (parts path) in
    rw (first_slashes-relative path h, h)
      (joined-Inside (reverse ks)
        (any-reverse has_slash ks
          ∙ any-norm_parts has_slash false [] (parts path) refl
              (any-filter has_slash nonempty (parts path) (split_on-free slash path)) n)
        (any-reverse is_empty ks
          ∙ any-norm_parts is_empty false [] (parts path) refl (none_empty (parts path)) n)
        (any-reverse is_parent ks
          ∙ any-norm_parts is_parent false [] (parts path) refl
              (any-filter is_parent nonempty (parts path) n) n))

norm_or_dot-Inside :
    (path : Text)
    → is_absolute path ≡ false
    → any is_parent (parts path) ≡ false
    → Inside (if nonempty path then normpath path else codes ".")
unfolding Inside
norm_or_dot-Inside [] h n = (refl, refl)
norm_or_dot-Inside (c ∷ cs) h n = normpath-Inside (c ∷ cs) h n

anchor-Inside :
    (use_sandbox : Bool) (workspace norm : Text)
    → Inside norm
    → (anchor use_sandbox workspace norm ≡ tool_root use_sandbox workspace)
      ⊎ ((below : Text) × (anchor use_sandbox workspace norm
            ≡ tool_root use_sandbox workspace ++ slash ∷ below)
          × (is_absolute below ≡ false)
          × (any is_parent (parts below) ≡ false))
unfolding anchor Inside
anchor-Inside true workspace norm (a, b) = inr (norm, rw a refl, a, b)
anchor-Inside false workspace norm (a, b) = elim (Bool-cases (is_dot norm)) [
  | inl e ↦ rw (a, e) (inl refl)
  | inr e ↦ inr (norm, rw (a, e) refl, a, b)
]

-- A path that passes the check is placed in the workspace: it is the workspace itself, or what
-- stands behind it and a slash is a relative path without a single `..`.
pub tool_path-inside :
    (use_sandbox : Bool) (workspace path : Text)
    → validate_relpath path ≡ none
    → let placed = tool_path use_sandbox workspace path in
      (placed ≡ tool_root use_sandbox workspace)
      ⊎ ((below : Text) × (placed ≡ tool_root use_sandbox workspace ++ slash ∷ below)
          × (is_absolute below ≡ false)
          × (any is_parent (parts below) ≡ false))
unfolding tool_path validate_relpath
tool_path-inside use_sandbox workspace path v =
    anchor-Inside use_sandbox workspace (if nonempty path then normpath path else codes ".")
      (norm_or_dot-Inside path (ground arith) (ground arith))
