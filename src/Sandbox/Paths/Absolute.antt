-- ===== src/Sandbox/Paths/Absolute.antt =====
-- What `posixpath.normpath` makes of an absolute path (its uses in src/xarness/sandbox.py).
use mathlib.Core.List.{reverse}
use xarness.Prelude.{
  ◌≡◌, refl, ap, ◌∙◌, ◌⊎◌, inl, inr, Bool, true, false, List, [], ◌∷◌, ◌++◌, Text, codes, any,
  arith,
}
use xarness.Prelude.Split.{join_on, split_on-free, split_on-sep}
use xarness.Sandbox.Paths.{
  parts, slash, is_absolute, is_parent, norm_parts, first_slashes, or_dot, normpath,
}
use xarness.Sandbox.Paths.Inside.{has_slash, any-reverse, parts-join_on}

-- In an absolute path a parent takes a part away or is dropped, so none is kept.
absolute-no_parent :
    (kept ps : List Text)
    → any is_parent kept ≡ false
    → any is_parent (norm_parts true kept ps) ≡ false
unfolding norm_parts
absolute-no_parent kept [] k = k
absolute-no_parent [] (p ∷ ps) k =
    ground (arith, absolute-no_parent [] ps, absolute-no_parent (p ∷ []) ps)
absolute-no_parent (top ∷ below) (p ∷ ps) k = ground (
  arith,
  absolute-no_parent (top ∷ below) ps,
  absolute-no_parent (p ∷ top ∷ below) ps,
  absolute-no_parent below ps,
)

absolute-parts :
    (q : Text → Bool) (kept ps : List Text)
    → any q kept ≡ false
    → any q ps ≡ false
    → any q (norm_parts true kept ps) ≡ false
unfolding norm_parts
absolute-parts q kept [] k h = k
absolute-parts q [] (p ∷ ps) k h =
    ground (arith, absolute-parts q [] ps, absolute-parts q (p ∷ []) ps)
absolute-parts q (top ∷ below) (p ∷ ps) k h = ground (
  arith,
  absolute-parts q (top ∷ below) ps,
  absolute-parts q (p ∷ top ∷ below) ps,
  absolute-parts q below ps,
)

first_slashes-absolute :
    (path : Text)
    → is_absolute path ≡ true
    → (first_slashes path ≡ codes "/") ⊎ (first_slashes path ≡ codes "//")
first_slashes-absolute [] h = absurd (ground arith)
first_slashes-absolute (c ∷ []) h = ground arith
first_slashes-absolute (c ∷ d ∷ []) h = ground arith
first_slashes-absolute (c ∷ d ∷ e ∷ rest) h = ground arith

joined-no_parent :
    (ks : List Text)
    → any has_slash ks ≡ false
    → any is_parent ks ≡ false
    → any is_parent (parts (join_on slash ks)) ≡ false
joined-no_parent [] s n = refl
joined-no_parent (k ∷ ks) s n = ap (any is_parent) (parts-join_on k ks s) ∙ n

one_slash : (t : Text) → any is_parent (parts (slash ∷ t)) ≡ any is_parent (parts t)
one_slash t = ap (any is_parent) (split_on-sep slash [] t refl)

rooted-no_parent :
    (root : Text) (ks : List Text)
    → (root ≡ codes "/") ⊎ (root ≡ codes "//")
    → any has_slash ks ≡ false
    → any is_parent ks ≡ false
    → any is_parent (parts (or_dot (root ++ join_on slash ks))) ≡ false
rooted-no_parent root ks (inl e) s n = rw e (one_slash (join_on slash ks) ∙ joined-no_parent ks s n)
rooted-no_parent root ks (inr e) s n =
    rw e (
      one_slash (slash ∷ join_on slash ks) ∙ one_slash (join_on slash ks) ∙ joined-no_parent ks s n)

-- No part of it is a parent.
pub normpath-no_parent :
    (path : Text) → is_absolute path ≡ true → any is_parent (parts (normpath path)) ≡ false
unfolding normpath has_slash
normpath-no_parent path h =
    rooted-no_parent (first_slashes path) (reverse (norm_parts (is_absolute path) [] (parts path)))
      (first_slashes-absolute path h)
      (rw h (
        any-reverse has_slash (norm_parts true [] (parts path))
        ∙ absolute-parts has_slash [] (parts path) refl (split_on-free slash path)))
      (rw h (
        any-reverse is_parent (norm_parts true [] (parts path))
        ∙ absolute-no_parent [] (parts path) refl))
