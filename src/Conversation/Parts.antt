-- ===== src/Conversation/Parts.antt =====
-- `build_parts` and `user_message` of src/xarness/conversation.py, on images that are references:
-- what a session passes. An image is told apart from the others by its place in the list, where the
-- source takes its `id`: the same where no object is listed twice, as in the lists a session reads.
pub mod Kept
use xarness.Prelude.{
  ℕ, zero, suc, ◌-◌, Bool, true, false, not, ◌||◌, ◌&&◌, Option, none, some, List, [], ◌∷◌, ◌++◌,
  String, Text, codes, nonempty, length, eqb, if◌then◌else◌,
}
use xarness.Prelude.Strip.{drop_prefix, text_eq}
use xarness.Conversation.Message.{Part, text, image, ImageRef, Timing, UserMessage, token_text}

abbrev bracket : ℕ
bracket = 93

abbrev newline : ℕ
newline = 10

-- `[^\]\n]*\]` at the head of a text, as its length: none where a newline or the end comes first.
unfoldable pub label_length : Text → Option ℕ
label_length [] = none
label_length (c ∷ cs) =
    let rest = label_length cs in
    if eqb c bracket
    then some 1
    else if eqb c newline
    then none
    else elim rest [ none ↦ none | some n ↦ some (suc n) ]

-- A match of `IMAGE_TOKEN_RE`, `\[🖼 [^\]\n]+\]`, at the head of a text, as its length.
unfoldable pub token_length : Text → Option ℕ
unfolding label_length
token_length t = elim (drop_prefix (codes "[🖼 ") t) [
  | none ↦ none
  | some rest ↦ elim (label_length rest) [
    | none ↦ none
    | some n ↦ if eqb n 1 then none else some (suc (suc (suc n)))
  ]
]

-- What the loop over the matches cuts a text into.
pub data Piece : Type 0 where
  chunk : Text → Piece
  token : Text → Piece

abbrev pub chunk_of : Text → List Piece
chunk_of [] = []
chunk_of (c ∷ cs) = chunk (c ∷ cs) ∷ []

-- The scan: `open` is the token that is being read with the number of characters it still lacks,
-- and `seen` the chunk or the token so far.
unfoldable pub pieces_from : Option ℕ → Text → Text → List Piece
unfolding token_length
pieces_from none seen [] = chunk_of seen
pieces_from (some n) seen [] = token seen ∷ []
pieces_from (some zero) seen (c ∷ cs) = elim (token_length (c ∷ cs)) [
  | none ↦ token seen ∷ pieces_from none (c ∷ []) cs
  | some n ↦ token seen ∷ pieces_from (some (n - 1)) (c ∷ []) cs
]
pieces_from (some (suc n)) seen (c ∷ cs) = pieces_from (some n) (seen ++ c ∷ []) cs
pieces_from none seen (c ∷ cs) = elim (token_length (c ∷ cs)) [
  | none ↦ pieces_from none (seen ++ c ∷ []) cs
  | some n ↦ chunk_of seen ++ pieces_from (some (n - 1)) (c ∷ []) cs
]

unfoldable pub pieces : Text → List Piece
unfolding pieces_from
pieces t = pieces_from none [] t

-- The images, each with whether it is used.
abbrev pub Images : Type 0
Images = List (Bool × ImageRef)

-- `by_token.get(t)`, with the image marked as used: the last image with the token, unless it is
-- used already or there is none.
unfoldable pub has_token : Text → Images → Bool
has_token t [] = false
has_token t ((used, i) ∷ images) = text_eq (token_text i) t || has_token t images

unfoldable pub claim : Text → Images → Option (ImageRef × Images)
unfolding has_token
claim t [] = none
claim t ((used, i) ∷ images) =
    let later = claim t images in
    if has_token t images
    then elim later [ none ↦ none | some (j, images') ↦ some (j, (used, i) ∷ images') ]
    else if text_eq (token_text i) t && not used
    then some (i, (true, i) ∷ images)
    else none

unfoldable pub unused : Images → List Part
unused [] = []
unused ((used, i) ∷ images) = let rest = unused images in if used then rest else image i ∷ rest

unfoldable pub place : List Piece → Images → List Part
unfolding claim unused
place [] images = unused images
place (chunk t ∷ ps) images = text t ∷ place ps images
place (token t ∷ ps) images = elim (claim t images) [
  | none ↦ text t ∷ place ps images
  | some (i, images') ↦ image i ∷ place ps images'
]

abbrev pub fresh_images : List ImageRef → Images
fresh_images [] = []
fresh_images (i ∷ is) = (false, i) ∷ fresh_images is

unfoldable pub build_parts : Text → List ImageRef → List Part
unfolding pieces place
build_parts t [] = if nonempty t then text t ∷ [] else []
build_parts t (i ∷ is) = place (pieces t) (fresh_images (i ∷ is))

-- `images or None`: a list that is missing is an empty one.
unfoldable pub user_message : String → Text → List ImageRef → Timing → UserMessage
unfolding build_parts
user_message fresh t images timing = record {
  id = fresh;
  timing = timing;
  parts = build_parts t images;
  is_summary = false;
}
