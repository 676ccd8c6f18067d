-- ===== src/Conversation/Parts/Kept.antt =====
-- What `build_parts` of src/xarness/conversation.py keeps of a message's text and of its images.
use xarness.Prelude.{
  ℕ, zero, suc, ◌+◌, ◌-◌, ◌≡◌, refl, sym, ap, subst, any, map, not, ◌&&◌, ◌||◌, append-nil, ◌∙◌,
  Bool, true, false, Option, none, some, List, [], ◌∷◌, ◌++◌, Text, Bool-cases, Option-cases, inl,
  inr, arith, append_assoc, length, filter, if◌then◌else◌,
}
use xarness.Prelude.Strip.{text_eq→≡, text_eq, text_eq_refl}
use xarness.Conversation.Message.{Part, text, image, ImageRef, part_images, token_text}
use xarness.Conversation.Parts.{
  Piece, chunk, token, chunk_of, token_length, pieces_from, pieces, Images, has_token, claim,
  unused, place, fresh_images, build_parts,
}

-- A message as the user wrote it: an image shows as its token.
abbrev pub rendered : List Part → Text
rendered [] = []
rendered (text t ∷ parts) = t ++ rendered parts
rendered (image i ∷ parts) = token_text i ++ rendered parts

abbrev joined_pieces : List Piece → Text
joined_pieces [] = []
joined_pieces (chunk t ∷ ps) = t ++ joined_pieces ps
joined_pieces (token t ∷ ps) = t ++ joined_pieces ps

chunk_of-text :
    (t : Text) (ps : List Piece) → joined_pieces (chunk_of t ++ ps) ≡ t ++ joined_pieces ps
chunk_of-text [] ps = refl
chunk_of-text (c ∷ cs) ps = refl

pieces_from-text : (o : Option ℕ) (seen t : Text) → joined_pieces (pieces_from o seen t) ≡ seen ++ t
unfolding pieces_from
pieces_from-text none [] [] = refl
pieces_from-text none (c ∷ cs) [] = refl
pieces_from-text (some n) seen [] = refl
pieces_from-text (some zero) seen (c ∷ cs) = elim (Option-cases (token_length (c ∷ cs))) [
  | inl e ↦
      rw (joined_pieces, pieces_from, e) (ap (λ r. seen ++ r) (pieces_from-text none (c ∷ []) cs))
  | inr (n, e) ↦
      rw (joined_pieces, pieces_from, e)
        (ap (λ r. seen ++ r) (pieces_from-text (some (n - 1)) (c ∷ []) cs))
]
pieces_from-text (some (suc n)) seen (c ∷ cs) =
    pieces_from-text (some n) (seen ++ c ∷ []) cs ∙ append_assoc seen (c ∷ []) cs
pieces_from-text none seen (c ∷ cs) = elim (Option-cases (token_length (c ∷ cs))) [
  | inl e ↦
      rw (joined_pieces, pieces_from, e)
        (pieces_from-text none (seen ++ c ∷ []) cs ∙ append_assoc seen (c ∷ []) cs)
  | inr (n, e) ↦
      rw (joined_pieces, pieces_from, e)
        (chunk_of-text seen (pieces_from (some (n - 1)) (c ∷ []) cs)
          ∙ ap (λ r. seen ++ r) (pieces_from-text (some (n - 1)) (c ∷ []) cs))
]

-- How many images satisfy a test.
abbrev pub count : (ImageRef → Bool) → List ImageRef → ℕ
count p is = length (filter p is)

abbrev pub shows : Text → ImageRef → Bool
shows t i = text_eq (token_text i) t

-- Each token that some image has is shown.
abbrev pub all_shown : (shown known : Text → Bool) → List Piece → Bool
all_shown shown known [] = true
all_shown shown known (chunk t ∷ ps) = all_shown shown known ps
all_shown shown known (token t ∷ ps) = (not (known t) || shown t) && all_shown shown known ps

all_shown_mono :
    (shown shown' known : Text → Bool) (ps : List Piece)
    → ((t : Text) → shown t ≡ true → shown' t ≡ true)
    → all_shown shown known ps ≡ true
    → all_shown shown' known ps ≡ true
all_shown_mono shown shown' known [] h k = refl
all_shown_mono shown shown' known (chunk t ∷ ps) h k = all_shown_mono shown shown' known ps h k
all_shown_mono shown shown' known (token t ∷ ps) h k =
    let later : all_shown shown known ps ≡ true = ground arith in
    ground (arith, h t, all_shown_mono shown shown' known ps h later)

-- Each used image is shown.
abbrev used_shown : (Text → Bool) → Images → Bool
used_shown shown [] = true
used_shown shown ((used, i) ∷ images) =
    (not used || shown (token_text i)) && used_shown shown images

used_shown_mono :
    (shown shown' : Text → Bool) (images : Images)
    → ((t : Text) → shown t ≡ true → shown' t ≡ true)
    → used_shown shown images ≡ true
    → used_shown shown' images ≡ true
used_shown_mono shown shown' [] h k = refl
used_shown_mono shown shown' ((used, i) ∷ images) h k =
    let later : used_shown shown images ≡ true = ground arith in
    ground (arith, h (token_text i), used_shown_mono shown shown' images h later)

-- A token that no image is claimed for is that of no image, or is shown.
claim-none :
    (shown : Text → Bool) (t : Text) (images : Images)
    → claim t images ≡ none
    → used_shown shown images ≡ true
    → has_token t images ≡ true
    → shown t ≡ true
unfolding claim has_token
claim-none shown t [] n u k = absurd (ground arith)
claim-none shown t ((used, j) ∷ images) n u k = elim (Bool-cases (has_token t images)) [
  | inl e ↦ elim (Option-cases (claim t images)) [
    | inl later ↦ claim-none shown t images later (ground arith) e
    | inr ((i, rest), s) ↦ absurd (ground arith)
  ]
  | inr e ↦
      let same : text_eq (token_text j) t ≡ true = ground arith in
      let spent : used ≡ true = ground arith in
      let seen : shown (token_text j) ≡ true = ground arith in
      subst (λ text. shown text ≡ true) (text_eq→≡ (token_text j) t same) seen
]

-- A claimed image has the token, and the others stay as they were.
record Claims (t : Text) (images : Images) (i : ImageRef) (images' : Images) : Type 0 where
  image_token : token_text i ≡ t
  counts :
      (p : ImageRef → Bool)
      → count p (part_images (unused images))
        ≡ (if p i then 1 else 0) + count p (part_images (unused images'))
  known : (text : Text) → has_token text images' ≡ has_token text images
  spent :
      (shown shown' : Text → Bool)
      → ((text : Text) → shown text ≡ true → shown' text ≡ true)
      → shown' (token_text i) ≡ true
      → used_shown shown images ≡ true
      → used_shown shown' images' ≡ true

claim-Claims :
    (t : Text) (images : Images) (i : ImageRef) (images' : Images)
    → claim t images ≡ some (i, images')
    → Claims t images i images'
unfolding claim unused has_token
claim-Claims t [] i images' h = absurd (ground arith)
claim-Claims t ((used, j) ∷ images) i images' h = elim (Bool-cases (has_token t images)) [
  | inl e ↦ elim (Option-cases (claim t images)) [
    | inl n ↦ absurd (ground arith)
    | inr ((k, rest), s) ↦
        let c = claim-Claims t images k rest s in
        let ei : i ≡ k = ground arith in
        let es : images' ≡ (used, j) ∷ rest = ground arith in
        rw (ei, es)
          (record {
            image_token = c.image_token;
            counts = λ p. ground (arith, c.counts p);
            known = λ text. ap (λ b. text_eq (token_text j) text || b) (c.known text);
            spent = λ shown shown' mono new u.
                let later : used_shown shown images ≡ true = ground arith in
                ground (arith, mono (token_text j), c.spent shown shown' mono new later);
          })
  ]
  | inr e ↦
      let ei : i ≡ j = ground arith in
      let es : images' ≡ (true, j) ∷ images = ground arith in
      let u : used ≡ false = ground arith in
      let m : text_eq (token_text j) t ≡ true = ground arith in
      rw (ei, es, u)
        (record {
          image_token = text_eq→≡ (token_text j) t m;
          counts = λ p. ground arith;
          known = λ text. refl;
          spent = λ shown shown' mono new u.
              let later : used_shown shown images ≡ true = ground arith in
              ground (arith, new, used_shown_mono shown shown' images mono later);
        })
]

unused-image : (images : Images) → unused images ≡ map image (part_images (unused images))
unfolding unused
unused-image [] = refl
unused-image ((true, i) ∷ images) = unused-image images
unused-image ((false, i) ∷ images) = ap (λ rest. image i ∷ rest) (unused-image images)

-- What `place` makes of the pieces and the images: `front` in their place, and `left` behind it.
record Placement (ps : List Piece) (images : Images) (parts : List Part) : Type 0 where
  front : List Part
  left : List ImageRef
  splits : parts ≡ front ++ map image left
  reads : rendered front ≡ joined_pieces ps
  counts :
      (p : ImageRef → Bool)
      → count p (part_images front) + count p left ≡ count p (part_images (unused images))
  shown :
      (before known : Text → Bool)
      → used_shown before images ≡ true
      → ((t : Text) → known t ≡ has_token t images)
      → all_shown (λ t. before t || any (shows t) (part_images front)) known ps ≡ true

Placement-text :
    (t : Text) (ps ps' : List Piece) (images : Images) (parts : List Part)
    → joined_pieces ps' ≡ t ++ joined_pieces ps
    → ((before known : Text → Bool) (l : List ImageRef)
        → used_shown before images ≡ true
        → ((u : Text) → known u ≡ has_token u images)
        → all_shown (λ u. before u || any (shows u) l) known ps ≡ true
        → all_shown (λ u. before u || any (shows u) l) known ps' ≡ true)
    → Placement ps images parts
    → Placement ps' images (text t ∷ parts)
Placement-text t ps ps' images parts j h k = record {
  front = text t ∷ k.front;
  left = k.left;
  splits = ap (λ rest. text t ∷ rest) k.splits;
  reads = ap (λ r. t ++ r) k.reads ∙ sym j;
  counts = k.counts;
  shown = λ before known u e. h before known (part_images k.front) u e (k.shown before known u e);
}

Placement-image :
    (t : Text) (i : ImageRef) (ps : List Piece) (images images' : Images) (parts : List Part)
    → Claims t images i images'
    → Placement ps images' parts
    → Placement (token t ∷ ps) images (image i ∷ parts)
Placement-image t i ps images images' parts c k = record {
  front = image i ∷ k.front;
  left = k.left;
  splits = ap (λ rest. image i ∷ rest) k.splits;
  reads = rw c.image_token (ap (λ r. t ++ r) k.reads);
  counts = λ p. rw (c.counts p) (ground (arith, k.counts p));
  shown = λ before known u e.
      let now : Text → Bool = λ text. before text || shows text i in
      let own : shows (token_text i) i ≡ true = text_eq_refl (token_text i) in
      let hit : shows t i ≡ true = rw (← c.image_token) own in
      let later =
        k.shown now known (c.spent before now (λ text h. ground arith) (ground (arith, own)) u)
          (λ text. e text ∙ sym (c.known text)) in
      let rest =
        all_shown_mono (λ text. now text || any (shows text) (part_images k.front))
          (λ text. before text || any (shows text) (i ∷ part_images k.front)) known ps
          (λ text h. ground arith) later in
      ground (arith, hit, rest);
}

place-Placement : (ps : List Piece) (images : Images) → Placement ps images (place ps images)
unfolding place
place-Placement [] images = record {
  front = [];
  left = part_images (unused images);
  splits = unused-image images;
  reads = refl;
  counts = λ p. omega arith;
  shown = λ before known u e. refl;
}
place-Placement (chunk t ∷ ps) images =
    Placement-text t ps (chunk t ∷ ps) images (place ps images) refl (λ before known l u e h. h)
      (place-Placement ps images)
place-Placement (token t ∷ ps) images = elim (Option-cases (claim t images)) [
  | inl n ↦
      rw (place, n)
        (Placement-text t ps (token t ∷ ps) images (place ps images) refl
          (λ before known l u e h. ground (arith, e t, claim-none before t images n u))
          (place-Placement ps images))
  | inr ((i, images'), s) ↦
      rw (place, s)
        (Placement-image t i ps images images' (place ps images')
          (claim-Claims t images i images' s) (place-Placement ps images'))
]

unused-fresh_images : (is : List ImageRef) → part_images (unused (fresh_images is)) ≡ is
unfolding unused
unused-fresh_images [] = refl
unused-fresh_images (i ∷ is) = rw (unused-fresh_images is)

used-fresh_images :
    (shown : Text → Bool) (is : List ImageRef) → used_shown shown (fresh_images is) ≡ true
used-fresh_images shown [] = refl
used-fresh_images shown (i ∷ is) = used-fresh_images shown is

has_token-fresh_images :
    (t : Text) (is : List ImageRef) → any (shows t) is ≡ has_token t (fresh_images is)
unfolding has_token
has_token-fresh_images t [] = refl
has_token-fresh_images t (i ∷ is) = ap (λ b. shows t i || b) (has_token-fresh_images t is)

none_known : (shown : Text → Bool) (ps : List Piece) → all_shown shown (λ t. false) ps ≡ true
none_known shown [] = refl
none_known shown (chunk t ∷ ps) = none_known shown ps
none_known shown (token t ∷ ps) = none_known shown ps

-- The parts of a message are those that stand in the text's own place, then the images that are left,
-- and no image is lost, made or doubled: as many of the placed ones and of those left satisfy a test
-- as of the images given, whatever the test. The parts in place, with each image shown as its token,
-- read as the text that the user wrote; and for each token of the text that is the token of an
-- image given, an image with that token stands in place.
pub build_parts-text :
    (t : Text) (is : List ImageRef)
    → (front : List Part) × (left : List ImageRef) × (build_parts t is ≡ front ++ map image left)
      × (rendered front ≡ t)
      × ((p : ImageRef → Bool) → count p (part_images front) + count p left ≡ count p is)
      × (all_shown (λ u. any (shows u) (part_images front)) (λ u. any (shows u) is) (pieces t)
          ≡ true)
unfolding build_parts pieces
build_parts-text [] [] = ([], [], refl, refl, (λ p. refl), refl)
build_parts-text (c ∷ cs) [] = (
  text (c ∷ cs) ∷ [],
  [],
  refl,
  append-nil (c ∷ cs),
  (λ p. refl),
  none_known (λ u. false) (pieces_from none [] (c ∷ cs)),
)
build_parts-text t (i ∷ is) =
    let k = place-Placement (pieces t) (fresh_images (i ∷ is)) in
    (
      k.front,
      k.left,
      k.splits,
      k.reads ∙ pieces_from-text none [] t,
      (λ p. k.counts p ∙ ap (count p) (unused-fresh_images (i ∷ is))),
      k.shown (λ u. false) (λ u. any (shows u) (i ∷ is)) (used-fresh_images (λ u. false) (i ∷ is))
          (λ u. has_token-fresh_images u (i ∷ is)),
    )
