-- ===== src/Output/Table/Pieces.antt =====
-- Where a padded line has its pieces.
use yamaha_cli.Prelude.{
  ℕ, zero, suc, ◌+◌, ◌-◌, ◌≤◌, ◌≡◌, refl, sym, ap, ◌∙◌, ◌++◌, append_assoc, append-nil,
  length-append, true, List, [], ◌∷◌, some, arith, leb, length, All, replicate,
}
use yamaha_cli.Text.{Bytes, codes}
use yamaha_cli.Output.Table.{Piece, spaces, write_pieces}

-- The text stands in the line at this offset.
abbrev pub At : ℕ → Bytes → Bytes → Type 0
At offset text line =
    (before : Bytes) × (after : Bytes) × (line ≡ before ++ text ++ after) × (length before ≡ offset)

abbrev pub Fits : Piece → Type 0
Fits p = p.size ≤ p.width

abbrev pub Plain : Piece → Type 0
Plain p = length p.text ≡ p.size

length-replicate : (n c : ℕ) → length (replicate n c) ≡ n
length-replicate zero c = refl
length-replicate (suc n) c = ap suc (length-replicate n c)

abbrev padded : Piece → Bytes → Bytes
padded p rest = p.text ++ replicate (p.width - p.size) 32 ++ codes "  " ++ rest

padded-pieces :
    (p q : Piece) (ps : List Piece) (rest : Bytes)
    → Fits p
    → write_pieces (q ∷ ps) ≡ some rest
    → write_pieces (p ∷ q ∷ ps) ≡ some (padded p rest)
unfolding write_pieces spaces
padded-pieces p q ps rest h e =
    let f : leb p.size p.width ≡ true = ground arith in rw (write_pieces, f, e) refl

pub pieces_written :
    (p : Piece) (ps : List Piece)
    → All Fits (p ∷ ps)
    → (line : Bytes) × (write_pieces (p ∷ ps) ≡ some line)
unfolding write_pieces
pieces_written p [] h = (p.text, refl)
pieces_written p (q ∷ ps) h =
    let (rest, e) = pieces_written q ps h.1 in (padded p rest, padded-pieces p q ps rest h.0 e)

abbrev pub piece_offset : List Piece → ℕ
piece_offset [] = 0
piece_offset (p ∷ ps) = p.width + 2 + piece_offset ps

-- What stands in the rest of a line stands further on in the line.
At-padded :
    (p : Piece) (offset : ℕ) (text rest : Bytes)
    → Fits p
    → Plain p
    → At offset text rest
    → At (p.width + 2 + offset) text (padded p rest)
At-padded p offset text rest h k (before, after, e, l) = (
  padded p before,
  after,
  ap (padded p) e
      ∙ nest (p.text ++ replicate (p.width - p.size) 32 ++ codes "  ") before text after,
  omega (
    arith,
    length-append (p.text ++ replicate (p.width - p.size) 32 ++ codes "  ") before,
    length-append (p.text ++ replicate (p.width - p.size) 32) (codes "  "),
    length-append p.text (replicate (p.width - p.size) 32),
    length-replicate (p.width - p.size) 32,
    h,
    k,
    l,
  ),
)
  where
    nest : (a b c d : Bytes) → a ++ (b ++ c ++ d) ≡ a ++ b ++ c ++ d
    nest a b c d = sym (append_assoc a (b ++ c) d) ∙ ap (λ x. x ++ d) (sym (append_assoc a b c))

behind : (a b c d : Bytes) → a ++ b ++ c ++ d ≡ a ++ (b ++ c ++ d)
behind a b c d = ap (λ x. x ++ d) (append_assoc a b c) ∙ append_assoc a (b ++ c) d

-- Where a plain line has the text of a piece.
pub aligned_pieces :
    (front : List Piece) (p : Piece) (back : List Piece)
    → All Fits (front ++ p ∷ back)
    → All Plain (front ++ p ∷ back)
    → (line : Bytes) × (write_pieces (front ++ p ∷ back) ≡ some line)
      × At (piece_offset front) p.text line
unfolding write_pieces
aligned_pieces [] p [] h k = (p.text, refl, ([], [], sym (append-nil p.text), refl))
aligned_pieces [] p (q ∷ ps) h k =
    let (rest, e) = pieces_written q ps h.1 in
    (
      padded p rest,
      padded-pieces p q ps rest h.0 e,
      (
        [],
        replicate (p.width - p.size) 32 ++ codes "  " ++ rest,
        behind p.text (replicate (p.width - p.size) 32) (codes "  ") rest,
        refl,
      ),
    )
aligned_pieces (f ∷ []) p back h k =
    let (rest, e, a) = aligned_pieces [] p back h.1 k.1 in
    (padded f rest, padded-pieces f p back rest h.0 e, At-padded f 0 p.text rest h.0 k.0 a)
aligned_pieces (f ∷ g ∷ front) p back h k =
    let (rest, e, a) = aligned_pieces (g ∷ front) p back h.1 k.1 in
    (
      padded f rest,
      padded-pieces f g (front ++ p ∷ back) rest h.0 e,
      At-padded f (piece_offset (g ∷ front)) p.text rest h.0 k.0 a,
    )
