-- ===== src/Fs/Pieces.antt =====
-- Lines of any length under the loops of components/SYS/sys_littlefs.c: fgets stores at most 63 bytes,
-- so that a longer line is read in pieces.
use mathlib.Core.List.{append_assoc}
use clios.Prelude.{
  ℕ, zero, suc, ◌≤◌, ◌<◌, ◌≡◌, refl, sym, ap, ◌∙◌, true, List, [], ◌∷◌, ◌++◌, some, arith, ltb, leb,
  length, get_elem?, take, drop, c_str, length-append, length-drop, inl, inr, Bool-cases, leb→le,
  leb_false→lt,
}
use clios.Prelude.Int.{ℤ, to_u8}
use clios.Lua.{int_slot, boolean, table, done, string_slot}
use clios.Fs.{
  Disk, store, fs_edit, edit_lines, rewrite, put_line, bytes_or_empty, fs_read, fs_write, fgets,
  trim, read_lines, number_lines, table_get, print_lines,
}
use clios.Fs.Lines.{Clean, c_str-Clean, read_line, table_get-line}
use clios.Fs.Handlers.{rows_fit-leb, eqb_refl}

-- A byte in front of the first piece.
abbrev push : ℕ → List (List ℕ) → List (List ℕ)
push c [] = (c ∷ []) ∷ []
push c (p ∷ ps) = (c ∷ p) ∷ ps

-- A line cut behind every 63rd byte, with room for `suc n` bytes in the first piece; a line of just so
-- many bytes has an empty piece behind it.
unfoldable pub pieces : ℕ → List ℕ → List (List ℕ)
pieces n [] = [] ∷ []
pieces zero (c ∷ line) = (c ∷ []) ∷ pieces 62 line
pieces (suc n) (c ∷ line) = push c (pieces n line)

unfoldable pub all_pieces : List (List ℕ) → List (List ℕ)
all_pieces [] = []
all_pieces (line ∷ lines) = pieces 62 line ++ all_pieces lines

-- Lines with no newline and no NUL in them.
abbrev pub CleanLines : List (List ℕ) → Type 0
CleanLines [] = Unit {0}
CleanLines (line ∷ lines) = Clean line × CleanLines lines

pieces-short : (n : ℕ) (line : List ℕ) → length line ≤ n → pieces n line ≡ line ∷ []
unfolding pieces
pieces-short n [] h = refl
pieces-short zero (c ∷ line) h = elim h [ ]
pieces-short (suc n) (c ∷ line) h = ap (push c) (pieces-short n line (omega arith))

pieces-long :
    (n : ℕ) (line : List ℕ)
    → n < length line
    → pieces n line ≡ take (suc n) line ∷ pieces 62 (drop (suc n) line)
unfolding pieces
pieces-long n [] h = elim h [ ]
pieces-long zero (c ∷ line) h = refl
pieces-long (suc n) (c ∷ line) h = ap (push c) (pieces-long n line (omega arith))

fgets-long :
    (n : ℕ) (line rest : List ℕ)
    → Clean line
    → n ≤ length line
    → fgets n (line ++ rest) ≡ (take n line, drop n line ++ rest)
unfolding fgets
fgets-long zero line rest k h = refl
fgets-long (suc n) [] rest k h = elim h [ ]
fgets-long (suc n) (c ∷ line) rest k h =
    rw k.0 (ap (λ p. (c ∷ p.0, p.1)) (fgets-long n line rest k.2 (omega arith)))

take-Clean : (n : ℕ) (line : List ℕ) → Clean line → Clean (take n line)
take-Clean zero line k = tt
take-Clean (suc n) [] k = tt
take-Clean (suc n) (c ∷ line) k = (k.0, k.1, take-Clean n line k.2)

drop-Clean : (n : ℕ) (line : List ℕ) → Clean line → Clean (drop n line)
drop-Clean zero line k = k
drop-Clean (suc n) [] k = tt
drop-Clean (suc n) (c ∷ line) k = drop-Clean n line k.2

trim-Clean : (line : List ℕ) → Clean line → trim line ≡ line
unfolding trim
trim-Clean [] k = refl
trim-Clean (c ∷ []) k = rw k.0 refl
trim-Clean (c ∷ d ∷ line) k = ap (◌∷◌ c) (trim-Clean (d ∷ line) k.2)

-- The first 63 bytes of a longer line.
read_piece :
    (line rest : List ℕ) (fuel : ℕ)
    → Clean line
    → 63 ≤ length line
    → read_lines (suc fuel) (line ++ rest) ≡ take 63 line ∷ read_lines fuel (drop 63 line ++ rest)
unfolding read_lines
read_piece [] rest fuel k h = absurd (omega arith)
read_piece (c ∷ line) rest fuel k h =
    ap (λ r. trim (c_str r.0) ∷ read_lines fuel r.1) (fgets-long 63 (c ∷ line) rest k h)
    ∙ ap (λ l. l ∷ read_lines fuel (drop 63 (c ∷ line) ++ rest))
        (ap trim (c_str-Clean (take 63 (c ∷ line)) piece) ∙ trim-Clean (take 63 (c ∷ line)) piece)
  where
    piece : Clean (take 63 (c ∷ line))
    piece = take-Clean 63 (c ∷ line) k

-- The loops over fgets read the lines piece by piece, whatever the fuel above the size of the file.
pub read_lines-pieces :
    (fuel : ℕ) (lines : List (List ℕ))
    → CleanLines lines
    → length (print_lines lines) ≤ fuel
    → read_lines fuel (print_lines lines) ≡ all_pieces lines
unfolding print_lines all_pieces read_lines
read_lines-pieces zero [] k h = refl
read_lines-pieces (suc fuel) [] k h = refl
read_lines-pieces zero (line ∷ lines) k h =
    absurd (omega (arith, length-append line (10 ∷ print_lines lines)))
read_lines-pieces (suc fuel) (line ∷ lines) k h = elim (Bool-cases (leb (length line) 62)) [
  | inl short ↦
      read_line line (print_lines lines) fuel k.0 (leb→le (length line) 62 short)
      ∙ ap (◌∷◌ line) (
          read_lines-pieces fuel lines k.1
            (omega (arith, length-append line (10 ∷ print_lines lines))))
      ∙ ap (λ ps. ps ++ all_pieces lines)
          (sym (pieces-short 62 line (leb→le (length line) 62 short)))
  | inr long ↦
      let b : 62 < length line = leb_false→lt (length line) 62 long in
      read_piece line (10 ∷ print_lines lines) fuel k.0 (omega arith)
      ∙ ap (◌∷◌ (take 63 line)) (
          read_lines-pieces fuel (drop 63 line ∷ lines) (drop-Clean 63 line k.0, k.1)
            (omega (
              arith,
              length-append line (10 ∷ print_lines lines),
              length-append (drop 63 line) (10 ∷ print_lines lines),
              length-drop 63 line,
            )))
      ∙ ap (λ ps. ps ++ all_pieces lines) (sym (pieces-long 62 line b))
]

c_str-append : (line rest : List ℕ) → Clean line → c_str (line ++ rest) ≡ line ++ c_str rest
c_str-append [] rest k = refl
c_str-append (c ∷ line) rest k = rw (k.1) (ap (◌∷◌ c) (c_str-append line rest k.2))

c_str-print :
    (lines : List (List ℕ)) → CleanLines lines → c_str (print_lines lines) ≡ print_lines lines
unfolding print_lines
c_str-print [] k = refl
c_str-print (line ∷ lines) k =
    c_str-append line (10 ∷ print_lines lines) k.0
    ∙ ap (λ t. line ++ 10 ∷ t) (c_str-print lines k.1)

print_lines-append :
    (xs ys : List (List ℕ)) → print_lines (xs ++ ys) ≡ print_lines xs ++ print_lines ys
unfolding print_lines
print_lines-append [] ys = refl
print_lines-append (x ∷ xs) ys =
    ap (λ t. x ++ 10 ∷ t) (print_lines-append xs ys)
    ∙ sym (append_assoc x (10 ∷ print_lines xs) (print_lines ys))

CleanLines-append : (xs ys : List (List ℕ)) → CleanLines xs → CleanLines ys → CleanLines (xs ++ ys)
CleanLines-append [] ys k l = l
CleanLines-append (x ∷ xs) ys k l = (k.0, CleanLines-append xs ys k.1 l)

-- On a file of whole lines, or none, that can be opened for writing, where neither the lines nor the
-- name have a NUL: `write` of a text of whole lines appends them, and `read` then gives all lines, the
-- old ones and the new ones, each cut behind every 63rd byte. While there are at most 255 pieces, the
-- piece at position `i` stands under the key `i + 1`.
pub write_then_read :
    (d : Disk) (f : List ℕ) (old new : List (List ℕ))
    → Clean f
    → CleanLines old
    → CleanLines new
    → bytes_or_empty (d.content f) ≡ print_lines old
    → d.writable f ≡ true
    → length (all_pieces (old ++ new)) ≤ 255
    → (d' : Disk) × (entries : List (ℕ × List ℕ)) × (fs_write
          (string_slot f ∷ string_slot (print_lines new) ∷ [])
          d
        ≡ done (boolean (ltb 0 (length (print_lines new))) ∷ []) d')
      × (fs_read (string_slot f ∷ []) d' ≡ done (table entries ∷ []) d')
      × ((i : ℕ) → table_get (suc i) entries ≡ get_elem? (all_pieces (old ++ new)) i)
unfolding fs_write fs_read
write_then_read d f old new kf ko kn held w few =
    let text = print_lines (old ++ new) in
    let ps = all_pieces (old ++ new) in
    (
      store d f (some text),
      number_lines 1 ps,
      ground (arith, c_str-Clean f kf, c_str-print new kn, print_lines-append old new),
      ground (
        arith,
        c_str-Clean f kf,
        eqb_refl f,
        read_lines-pieces (length text) (old ++ new) (CleanLines-append old new ko kn),
      ),
      λ i. table_get-line ps i few,
    )

-- `edit` with a content on a writable file of lines of any length, at most 64 pieces of them, at an
-- index from 1 to 63: where it puts the content between the pieces, it writes each of the other pieces
-- as a line of its own.
pub edit_splits_lines :
    (d : Disk) (f content : List ℕ) (index : ℤ) (lines : List (List ℕ))
    → Clean f
    → Clean content
    → CleanLines lines
    → d.content f ≡ some (print_lines lines)
    → d.writable f ≡ true
    → length (all_pieces lines) ≤ 64
    → 1 ≤ to_u8 index
    → to_u8 index ≤ 63
    → 0 < length content
    → fs_edit (string_slot f ∷ int_slot index ∷ string_slot content ∷ []) d
      ≡ done
          (boolean true ∷ [])
          (store d f (some (print_lines (put_line (to_u8 index) content (all_pieces lines)))))
unfolding fs_edit edit_lines rewrite
edit_splits_lines d f content index lines kf kc kl held w few lo hi full = ground (
  arith,
  c_str-Clean f kf,
  c_str-Clean content kc,
  read_lines-pieces (length (print_lines lines)) lines kl,
  rows_fit-leb 0 (all_pieces lines) (omega arith),
)
