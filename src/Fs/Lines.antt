-- ===== src/Fs/Lines.antt =====
-- The line loops of components/SYS/sys_littlefs.c: fgets with a buffer of 64 bytes, the trimming of
-- the newline, and the numbering of the lines in the table of L_FS_READ.
use clios.Prelude.{
  ℕ, zero, suc, ◌+◌, ◌%◌, some, ◌≤◌, ◌<◌, ◌≡◌, refl, ap, ◌∙◌, false, List, [], ◌∷◌, ◌++◌, none,
  arith, ◌==◌, length, get_elem?, c_str, length-append,
}
use clios.Fs.{fgets, trim, read_lines, number_lines, table_get, print_lines}

-- No newline and no NUL.
abbrev pub Clean : List ℕ → Type 0
Clean [] = Unit {0}
Clean (c ∷ s) = (c == 10 ≡ false) × (c == 0 ≡ false) × Clean s

-- Lines that fit a buffer of 64 bytes with their newline and a NUL.
abbrev pub Tidy : List (List ℕ) → Type 0
Tidy [] = Unit {0}
Tidy (line ∷ lines) = (Clean line × (length line ≤ 62)) × Tidy lines

-- fgets loses no byte and invents none.
pub fgets-append : (n : ℕ) (s : List ℕ) → (fgets n s).0 ++ (fgets n s).1 ≡ s
unfolding fgets
fgets-append zero s = refl
fgets-append (suc n) [] = refl
fgets-append (suc n) (c ∷ s) = ground (arith, fgets-append n s)

pub length-fgets : (n : ℕ) (s : List ℕ) → length (fgets n s).0 ≤ n
unfolding fgets
length-fgets zero s = omega arith
length-fgets (suc n) [] = omega arith
length-fgets (suc n) (c ∷ s) = ground (arith, length-fgets n s)

fgets-line :
    (line rest : List ℕ) (n : ℕ)
    → Clean line
    → length line < n
    → fgets n (line ++ 10 ∷ rest) ≡ (line ++ 10 ∷ [], rest)
unfolding fgets
fgets-line [] rest zero k h = elim h [ ]
fgets-line [] rest (suc n) k h = refl
fgets-line (c ∷ line) rest zero k h = elim h [ ]
fgets-line (c ∷ line) rest (suc n) k h =
    rw k.0 (ap (λ p. (c ∷ p.0, p.1)) (fgets-line line rest n k.2 (omega arith)))

c_str-line : (line : List ℕ) → Clean line → c_str (line ++ 10 ∷ []) ≡ line ++ 10 ∷ []
c_str-line [] k = refl
c_str-line (c ∷ line) k = rw (k.1) (ap (◌∷◌ c) (c_str-line line k.2))

pub c_str-Clean : (line : List ℕ) → Clean line → c_str line ≡ line
c_str-Clean [] k = refl
c_str-Clean (c ∷ line) k = rw (k.1) (ap (◌∷◌ c) (c_str-Clean line k.2))

trim-line : (line : List ℕ) → trim (line ++ 10 ∷ []) ≡ line
unfolding trim
trim-line [] = refl
trim-line (c ∷ []) = refl
trim-line (c ∷ d ∷ line) = ap (◌∷◌ c) (trim-line (d ∷ line))

read_first :
    (c : ℕ) (s line rest : List ℕ) (fuel : ℕ)
    → Clean line
    → fgets 63 (c ∷ s) ≡ (line ++ 10 ∷ [], rest)
    → read_lines (suc fuel) (c ∷ s) ≡ line ∷ read_lines fuel rest
unfolding read_lines
read_first c s line rest fuel k e =
    ap (λ r. trim (c_str r.0) ∷ read_lines fuel r.1) e
    ∙ ap (λ l. l ∷ read_lines fuel rest) (ap trim (c_str-line line k) ∙ trim-line line)

pub read_line :
    (line rest : List ℕ) (fuel : ℕ)
    → Clean line
    → length line ≤ 62
    → read_lines (suc fuel) (line ++ 10 ∷ rest) ≡ line ∷ read_lines fuel rest
read_line [] rest fuel k h =
    read_first 10 rest [] rest fuel k (fgets-line [] rest 63 k (omega arith))
read_line (c ∷ line) rest fuel k h =
    read_first c (line ++ 10 ∷ rest) (c ∷ line) rest fuel k
      (fgets-line (c ∷ line) rest 63 k (omega arith))

-- Reading a file that was printed line by line gives the lines back, whatever the fuel above the
-- size of the file.
pub read_lines-print :
    (lines : List (List ℕ)) (fuel : ℕ)
    → Tidy lines
    → length (print_lines lines) ≤ fuel
    → read_lines fuel (print_lines lines) ≡ lines
unfolding print_lines read_lines
read_lines-print [] zero t h = refl
read_lines-print [] (suc fuel) t h = refl
read_lines-print (line ∷ lines) zero t h =
    absurd (omega (arith, length-append line (10 ∷ print_lines lines)))
read_lines-print (line ∷ lines) (suc fuel) t h =
    read_line line (print_lines lines) fuel t.0.0 t.0.1
    ∙ ap (◌∷◌ line) (
        read_lines-print lines fuel t.1
          (omega (arith, length-append line (10 ∷ print_lines lines))))

number_lines-step :
    (lines : List (List ℕ)) (index : ℕ)
    → index + suc (length lines) ≤ 256
    → number_lines ((index + 1) % 256) lines ≡ number_lines (suc index) lines
unfolding number_lines
number_lines-step [] index h = refl
number_lines-step (line ∷ lines) index h = ap (λ k. number_lines k (line ∷ lines)) (omega arith)

-- Under a key below the first one there is nothing.
table_get-below :
    (lines : List (List ℕ)) (index key : ℕ)
    → key < index
    → index + length lines ≤ 256
    → table_get key (number_lines index lines) ≡ none
unfolding table_get number_lines
table_get-below [] index key h k = refl
table_get-below (line ∷ lines) index key h k =
    rw (number_lines-step lines index k)
      (rw (table_get-below lines (suc index) key (omega arith) (omega arith)) (ground arith))

shift : (a b : ℕ) → a + suc b ≡ suc a + b
shift a b = omega arith

-- While the uint8_t key does not wrap, the line at position `i` stands under the key `index + i`.
pub table_get-number_lines :
    (lines : List (List ℕ)) (index i : ℕ)
    → index + length lines ≤ 256
    → table_get (index + i) (number_lines index lines) ≡ get_elem? lines i
unfolding table_get number_lines
table_get-number_lines [] index i h = refl
table_get-number_lines (line ∷ lines) index zero h =
    rw (number_lines-step lines index h) (
      rw (table_get-below lines (suc index) (index + 0) (omega arith) (omega arith)) (ground arith))
table_get-number_lines (line ∷ lines) index (suc i) h = rw (number_lines-step lines index h) (
    rw
      (ap (λ k. table_get k (number_lines (suc index) lines)) (shift index i)
        ∙ table_get-number_lines lines (suc index) i (omega arith))
      (ground arith))

-- A file of at most 255 lines: the line at position `i` stands under the key `i + 1`.
pub table_get-line :
    (lines : List (List ℕ)) (i : ℕ)
    → length lines ≤ 255
    → table_get (suc i) (number_lines 1 lines) ≡ get_elem? lines i
table_get-line lines i h =
    ap (λ k. table_get k (number_lines 1 lines)) (omega arith)
    ∙ table_get-number_lines lines 1 i (omega arith)

number_lines-append :
    (xs ys : List (List ℕ)) (index : ℕ)
    → index < 256
    → number_lines index (xs ++ ys)
      ≡ number_lines index xs ++ number_lines ((index + length xs) % 256) ys
unfolding number_lines
number_lines-append [] ys index h = ap (λ k. number_lines k ys) (omega arith)
number_lines-append (x ∷ xs) ys index h = ap (◌∷◌ (index, x)) (
    number_lines-append xs ys ((index + 1) % 256) (omega arith)
    ∙ ap (λ k. number_lines ((index + 1) % 256) xs ++ number_lines k ys) (omega arith))

table_get-append :
    (key : ℕ) (xs ys : List (ℕ × List ℕ)) {v : List ℕ}
    → table_get key ys ≡ some v
    → table_get key (xs ++ ys) ≡ some v
unfolding table_get
table_get-append key [] ys e = e
table_get-append key ((k, w) ∷ xs) ys e = rw (table_get-append key xs ys e) refl

-- Behind line 256 the uint8_t key starts over: a line there replaces the one 256 lines above it.
table_get-wraps :
    (first rest : List (List ℕ)) (i : ℕ) {line : List ℕ}
    → length first ≡ 256
    → length rest ≤ 255
    → get_elem? rest i ≡ some line
    → table_get (suc i) (number_lines 1 (first ++ rest)) ≡ some line
table_get-wraps first rest i n h e =
    ap (table_get (suc i)) (number_lines-append first rest 1 (omega arith))
    ∙ table_get-append (suc i) (number_lines 1 first) _ (
        ap (λ k. table_get (suc i) (number_lines k rest)) (omega arith)
        ∙ table_get-line rest i h
        ∙ e)
