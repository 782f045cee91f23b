-- ===== src/Fs/Handlers.antt =====
-- The functions `read`, `edit` and `write` of components/SYS/sys_littlefs.c on a disk.
use mathlib.Core.Path.{subst}
use clios.Prelude.{
  ℕ, suc, ◌≤◌, ◌<◌, ◌≡◌, ◌⊎◌, refl, sym, ◌∙◌, true, inl, inr, List, [], ◌∷◌, some, arith, length,
  get_elem?, leb, ◌+◌, ◌↔◌,
}
use clios.Prelude.Int.{ℤ, to_u8}
use clios.Lua.{Slot, Value, nil, boolean, table, done, undefined, string_slot, int_slot}
use clios.Fs.{
  Disk, store, eqb, fs_read, fs_edit, fs_write, fs_remove, fs_rename, fs_size, fs_ls, call,
  Function, write, edit_lines, rewrite, number_lines, table_get, print_lines, put_line, delete_line,
  rows_fit,
}
use clios.Fs.Lines.{Clean, Tidy, c_str-Clean, read_lines-print, table_get-line}
use clios.Fs.Edit.{
  after_put, after_delete, get_elem?-put_line, get_elem?-delete_line, length-put_line,
  length-delete_line, put_line-Tidy, delete_line-Tidy,
}

pub eqb_refl : (s : List ℕ) → eqb s s ≡ true
eqb_refl [] = refl
eqb_refl (c ∷ s) = ground (arith, eqb_refl s)

-- The array of `edit` has 64 rows.
pub rows_fit-leb :
    (count : ℕ) (lines : List (List ℕ))
    → count ≤ 64
    → rows_fit count lines ≡ leb (count + length lines) 64
unfolding rows_fit
rows_fit-leb count [] h = ground arith
rows_fit-leb count (line ∷ lines) h = ground (arith, rows_fit-leb (count + 1) lines)

-- A file that holds the lines, each ended by a newline.
abbrev pub Holds : Disk → List ℕ → List (List ℕ) → Type 0
Holds d f lines = d.content f ≡ some (print_lines lines)

pub store-Holds :
    (d : Disk) (f : List ℕ) (lines : List (List ℕ))
    → Holds (store d f (some (print_lines lines))) f lines
store-Holds d f lines = rw (eqb_refl f) refl

-- `read` gives a table that holds the line at position `i` under the key `i + 1`.
fs_read-lines :
    (d : Disk) (f : List ℕ) (lines : List (List ℕ))
    → Clean f
    → Holds d f lines
    → Tidy lines
    → fs_read (string_slot f ∷ []) d ≡ done (table (number_lines 1 lines) ∷ []) d
unfolding fs_read
fs_read-lines d f lines k h t =
    ground (arith, c_str-Clean f k, read_lines-print lines (length (print_lines lines)) t)

fs_edit-lines :
    (d : Disk) (f content : List ℕ) (index : ℤ) (lines : List (List ℕ))
    → Clean f
    → Clean content
    → Holds d f lines
    → Tidy lines
    → length lines ≤ 64
    → 1 ≤ to_u8 index
    → to_u8 index ≤ 64
    → fs_edit (string_slot f ∷ int_slot index ∷ string_slot content ∷ []) d
      ≡ edit_lines f (to_u8 index) content lines d
unfolding fs_edit
fs_edit-lines d f content index lines k kc h t n lo hi = ground (
  arith,
  c_str-Clean f k,
  c_str-Clean content kc,
  read_lines-print lines (length (print_lines lines)) t,
  rows_fit-leb 0 lines (omega arith),
)

-- The disk after a successful rewrite, and what `read` then gives.
rewrite-read :
    (d : Disk) (f : List ℕ) (lines : List (List ℕ))
    → Clean f
    → Tidy lines
    → d.writable f ≡ true
    → let d' = store d f (some (print_lines lines)) in
      (rewrite f lines d ≡ done (boolean true ∷ []) d')
      × (fs_read (string_slot f ∷ []) d' ≡ done (table (number_lines 1 lines) ∷ []) d')
unfolding rewrite
rewrite-read d f lines k t w = (rw w refl, fs_read-lines _ f lines k (store-Holds d f lines) t)

module _ (d : Disk) (f content : List ℕ) (index : ℤ) (lines : List (List ℕ)) (kf : Clean f)
    (kc : Clean content) (h : Holds d f lines) (t : Tidy lines) (n : length lines ≤ 64)
    (w : d.writable f ≡ true) (lo : 1 ≤ to_u8 index) (hi : to_u8 index ≤ 63) where
  -- On a file of short lines, `edit` with a content puts it at position `index`, counted from 0,
  -- fills the gap behind the last line by empty lines, and leaves the other lines alone: `read` finds
  -- the content under the key `index + 1`. The index is taken modulo 256.
  pub edit_then_read :
      0 < length content
      → length content ≤ 62
      → (d' : Disk) × (entries : List (ℕ × List ℕ)) × (fs_edit
            (string_slot f ∷ int_slot index ∷ string_slot content ∷ [])
            d
          ≡ done (boolean true ∷ []) d')
        × (fs_read (string_slot f ∷ []) d' ≡ done (table entries ∷ []) d')
        × ((i : ℕ) → table_get (suc i) entries ≡ after_put (to_u8 index) content lines i)
  unfolding edit_lines
  edit_then_read full short =
      let lines' = put_line (to_u8 index) content lines in
      let (edited, read) =
        rewrite-read d f lines' kf (put_line-Tidy (to_u8 index) content lines t kc short) w in
      (
        store d f (some (print_lines lines')),
        number_lines 1 lines',
        fs_edit-lines d f content index lines kf kc h t n lo (omega arith) ∙ ground arith,
        read,
        λ i.
            table_get-line lines' i (omega (arith, length-put_line (to_u8 index) content lines))
            ∙ get_elem?-put_line (to_u8 index) content lines i,
      )

  -- With an empty content it takes the line at that position out, and those behind it move up.
  pub delete_then_read :
      length content ≡ 0
      → to_u8 index < length lines
      → (d' : Disk) × (entries : List (ℕ × List ℕ)) × (fs_edit
            (string_slot f ∷ int_slot index ∷ string_slot content ∷ [])
            d
          ≡ done (boolean true ∷ []) d')
        × (fs_read (string_slot f ∷ []) d' ≡ done (table entries ∷ []) d')
        × ((i : ℕ) → table_get (suc i) entries ≡ after_delete (to_u8 index) lines i)
  unfolding edit_lines
  delete_then_read empty there =
      let lines' = delete_line (to_u8 index) lines in
      let (edited, read) = rewrite-read d f lines' kf (delete_line-Tidy (to_u8 index) lines t) w in
      (
        store d f (some (print_lines lines')),
        number_lines 1 lines',
        fs_edit-lines d f content index lines kf kc h t n lo (omega arith) ∙ ground arith,
        read,
        λ i.
            table_get-line lines' i (omega (arith, length-delete_line (to_u8 index) lines there))
            ∙ get_elem?-delete_line (to_u8 index) lines i there,
      )

  first_line_put :
      0 < length content
      → length content ≤ 62
      → 1 ≤ length lines
      → (d' : Disk) × (entries : List (ℕ × List ℕ)) × (fs_edit
            (string_slot f ∷ int_slot index ∷ string_slot content ∷ [])
            d
          ≡ done (boolean true ∷ []) d')
        × (fs_read (string_slot f ∷ []) d' ≡ done (table entries ∷ []) d')
        × (table_get 1 entries ≡ get_elem? lines 0)
  first_line_put full short any =
      let (d', entries, e, r, g) = edit_then_read full short in
      (d', entries, e, r, g 0 ∙ ground arith)

  first_line_deleted :
      length content ≡ 0
      → to_u8 index < length lines
      → (d' : Disk) × (entries : List (ℕ × List ℕ)) × (fs_edit
            (string_slot f ∷ int_slot index ∷ string_slot content ∷ [])
            d
          ≡ done (boolean true ∷ []) d')
        × (fs_read (string_slot f ∷ []) d' ≡ done (table entries ∷ []) d')
        × (table_get 1 entries ≡ get_elem? lines 0)
  first_line_deleted empty there =
      let (d', entries, e, r, g) = delete_then_read empty there in
      (d', entries, e, r, g 0 ∙ ground arith)

-- What an edit needs to succeed.
edit_range :
    (d : Disk) (f content : List ℕ) (index : ℤ) {d' : Disk}
    → fs_edit (string_slot f ∷ int_slot index ∷ string_slot content ∷ []) d
      ≡ done (boolean true ∷ []) d'
    → (1 ≤ to_u8 index) × (to_u8 index ≤ 64)
unfolding fs_edit
edit_range d f content index e = ground arith

edit_lines_range :
    (d : Disk) (f content : List ℕ) (index : ℕ) (lines : List (List ℕ)) {d' : Disk}
    → length lines ≤ 64
    → edit_lines f index content lines d ≡ done (boolean true ∷ []) d'
    → (index ≤ 63) × ((0 < length content) ⊎ ((length content ≡ 0) × (index < length lines)))
unfolding edit_lines
edit_lines_range d f content index lines n e = ground arith

module _ (d : Disk) (f content : List ℕ) (index : ℤ) (lines : List (List ℕ)) (kf : Clean f)
    (kc : Clean content) (h : Holds d f lines) (t : Tidy lines) (n : length lines ≤ 64)
    (w : d.writable f ≡ true) {d' : Disk}
    (e : fs_edit (string_slot f ∷ int_slot index ∷ string_slot content ∷ []) d
      ≡ done (boolean true ∷ []) d') where
  range : (1 ≤ to_u8 index) × (to_u8 index ≤ 64)
  range = edit_range d f content index e

  inner : edit_lines f (to_u8 index) content lines d ≡ done (boolean true ∷ []) d'
  inner = sym (fs_edit-lines d f content index lines kf kc h t n range.0 range.1) ∙ e

  -- An edit that succeeds on a writable file of at most 64 short lines leaves the line that `read`
  -- shows under the key 1 as it was: no index reaches the first line.
  edit_keeps_first_line :
      1 ≤ length lines
      → length content ≤ 62
      → (entries : List (ℕ × List ℕ)) × (fs_read (string_slot f ∷ []) d'
          ≡ done (table entries ∷ []) d')
        × (table_get 1 entries ≡ get_elem? lines 0)
  edit_keeps_first_line any short =
      let (hi, cases) = edit_lines_range d f content (to_u8 index) lines n inner in
      elim cases [
        | inl full ↦
            let (u, entries, e', r, g) =
              first_line_put d f content index lines kf kc h t n w range.0 hi full short any in
            let same : u ≡ d' = cc (e, e') in
            (
              entries,
              subst (λ x. fs_read (string_slot f ∷ []) x ≡ done (table entries ∷ []) x) same r,
              g,
            )
        | inr (empty, there) ↦
            let (u, entries, e', r, g) =
              first_line_deleted d f content index lines kf kc h t n w range.0 hi empty there in
            let same : u ≡ d' = cc (e, e') in
            (
              entries,
              subst (λ x. fs_read (string_slot f ∷ []) x ≡ done (table entries ∷ []) x) same r,
              g,
            )
      ]

-- A call of the library that answers nil and a reason has changed nothing on the disk.
pub fs_failure_unchanged :
    (f : Function) (args : List Slot) (d : Disk) (reason : List Value) {d' : Disk}
    → call f args d ≡ done (nil ∷ reason) d'
    → d' ≡ d
unfolding call fs_write fs_read fs_edit edit_lines rewrite fs_remove fs_rename fs_size fs_ls
fs_failure_unchanged write args d reason e = ground arith
fs_failure_unchanged _ args d reason e = ground arith

-- On a file of short lines and at an index from 1 to 64, `edit` writes behind its array of 64 lines
-- exactly when the file has more than 64 lines, or a content is to be put at index 64.
pub edit_overruns :
    (d : Disk) (f content : List ℕ) (index : ℤ) (lines : List (List ℕ))
    → Clean f
    → Clean content
    → Holds d f lines
    → Tidy lines
    → 1 ≤ to_u8 index
    → to_u8 index ≤ 64
    → (fs_edit (string_slot f ∷ int_slot index ∷ string_slot content ∷ []) d ≡ undefined)
      ↔ (((to_u8 index ≡ 64) × (0 < length content)) ⊎ (64 < length lines))
unfolding fs_edit edit_lines rewrite
edit_overruns d f content index lines k kc h t lo hi = ground (
  arith,
  c_str-Clean f k,
  c_str-Clean content kc,
  read_lines-print lines (length (print_lines lines)) t,
  rows_fit-leb 0 lines (omega arith),
)
