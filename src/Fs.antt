-- ===== src/Fs.antt =====
-- The Lua library `fs`, components/SYS/sys_littlefs.c, over the C library's files.
pub mod Lines
pub mod Edit
pub mod Handlers
pub mod Pieces
use clios.Prelude.{
  codes, ℕ, zero, suc, ◌+◌, ◌-◌, ◌%◌, Bool, true, false, ◌&&◌, ◌||◌, not, List, [], ◌∷◌, ◌++◌,
  Option, none, some, ltb, leb, ◌==◌, if◌then◌else◌, length, set, take, replicate, c_str,
}
use clios.Prelude.Int.{ℤ, pos, negsuc, to_u8}
use clios.Lua.{
  Slot, Value, nil, boolean, integer, string, table, Fault, Outcome, done, raised, aborted,
  undefined, M, ◌>>=◌, ◌>>◌, pure, get, put, modify, undefined_access, check_string, opt_string,
  check_integer, slot,
}

abbrev pub char_buffer_size : ℕ
char_buffer_size = 64

-- strcmp (a, b) == 0.
abbrev pub eqb : List ℕ → List ℕ → Bool
eqb [] [] = true
eqb [] (b ∷ bs) = false
eqb (a ∷ as') [] = false
eqb (a ∷ as') (b ∷ bs) = a == b && eqb as' bs

-- The file system: what each file holds, the names that a directory lists, the st_size that stat gives
-- for a directory, and whether opening a file for writing, removing it or renaming it succeeds.
pub record Disk : Type 0 where
  pub content : List ℕ → Option (List ℕ)
  pub entries : List ℕ → Option (List (List ℕ))
  pub directory_size : List ℕ → ℕ
  pub writable : List ℕ → Bool
  pub removable : List ℕ → Bool
  pub renamable : List ℕ → List ℕ → Bool

abbrev pub store : Disk → List ℕ → Option (List ℕ) → Disk
store d name bytes = record d { content = λ n. if eqb name n then bytes else d.content n }

abbrev pub failure : List ℕ → List Value
failure reason = nil ∷ string reason ∷ []

-- What a file holds, or nothing where there is none.
abbrev pub bytes_or_empty : Option (List ℕ) → List ℕ
bytes_or_empty none = []
bytes_or_empty (some bytes) = bytes

-- L_FS_WRITE: append to the file, which fopen creates.
unfoldable pub fs_write : List Slot → M Disk (List Value)
fs_write args = do
  filename ← check_string args 1
  content ← opt_string args 2 []
  d ← get
  let reply = boolean (ltb 0 (length content)) ∷ []
  if d.writable filename
      then (put (store d filename (some (bytes_or_empty (d.content filename) ++ content)))
          >> pure reply)
      else pure (failure (codes "failed to open file: " ++ filename))

-- fgets with room for `n` bytes before the NUL: the bytes that it stores and those that are left.
unfoldable pub fgets : ℕ → List ℕ → List ℕ × List ℕ
fgets zero s = ([], s)
fgets (suc n) [] = ([], [])
fgets (suc n) (c ∷ s) =
    if c == 10 then (10 ∷ [], s) else (let (piece, rest) = fgets n s in (c ∷ piece, rest))

-- `if (len && buf[len-1] == '\n') buf[len-1] = '\0'`.
unfoldable pub trim : List ℕ → List ℕ
trim [] = []
trim (c ∷ []) = if c == 10 then [] else c ∷ []
trim (c ∷ d ∷ s) = c ∷ trim (d ∷ s)

-- The strings that the loop `while (fgets(buf, 64, f))` sees; the fuel bounds the number of its
-- rounds, each of which takes a byte or more.
unfoldable pub read_lines : ℕ → List ℕ → List (List ℕ)
read_lines zero s = []
read_lines (suc fuel) [] = []
read_lines (suc fuel) (c ∷ s) = let r = fgets 63 (c ∷ s) in trim (c_str r.0) ∷ read_lines fuel r.1

-- The loop of L_FS_READ: settable with an uint8_t key that grows by one.
unfoldable pub number_lines : ℕ → List (List ℕ) → List (ℕ × List ℕ)
number_lines index [] = []
number_lines index (line ∷ lines) = (index, line) ∷ number_lines ((index + 1) % 256) lines

-- What a table holds under a key: of two entries the later one.
unfoldable pub table_get : ℕ → List (ℕ × List ℕ) → Option (List ℕ)
table_get key [] = none
table_get key ((k, v) ∷ entries) = elim (table_get key entries) [
  | none ↦ if k == key then some v else none
  | some w ↦ some w
]

-- L_FS_READ: a table of the file's lines.
unfoldable pub fs_read : List Slot → M Disk (List Value)
fs_read args = do
  filename ← check_string args 1
  d ← get
  elim (d.content filename) [
    | none ↦ pure (failure (codes "file not found"))
    | some bytes ↦ pure (table (number_lines 1 (read_lines (length bytes) bytes)) ∷ [])
  ]

-- `for (i = index; i < count-1; i++) strcpy(lines[i], lines[i+1]); count--`.
unfoldable pub delete_line : ℕ → List (List ℕ) → List (List ℕ)
delete_line index [] = []
delete_line zero (line ∷ lines) = lines
delete_line (suc index) (line ∷ lines) = line ∷ delete_line index lines

-- Lines up to `index` that are not there yet are made empty, and `index` gets the first 63 bytes of
-- the content.
unfoldable pub put_line : ℕ → List ℕ → List (List ℕ) → List (List ℕ)
put_line index content lines =
    set (lines ++ replicate (index + 1 - length lines) []) index (take 63 content)

-- The loop of fprintf (f, "%s\n", line).
unfoldable pub print_lines : List (List ℕ) → List ℕ
print_lines [] = []
print_lines (line ∷ lines) = line ++ 10 ∷ print_lines lines

-- The second fopen of L_FS_EDIT, which truncates the file, and the loop that writes it.
unfoldable pub rewrite : List ℕ → List (List ℕ) → M Disk (List Value)
rewrite filename lines = do
  d ← get
  if d.writable filename
      then (put (store d filename (some (print_lines lines))) >> pure (boolean true ∷ []))
      else pure (failure (codes "failed to open file for write"))

-- Whether C defines a write to lines[i], a row of an array of 64.
abbrev pub is_row : ℕ → Bool
is_row i = ltb i char_buffer_size

-- Whether the first loop of L_FS_EDIT stays in its array: from `count` on, fgets stores one row for
-- each line, also the line behind which the test of `count` ends the loop.
unfoldable pub rows_fit : ℕ → List (List ℕ) → Bool
rows_fit count [] = true
rows_fit count (line ∷ lines) = is_row count && rows_fit (count + 1) lines

-- L_FS_EDIT between the two loops: `lines` are the `count` lines read. Of the rows that are written
-- for a content, lines[index] is the last.
unfoldable pub edit_lines : List ℕ → ℕ → List ℕ → List (List ℕ) → M Disk (List Value)
edit_lines filename index content lines =
    if length content == 0
    then (if leb (length lines) index
        then pure (failure (codes "index out of range for delete"))
        else rewrite filename (delete_line index lines))
    else if is_row index
    then rewrite filename (put_line index content lines)
    else undefined_access

-- L_FS_EDIT.
unfoldable pub fs_edit : List Slot → M Disk (List Value)
fs_edit args = do
  filename ← check_string args 1
  number ← check_integer args 2
  content ← check_string args 3
  let index = to_u8 number
  d ← get
  if index == 0 || ltb char_buffer_size index
      then pure (failure (codes "index out of range"))
      else (elim (d.content filename) [
        | none ↦ pure (failure (codes "failed to open file for read"))
        | some bytes ↦
            let lines = read_lines (length bytes) bytes in
            if rows_fit 0 lines then edit_lines filename index content lines else undefined_access
      ])

-- L_FS_REMOVE.
unfoldable pub fs_remove : List Slot → M Disk (List Value)
fs_remove args = do
  filename ← check_string args 1
  d ← get
  if d.removable filename
      then (put (store d filename none) >> pure (boolean true ∷ []))
      else pure (failure (codes "failed to remove file"))

-- L_FS_RENAME.
unfoldable pub fs_rename : List Slot → M Disk (List Value)
fs_rename args = do
  oldname ← check_string args 1
  newname ← check_string args 2
  d ← get
  if d.renamable oldname newname
      then (put (store (store d oldname none) newname (d.content oldname))
          >> pure (boolean true ∷ []))
      else pure (failure (codes "failed to rename file"))

-- What stat finds under a name: the size of a file, or that of a directory.
abbrev pub stat_size : Disk → List ℕ → Option ℕ
stat_size d name = elim (d.content name) [
  | some bytes ↦ some (length bytes)
  | none ↦ elim (d.entries name) [ some names ↦ some (d.directory_size name) | none ↦ none ]
]

-- L_FS_SIZE.
unfoldable pub fs_size : List Slot → M Disk (List Value)
fs_size args = do
  filename ← check_string args 1
  d ← get
  elim (stat_size d filename) [
    | none ↦ pure (failure (codes "failed to stat file: " ++ filename))
    | some size ↦ pure (integer (pos size) ∷ [])
  ]

-- L_FS_LS: the counter `i` is an uint8_t too.
unfoldable pub fs_ls : List Slot → M Disk (List Value)
fs_ls args = do
  path ← (if leb 1 (length args) then check_string args 1 else pure (codes "/home"))
  d ← get
  elim (d.entries path) [
    | none ↦ pure (failure (codes "Directory not found: " ++ path))
    | some names ↦ pure (table (number_lines 1 names) ∷ [])
  ]

-- FS_LIB: the names under which Lua finds the functions.
pub data Function : Type 0 where
  write read edit remove rename size ls : Function

unfoldable pub call : Function → List Slot → M Disk (List Value)
call write = fs_write
call read = fs_read
call edit = fs_edit
call remove = fs_remove
call rename = fs_rename
call size = fs_size
call ls = fs_ls
