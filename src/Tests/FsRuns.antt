-- ===== src/Tests/FsRuns.antt =====
-- The library `fs` (components/SYS/sys_littlefs.c) on a disk with one file.
use clios.Prelude.{
  length, ◌⊎◌, ◌<◌, ◌↔◌, codes, ℕ, suc, ◌≡◌, refl, true, List, [], ◌∷◌, ◌++◌, none, some, arith,
  if◌then◌else◌, replicate, get_elem?,
}
use clios.Prelude.Int.{pos, negsuc}
use clios.Lua.{boolean, table, string, done, undefined, string_slot, int_slot}
use clios.Fs.{
  put_line, fs_write, Disk, store, eqb, fs_read, fs_edit, read_lines, print_lines, table_get, call,
  edit,
}
use clios.Fs.Lines.{Clean, Tidy, read_lines-print}
use clios.Fs.Pieces.{CleanLines, pieces, all_pieces, write_then_read, edit_splits_lines}
use clios.Fs.Edit.{after_put, after_delete}
use clios.Fs.Handlers.{edit_then_read, delete_then_read, fs_failure_unchanged, edit_overruns}

abbrev name : List ℕ
name = codes "/home/a"

abbrev three : List (List ℕ)
three = codes "one" ∷ codes "two" ∷ codes "three" ∷ []

-- A disk whose only file holds the lines, and on which every operation succeeds.
abbrev disk : List (List ℕ) → Disk
disk lines = record {
  content = λ n. if eqb n name then some (print_lines lines) else none;
  entries = λ n. none;
  directory_size = λ n. 0;
  writable = λ n. true;
  removable = λ n. true;
  renamable = λ n m. true;
}

name-Clean : Clean name
name-Clean = ground arith

x-Clean : Clean (codes "x")
x-Clean = ground arith

three-Tidy : Tidy three
three-Tidy = ground arith

edit_then_read_example :
    (d' : Disk) × (entries : List (ℕ × List ℕ)) × (fs_edit
        (string_slot name ∷ int_slot (pos 5) ∷ string_slot (codes "x") ∷ [])
        (disk three)
      ≡ done (boolean true ∷ []) d')
    × (fs_read (string_slot name ∷ []) d' ≡ done (table entries ∷ []) d')
    × ((i : ℕ) → table_get (suc i) entries ≡ after_put 5 (codes "x") three i)
edit_then_read_example =
    edit_then_read (disk three) name (codes "x") (pos 5) three name-Clean x-Clean refl three-Tidy
      (omega arith) refl (omega arith) (omega arith) (omega arith) (omega arith)

-- The index -255 is 1 in an uint8_t.
delete_then_read_example :
    (d' : Disk) × (entries : List (ℕ × List ℕ)) × (fs_edit
        (string_slot name ∷ int_slot (negsuc 254) ∷ string_slot [] ∷ [])
        (disk three)
      ≡ done (boolean true ∷ []) d')
    × (fs_read (string_slot name ∷ []) d' ≡ done (table entries ∷ []) d')
    × ((i : ℕ) → table_get (suc i) entries ≡ after_delete 1 three i)
delete_then_read_example =
    delete_then_read (disk three) name [] (negsuc 254) three name-Clean tt refl three-Tidy
      (omega arith) refl (omega arith) (omega arith) refl (omega arith)

-- The disk after "x" was put at index 1.
abbrev edited : Disk
edited =
    store (disk three) name (some (codes "one" ++ 10 ∷ codes "x" ++ 10 ∷ codes "three" ++ 10 ∷ []))

fs_failure_unchanged_example : disk three ≡ disk three
unfolding call fs_edit
fs_failure_unchanged_example =
    fs_failure_unchanged edit (string_slot name ∷ int_slot (pos 0) ∷ string_slot [] ∷ [])
      (disk three) (string (codes "index out of range") ∷ []) {d' = disk three} refl

edit_overruns_example :
    (fs_edit (string_slot name ∷ int_slot (pos 64) ∷ string_slot (codes "x") ∷ []) (disk three)
      ≡ undefined)
    ↔ (((◌≡◌ {A = ℕ} 64 64) × (0 < length (codes "x"))) ⊎ (64 < length three))
edit_overruns_example =
    edit_overruns (disk three) name (codes "x") (pos 64) three name-Clean x-Clean refl three-Tidy
      (omega arith) (omega arith)

read_lines-print_example : read_lines 50 (print_lines three) ≡ three
unfolding print_lines
read_lines-print_example = read_lines-print three 50 three-Tidy (omega arith)

-- A line of 64 bytes, which is read in two pieces, is appended to the three.
abbrev wide : List ℕ
wide = replicate 64 b'w'

wide-Clean : Clean wide
wide-Clean = ground arith

y-Clean : Clean (codes "y")
y-Clean = ground arith

three-CleanLines : CleanLines three
three-CleanLines = ground arith

write_then_read_example :
    (d' : Disk) × (entries : List (ℕ × List ℕ)) × (fs_write
        (string_slot name ∷ string_slot (wide ++ 10 ∷ []) ∷ [])
        (disk three)
      ≡ done (boolean true ∷ []) d')
    × (fs_read (string_slot name ∷ []) d' ≡ done (table entries ∷ []) d')
    × ((i : ℕ)
        → table_get (suc i) entries ≡ get_elem? (three ++ replicate 63 b'w' ∷ codes "w" ∷ []) i)
unfolding all_pieces pieces print_lines
write_then_read_example =
    write_then_read (disk three) name three (wide ∷ []) name-Clean three-CleanLines (wide-Clean, tt)
      refl refl (omega arith)

edit_splits_lines_example :
    fs_edit
      (string_slot name ∷ int_slot (pos 1) ∷ string_slot (codes "x") ∷ [])
      (disk (wide ∷ codes "y" ∷ []))
    ≡ done (boolean true ∷ []) (
        store
          (disk (wide ∷ codes "y" ∷ []))
          name
          (some (print_lines (replicate 63 b'w' ∷ codes "x" ∷ codes "y" ∷ []))))
unfolding all_pieces pieces put_line
edit_splits_lines_example =
    edit_splits_lines (disk (wide ∷ codes "y" ∷ [])) name (codes "x") (pos 1)
      (wide ∷ codes "y" ∷ []) name-Clean x-Clean (wide-Clean, (y-Clean, tt)) refl refl (omega arith)
      (omega arith) (omega arith) (omega arith)
