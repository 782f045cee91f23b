-- ===== src/Fs/Edit.antt =====
-- `edit` of components/SYS/sys_littlefs.c on the lines of a file: what each position holds
-- afterwards, and that the result can be read back.
use clios.Prelude.{
  ℕ, zero, suc, ◌+◌, ◌-◌, ◌≤◌, ◌<◌, ◌≡◌, refl, ap, ◌∙◌, List, [], ◌∷◌, ◌++◌, Option, none, some,
  arith, ltb, ◌==◌, if◌then◌else◌, length, get_elem?, length-append, set, take, replicate,
  length-set, length-replicate,
}
use clios.Fs.{put_line, delete_line}
use clios.Fs.Lines.{Clean, Tidy}

-- What position `i` of the lines holds after `content` was put at `index`.
abbrev pub after_put : ℕ → List ℕ → List (List ℕ) → ℕ → Option (List ℕ)
after_put index content lines i =
    if i == index
    then some (take 63 content)
    else if ltb i (length lines)
    then get_elem? lines i
    else if ltb i index
    then some []
    else none

-- What it holds after the line at `index` was taken out.
abbrev pub after_delete : ℕ → List (List ℕ) → ℕ → Option (List ℕ)
after_delete index lines i = if ltb i index then get_elem? lines i else get_elem? lines (suc i)

get_elem?-set :
    (lines : List (List ℕ)) (index i : ℕ) (c : List ℕ)
    → get_elem? (set lines index c) i
      ≡ (if i == index then (if ltb i (length lines) then some c else none) else get_elem? lines i)
get_elem?-set [] index i c = ground arith
get_elem?-set (line ∷ lines) zero zero c = ground arith
get_elem?-set (line ∷ lines) zero (suc i) c = ground arith
get_elem?-set (line ∷ lines) (suc index) zero c = ground arith
get_elem?-set (line ∷ lines) (suc index) (suc i) c = ground (arith, get_elem?-set lines index i c)

get_elem?-pad :
    (lines : List (List ℕ)) (n i : ℕ)
    → get_elem? (lines ++ replicate n []) i ≡ (
        if ltb i (length lines)
        then get_elem? lines i
        else if ltb i (length lines + n)
        then some []
        else none)
get_elem?-pad [] zero i = ground arith
get_elem?-pad [] (suc n) zero = ground arith
get_elem?-pad [] (suc n) (suc i) = ground (arith, get_elem?-pad [] n i)
get_elem?-pad (line ∷ lines) n zero = ground arith
get_elem?-pad (line ∷ lines) n (suc i) = ground (arith, get_elem?-pad lines n i)

pub length-put_line :
    (index : ℕ) (content : List ℕ) (lines : List (List ℕ))
    → length (put_line index content lines) ≡ length lines + (index + 1 - length lines)
unfolding put_line
length-put_line index content lines = omega (
  arith,
  length-set (lines ++ replicate (index + 1 - length lines) []) index (take 63 content),
  length-append lines (replicate (index + 1 - length lines) []),
  length-replicate {0} {A = List ℕ} (index + 1 - length lines) [],
)

-- Each position of the result, whether the line is replaced or the file is extended to reach it.
pub get_elem?-put_line :
    (index : ℕ) (content : List ℕ) (lines : List (List ℕ)) (i : ℕ)
    → get_elem? (put_line index content lines) i ≡ after_put index content lines i
unfolding put_line
get_elem?-put_line index content lines i =
    get_elem?-set (lines ++ replicate (index + 1 - length lines) []) index i (take 63 content)
    ∙ ground (
      arith,
      get_elem?-pad lines (index + 1 - length lines) i,
      length-append lines (replicate (index + 1 - length lines) []),
      length-replicate {0} {A = List ℕ} (index + 1 - length lines) [],
    )

pub get_elem?-delete_line :
    (index : ℕ) (lines : List (List ℕ)) (i : ℕ)
    → index < length lines
    → get_elem? (delete_line index lines) i ≡ after_delete index lines i
unfolding delete_line
get_elem?-delete_line index [] i h = elim h [ ]
get_elem?-delete_line zero (line ∷ lines) i h = ground arith
get_elem?-delete_line (suc index) (line ∷ lines) zero h = ground arith
get_elem?-delete_line (suc index) (line ∷ lines) (suc i) h =
    ground (arith, get_elem?-delete_line index lines i)

pub length-delete_line :
    (index : ℕ) (lines : List (List ℕ))
    → index < length lines
    → length (delete_line index lines) + 1 ≡ length lines
unfolding delete_line
length-delete_line index [] h = elim h [ ]
length-delete_line zero (line ∷ lines) h = omega arith
length-delete_line (suc index) (line ∷ lines) h = omega (arith, length-delete_line index lines)

Tidy-set :
    (lines : List (List ℕ)) (index : ℕ) (c : List ℕ)
    → Tidy lines
    → Clean c
    → length c ≤ 62
    → Tidy (set lines index c)
Tidy-set [] index c t k h = tt
Tidy-set (line ∷ lines) zero c t k h = ((k, h), t.1)
Tidy-set (line ∷ lines) (suc index) c t k h = (t.0, Tidy-set lines index c t.1 k h)

Tidy-pad : (lines : List (List ℕ)) (n : ℕ) → Tidy lines → Tidy (lines ++ replicate n [])
Tidy-pad [] zero t = tt
Tidy-pad [] (suc n) t = ((tt, omega arith), Tidy-pad [] n tt)
Tidy-pad (line ∷ lines) n t = (t.0, Tidy-pad lines n t.1)

take-short : (n : ℕ) (s : List ℕ) → length s ≤ n → take n s ≡ s
take-short zero [] h = refl
take-short zero (c ∷ s) h = elim h [ ]
take-short (suc n) [] h = refl
take-short (suc n) (c ∷ s) h = ap (◌∷◌ c) (take-short n s (omega arith))

pub put_line-Tidy :
    (index : ℕ) (content : List ℕ) (lines : List (List ℕ))
    → Tidy lines
    → Clean content
    → length content ≤ 62
    → Tidy (put_line index content lines)
unfolding put_line
put_line-Tidy index content lines t k h = rw (take-short 63 content (omega arith)) (
    Tidy-set (lines ++ replicate (index + 1 - length lines) []) index content
      (Tidy-pad lines (index + 1 - length lines) t) k h)

pub delete_line-Tidy :
    (index : ℕ) (lines : List (List ℕ)) → Tidy lines → Tidy (delete_line index lines)
unfolding delete_line
delete_line-Tidy index [] t = tt
delete_line-Tidy zero (line ∷ lines) t = t.1
delete_line-Tidy (suc index) (line ∷ lines) t = (t.0, delete_line-Tidy index lines t.1)
