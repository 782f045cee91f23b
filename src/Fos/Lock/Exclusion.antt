-- ===== src/Fos/Lock/Exclusion.antt =====
-- luaMutex (main/Core_Level.c, components/FOS/fos_task.c): who is kept apart by it, and who is not.
use clios.Prelude.{
  ℕ, ◌≡◌, refl, sym, ap, ◌∙◌, Bool, true, false, List, ◌∷◌, Option, none, some, arith,
}
use clios.Fos.Lock.{
  Main, starting, booting, started, Place, idle, testing, locking, calling, delaying, freeing,
  ended, Thread, main, worker, System, update, init, Move, take, Event, lua_event, Step, lock,
  unlock, enter, leave, suspend, resume, work, here, next, Reach,
}

abbrev is_booting : Main → Bool
is_booting starting = false
is_booting booting = true
is_booting started = false

abbrev is_calling : Place → Bool
is_calling calling = true
is_calling idle = false
is_calling testing = false
is_calling locking = false
is_calling delaying = false
is_calling freeing = false
is_calling ended = false

-- A thread runs Lua code between its xSemaphoreTake and its xSemaphoreGive.
abbrev pub critical : System → Thread → Bool
critical s main = is_booting s.boot
critical s (worker i) = is_calling (s.place i)

-- The holder of the mutex is exactly the thread that is critical.
pub record Owned (s : System) : Type 0 where
  pub holds : (x : Thread) → critical s x ≡ true → s.owner ≡ some x
  pub runs : (x : Thread) → s.owner ≡ some x → critical s x ≡ true

abbrev moved : System → ℕ → Option Thread → Place → System
moved s i m p = record s { owner = m; place = update s.place i p }

module _ (s : System) (o : Owned s) (i : ℕ) where
  Move-holds :
      {m n : Option Thread} {p q : Place} (x : Thread)
      → Move i m p n q
      → s.owner ≡ m
      → s.place i ≡ p
      → critical (moved s i n q) x ≡ true
      → n ≡ some x
  Move-holds main (take free) e f h = ground (arith, o.holds main)
  Move-holds main mv e f h = ground (arith, o.holds main, o.holds (worker i))
  Move-holds (worker j) (take free) e f h = ground (arith, o.holds (worker j))
  Move-holds (worker j) mv e f h = ground (arith, o.holds (worker j), o.holds (worker i))

  Move-runs :
      {m n : Option Thread} {p q : Place} (x : Thread)
      → Move i m p n q
      → s.owner ≡ m
      → s.place i ≡ p
      → n ≡ some x
      → critical (moved s i n q) x ≡ true
  Move-runs main (take free) e f h = ground (arith, o.runs main)
  Move-runs main mv e f h = ground (arith, o.runs main)
  Move-runs (worker j) (take free) e f h = ground (arith, o.runs (worker j))
  Move-runs (worker j) mv e f h = ground (arith, o.runs (worker j), o.runs (worker i))

same-critical :
    (s t : System)
    → t.boot ≡ s.boot
    → t.place ≡ s.place
    → (x : Thread) → critical t x ≡ critical s x
same-critical s t f g main = ap is_booting f
same-critical s t f g (worker i) = ap (λ place. is_calling (place i)) g

module _ (s : System) (o : Owned s) where
  lock-holds :
      (x : Thread)
      → s.owner ≡ none
      → critical (record s { owner = some main; boot = booting }) x ≡ true
      → some main ≡ some x
  lock-holds main free h = refl
  lock-holds (worker i) free h = ground (arith, o.holds (worker i))

  lock-runs :
      (x : Thread)
      → some main ≡ some x
      → critical (record s { owner = some main; boot = booting }) x ≡ true
  lock-runs main e = refl
  lock-runs (worker i) e = cc

  unlock-holds :
      (x : Thread)
      → s.boot ≡ booting
      → critical (record s { owner = none; boot = started }) x ≡ true
      → none ≡ some x
  unlock-holds main b h = cc
  unlock-holds (worker i) b h = ground (arith, o.holds (worker i), o.holds main)

-- A step that changes neither the mutex nor a place.
same-Owned :
    (s t : System) → t.owner ≡ s.owner → t.boot ≡ s.boot → t.place ≡ s.place → Owned s → Owned t
same-Owned s t e f g o = record {
  holds = λ x h. e ∙ o.holds x (sym (same-critical s t f g x) ∙ h);
  runs = λ x h. same-critical s t f g x ∙ o.runs x (sym e ∙ h);
}

pub Step-Owned : {e : Event} {s t : System} → Step s e t → Owned s → Owned t
Step-Owned {s} (lock b free) o = record {
  holds = λ x h. lock-holds s o x free h;
  runs = λ x h. lock-runs s o x h;
}
Step-Owned {s} (unlock b) o = record { holds = λ x h. unlock-holds s o x b h; runs = λ x h. cc }
Step-Owned {s} {t} (enter b) o = same-Owned s t refl refl refl o
Step-Owned {s} {t} leave o = same-Owned s t refl refl refl o
Step-Owned {s} {t} (suspend i) o = same-Owned s t refl refl refl o
Step-Owned {s} {t} (resume i) o = same-Owned s t refl refl refl o
Step-Owned {s} (work i on mv) o = record {
  holds = λ x h. Move-holds s o i x mv refl refl h;
  runs = λ x h. Move-runs s o i x mv refl refl h;
}

init-Owned : Owned init
init-Owned = record { holds = init-holds; runs = λ x h. cc }
  where
    init-holds : (x : Thread) → critical init x ≡ true → none ≡ some x
    init-holds main h = cc
    init-holds (worker i) h = cc

pub Reach-Owned : {es : List Event} {s : System} → Reach es s → Owned s
Reach-Owned here = init-Owned
Reach-Owned (next r st) = Step-Owned st (Reach-Owned r)

-- In every reachable state, at most one of app_main and the workers is between its take and its give
-- of luaMutex, and this one is its holder.
pub mutual_exclusion :
    {es : List Event} {s : System} (x y : Thread)
    → Reach es s
    → critical s x ≡ true
    → critical s y ≡ true
    → (x ≡ y) × (s.owner ≡ some x)
mutual_exclusion x y r in_x in_y = let o = Reach-Owned r in ground (arith, o.holds x, o.holds y)

-- The Lua task is not kept apart: from each reachable state after the start in which a worker is in
-- its call, one step takes _HandleLuaCommand into Lua beside it.
lua_beside_worker :
    {es : List Event} {s : System} (i : ℕ)
    → Reach es s
    → s.boot ≡ started
    → s.place i ≡ calling
    → (t : System) × Reach (lua_event ∷ es) t
      × (t.lua ≡ true)
      × (t.place i ≡ calling)
      × (t.owner ≡ some (worker i))
lua_beside_worker {s} i r b e = (
  record s { lua = true },
  next r (enter b),
  refl,
  e,
  (Reach-Owned r).holds (worker i) (ap is_calling e),
)
