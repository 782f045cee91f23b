-- ===== src/Fos/Lock/Suspension.antt =====
-- task.suspend (components/FOS/fos_task.c) of a worker that holds luaMutex.
use clios.Prelude.{ℕ, ◌≡◌, ◌≢◌, refl, ap, true, false, List, [], ◌∷◌, Option, some, arith}
use clios.Fos.Lock.{
  Place, locking, calling, Thread, worker, System, update, Move, take, Event, resume_event, Step,
  lock, unlock, enter, leave, suspend, resume, work, Steps, here, next, Reach,
}
use clios.Fos.Lock.Exclusion.{Owned, Step-Owned, Reach-Owned}

-- None of the steps resumes the worker `i`.
abbrev pub Lacks : ℕ → List Event → Type 0
Lacks i [] = Unit {0}
Lacks i (e ∷ es) = (e ≢ resume_event i) × Lacks i es

module _ (i j : ℕ) where
  -- The worker `i` is suspended in its call, and `j` waits for the mutex.
  abbrev Stuck : System → Type 0
  Stuck s = (s.suspended i ≡ true) × (s.place i ≡ calling) × (s.place j ≡ locking) × Owned s

  kept-suspended :
      (s : System) (k : ℕ) → k ≢ i → s.suspended i ≡ true → update s.suspended k false i ≡ true
  kept-suspended s k ne a = ground arith

  Move-locking :
      {m n : Option Thread} {p q : Place} (s : System) (k : ℕ)
      → Stuck s
      → Move k m p n q
      → s.owner ≡ m
      → s.place k ≡ p
      → s.suspended k ≡ false
      → (update s.place k q i ≡ calling) × (update s.place k q j ≡ locking)
  Move-locking s k h (take free) e f on = ground (arith, h.3.holds (worker i))
  Move-locking s k h mv e f on = ground arith

  Step-Stuck : {e : Event} {s t : System} → Step s e t → e ≢ resume_event i → Stuck s → Stuck t
  Step-Stuck (lock b free) ne (a, c, l, o) = (a, c, l, Step-Owned (lock b free) o)
  Step-Stuck (unlock b) ne (a, c, l, o) = (a, c, l, Step-Owned (unlock b) o)
  Step-Stuck (enter b) ne (a, c, l, o) = (a, c, l, Step-Owned (enter b) o)
  Step-Stuck leave ne (a, c, l, o) = (a, c, l, Step-Owned leave o)
  Step-Stuck {s} (suspend k) ne (a, c, l, o) = (ground arith, c, l, Step-Owned (suspend k) o)
  Step-Stuck {s} (resume k) ne (a, c, l, o) =
      (kept-suspended s k (λ e. ne (ap resume_event e)) a, c, l, Step-Owned (resume k) o)
  Step-Stuck {s} (work k on mv) ne h =
      let (c, l) = Move-locking s k h mv refl refl on in (h.0, c, l, Step-Owned (work k on mv) h.3)

  Steps-Stuck :
      {s : System} {es : List Event} {t : System} → Steps s es t → Lacks i es → Stuck s → Stuck t
  Steps-Stuck here ne h = h
  Steps-Stuck (next r st) ne h = Step-Stuck st ne.0 (Steps-Stuck r ne.1 h)

-- A worker that is suspended inside its call keeps luaMutex: until it is resumed, no step of any
-- thread, however many, lets another worker that waits for the mutex go on.
pub suspended_owner_blocks :
    {es ds : List Event} {s t : System} (i j : ℕ)
    → Reach es s
    → s.place i ≡ calling
    → s.suspended i ≡ true
    → s.place j ≡ locking
    → Steps s ds t
    → Lacks i ds
    → (t.place j ≡ locking) × (t.owner ≡ some (worker i))
suspended_owner_blocks {t} i j r c a l steps lacks =
    let h = Steps-Stuck i j steps lacks (a, c, l, Reach-Owned r) in
    (h.2, h.3.holds (worker i) (ground (arith, h)))
