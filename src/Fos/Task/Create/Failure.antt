-- ===== src/Fos/Task/Create/Failure.antt =====
-- The error path of L_TASK_CREATE, components/FOS/fos_task.c.
use clios.Prelude.{◌≡◌, refl, ◌∙◌, ap, false, List, [], ◌∷◌, ◌++◌}
use clios.Prelude.Int.{ℤ, pos, eqb_ℤ}
use clios.Lua.{◌>>◌}
use clios.Driver.{Arg, Call, malloc, free, driver, World, Machine, after, is_null}
use clios.Driver.Memory.{live, live-snoc, remove, update, remove_same, Allocates}
use clios.Fos.Task.Create.{Tasks, take_ref, make_task, create_worker}

-- FreeRTOS creates no task.
abbrev pub CreatesNothing : World → Type 0
CreatesNothing w =
    (cs : List Call) (xs : List Arg) → eqb_ℤ (w.answer cs (driver "xTaskCreate" xs)) (pos 1) ≡ false

-- Three calls of functions between the allocation of a block and its release.
live_between :
    (w : World) (cs : List Call) (n : ℤ) (f g h : Call)
    → ((r : ℤ) (ps : List ℤ) → update f r ps ≡ ps)
    → ((r : ℤ) (ps : List ℤ) → update g r ps ≡ ps)
    → ((r : ℤ) (ps : List ℤ) → update h r ps ≡ ps)
    → is_null (w.answer cs (malloc n)) ≡ false
    → live w (
        ((((cs ++ malloc n ∷ []) ++ f ∷ []) ++ g ∷ []) ++ h ∷ [])
        ++ free (w.answer cs (malloc n)) ∷ [])
      ≡ live w cs
live_between w cs n f g h a b c e =
    live-snoc w ((((cs ++ malloc n ∷ []) ++ f ∷ []) ++ g ∷ []) ++ h ∷ [])
      (free (w.answer cs (malloc n)))
    ∙ ap (remove (w.answer cs (malloc n))) {y = w.answer cs (malloc n) ∷ live w cs} (
        live-snoc w (((cs ++ malloc n ∷ []) ++ f ∷ []) ++ g ∷ []) h
        ∙ c _ _
        ∙ live-snoc w ((cs ++ malloc n ∷ []) ++ f ∷ []) g
        ∙ b _ _
        ∙ live-snoc w (cs ++ malloc n ∷ []) f
        ∙ a _ _
        ∙ live-snoc w cs (malloc n)
        ∙ rw (e) refl)
    ∙ remove_same (w.answer cs (malloc n)) (live w cs)

-- Where malloc succeeds and FreeRTOS creates no task, `task.create` on good arguments frees its record,
-- but the registry keeps the reference to the function, which no handle can release.
create_failure :
    (w : World) (timer : ℤ) (config : List Arg) (s : Machine Tasks)
    → Allocates w
    → CreatesNothing w
    → ((after s ((take_ref w >> make_task w timer config) s)).own.refs
        ≡ w.answer s.trace (driver "luaL_ref" []) ∷ s.own.refs)
      × (live w (after s ((take_ref w >> make_task w timer config) s)).trace ≡ live w s.trace)
unfolding take_ref make_task create_worker
create_failure w timer config s a n = (
  rw (a, n) refl,
  rw (a, n)
      (live_between w (s.trace ++ driver "luaL_ref" [] ∷ []) (pos 24) _ _ _ (λ r ps. refl)
          (λ r ps. refl) (λ r ps. refl) (a _ _)
        ∙ live-snoc w s.trace (driver "luaL_ref" [])),
)
