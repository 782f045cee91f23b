-- ===== src/Net/Setup/Startup.antt =====
-- Who sets the network up: `net.init` of components/NET/net_net.c after the start of the library
-- `wifi`, components/NET/net_wifi.c.
use clios.Prelude.{◌≡◌, refl, ◌∙◌, ap, false, ◌||◌, List, [], ◌∷◌, ◌++◌, append_assoc}
use clios.Prelude.Int.{eqb_ℤ}
use clios.Driver.{Call, driver, World, is_null, checked}
use clios.Wifi.Calls.{wifi_init_core}
use clios.Net.Setup.{Net, NvsErrors, init_nvs, set_up, net_init}
use clios.Driver.Leads.{
  Post, Anything, Leads, Leads-bind, Leads-pure, Leads-if, Leads-perform, Leads-checked,
  failed_check, Nothing,
}

abbrev pub create_loop : Call
create_loop = driver "esp_event_loop_create_default" []

-- How esp_event_loop_create_default fails where there is a default loop, by ESP_ERR_INVALID_STATE.
abbrev pub RefusesSecondLoop : World → Type 0
RefusesSecondLoop w =
    (before between : List Call)
    → is_null (w.answer (before ++ create_loop ∷ between) create_loop) ≡ false

-- A loop has been created in the trace.
pub record HasLoop (cs : List Call) : Type 0 where
  pub before : List Call
  pub between : List Call
  pub split : cs ≡ before ++ create_loop ∷ between

pub HasLoop-snoc : (cs : List Call) (c : Call) → HasLoop cs → HasLoop (cs ++ c ∷ [])
HasLoop-snoc cs c h = record {
  before = h.before;
  between = h.between ++ c ∷ [];
  split =
      ap (λ (l : List Call). l ++ c ∷ []) h.split
      ∙ append_assoc h.before (create_loop ∷ h.between) (c ∷ []);
}

pub HasLoop-append : (cs ds : List Call) → HasLoop cs → HasLoop (cs ++ ds)
HasLoop-append cs ds h = record {
  before = h.before;
  between = h.between ++ ds;
  split =
      ap (λ (l : List Call). l ++ ds) h.split ∙ append_assoc h.before (create_loop ∷ h.between) ds;
}

module _ {D : Type 0} where
  -- Once there is a loop, a checked call keeps it.
  pub Leads-keep : (w : World) (c : Call) → Leads HasLoop HasLoop (checked {D = D} w c)
  Leads-keep w c = Leads-checked HasLoop HasLoop w c (λ cs. HasLoop-snoc cs c)

  -- A second creation ends the program.
  Leads-create :
      (w : World) (P : List Call → Type 0)
      → RefusesSecondLoop w
      → Leads HasLoop P (checked {D = D} w create_loop)
  Leads-create w P h = record {
    leads = λ s l.
        failed_check (w.answer s.trace create_loop)
          (record s { trace = s.trace ++ create_loop ∷ [] }) P
          (ap (λ (cs : List Call). is_null (w.answer cs create_loop)) l.split
            ∙ h l.before l.between);
  }

pub core-HasLoop : {D : Type 0} (w : World) → Leads Anything HasLoop (wifi_init_core {D = D} w)
unfolding wifi_init_core
core-HasLoop w =
    Leads-bind Anything Anything HasLoop _ _ (Leads-checked Anything Anything w _ (λ cs p. tt))
      (λ _.
        Leads-bind Anything HasLoop HasLoop _ _
          (Leads-checked Anything HasLoop w create_loop
            (λ cs p. record { before = cs; between = []; split = refl }))
          (λ _.
            Leads-bind HasLoop HasLoop HasLoop _ _ (Leads-keep w _)
              (λ _. Leads-bind HasLoop HasLoop HasLoop _ _ (Leads-keep w _) (λ _. Leads-keep w _))))

abbrev init_flash : Call
init_flash = driver "nvs_flash_init" []

abbrev erase_flash : Call
erase_flash = driver "nvs_flash_erase" []

nvs-HasLoop : (errors : NvsErrors) (w : World) → Leads HasLoop HasLoop (init_nvs {D = Net} errors w)
unfolding init_nvs
nvs-HasLoop errors w =
    Leads-bind HasLoop HasLoop HasLoop _ _
      (Leads-perform HasLoop HasLoop w init_flash (λ cs. HasLoop-snoc cs init_flash))
      (λ err.
        Leads-if HasLoop HasLoop
          (eqb_ℤ err errors.no_free_pages || eqb_ℤ err errors.new_version_found) _ _
          (Leads-bind HasLoop HasLoop HasLoop _ _ (Leads-keep w erase_flash)
            (λ _. Leads-keep w init_flash))
          (Leads-pure HasLoop tt))

set_up_lem :
    (errors : NvsErrors) (w : World) → RefusesSecondLoop w → Leads HasLoop Nothing (set_up errors w)
unfolding set_up
set_up_lem errors w h = Leads-bind HasLoop HasLoop Nothing _ _ (nvs-HasLoop errors w) (λ _.
    Leads-bind HasLoop HasLoop Nothing _ _ (Leads-keep w _) (λ _.
      Leads-bind HasLoop Nothing Nothing _ _ (Leads-create w Nothing h)
        (λ _. record { leads = λ s l. elim l [ ] })))

-- With a default loop, `net.init` returns nothing.
pub init_lem :
    (errors : NvsErrors) (w : World) (cs : List Call)
    → RefusesSecondLoop w
    → HasLoop cs
    → Post Nothing (net_init errors w (record { own = record { net_inited = false }; trace = cs }))
unfolding net_init
init_lem errors w cs h l =
    (Leads-bind HasLoop Nothing Nothing (set_up errors w) _ (set_up_lem errors w h)
        (λ _. record { leads = λ t k. elim k [ ] })).leads
      (record { own = record { net_inited = false }; trace = cs }) l
