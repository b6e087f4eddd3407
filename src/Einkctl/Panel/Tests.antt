-- ===== src/Einkctl/Panel/Tests.antt =====
-- A refresh on a device that never fails.
use esp32_fx.Einkctl.Panel.Frames.{controller}
use esp32_fx.Einkctl.Panel.Refresh.{refresh, panel_display_lem}
use esp32_fx.Einkctl.Panel.{Event, Log, panel_display}
use esp32_fx.Prelude.{◌≡◌, refl, Bool, true, Option, some, [], replicate}

accept_all : Event → Log → Bool
accept_all event log = true

always_idle : Log → Option Bool
always_idle log = some true

panel_display_lem_example :
    let out = panel_display accept_all always_idle (some (replicate 48000 0xaa)) [] in
    (out.0 ≡ true) × ((controller out.1).received ≡ refresh (some (replicate 48000 0xaa)))
unfolding accept_all always_idle
panel_display_lem_example =
    panel_display_lem accept_all always_idle (λ event log. refl) (λ log. refl)
      (some (replicate 48000 0xaa))
