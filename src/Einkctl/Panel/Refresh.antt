-- ===== src/Einkctl/Panel/Refresh.antt =====
-- `panel_display` as the commands that the panel's controller receives.
use esp32_fx.Einkctl.Panel.Frames.{
  controller, add_data, Leaves, LeavesData, &>-Leaves, &>-assoc, panel_command_lem,
  panel_spi_write-data, wait_lem, fill_chunks-data,
}
use esp32_fx.Einkctl.Frame.{framebuffer_bytes}
use esp32_fx.Einkctl.Panel.{
  Event, set_dc, set_reset, sleep, Log, Run, ◌&>◌, perform, panel_spi_write, panel_command,
  panel_wait_idle, pause, panel_reset, panel_initialize, fill_chunks, panel_fill, panel_image,
  panel_steps, finish, panel_display,
}
use esp32_fx.Prelude.{
  ℕ, ◌≡◌, refl, ap, ◌∙◌, Bool, true, false, Option, none, some, List, [], ◌∷◌, replicate, arith,
}

-- The image that `panel_display` sends.
abbrev pub image_data : Option (List ℕ) → List ℕ
image_data none = replicate framebuffer_bytes 0xff
image_data (some framebuffer) = framebuffer

-- The commands of a refresh with their data, the last one first.
abbrev pub refresh : Option (List ℕ) → List (ℕ × List ℕ)
refresh framebuffer =
    (0x02, [])
    ∷ (0x12, [])
    ∷ (0xe5, 0x5a ∷ [])
    ∷ (0xe0, 0x02 ∷ [])
    ∷ (0x13, image_data framebuffer)
    ∷ (0x10, replicate framebuffer_bytes 0x00)
    ∷ (0x04, [])
    ∷ (0x00, 0x1f ∷ [])
    ∷ (0xe3, 0x22 ∷ [])
    ∷ (0x60, 0x22 ∷ [])
    ∷ (0x50, 0x29 ∷ 0x07 ∷ [])
    ∷ (0x15, 0x00 ∷ [])
    ∷ (0x61, 0x03 ∷ 0x20 ∷ 0x01 ∷ 0xe0 ∷ [])
    ∷ (0x06, 0x17 ∷ 0x17 ∷ 0x28 ∷ 0x17 ∷ [])
    ∷ (0x01, 0x07 ∷ 0x07 ∷ 0x3f ∷ 0x3f ∷ 0x09 ∷ [])
    ∷ (0x00, 0x1f ∷ [])
    ∷ []

module _ (succeeds : Event → Log → Bool) (busy : Log → Option Bool)
    (accepts : (event : Event) (log : Log) → succeeds event log ≡ true)
    (idle : (log : Log) → busy log ≡ some true) where
  after_command :
      (command : ℕ) (bytes : List ℕ) {r : List (ℕ × List ℕ)} {out : Bool × Log}
      → Leaves r out
      → Leaves ((command, bytes) ∷ r) (out &> panel_command succeeds busy command bytes)
  after_command command bytes {r} {out} l =
      &>-Leaves ((command, bytes) ∷ r) out (panel_command succeeds busy command bytes) l (λ log e.
        let c = panel_command_lem succeeds busy accepts idle command bytes log in
        record { ok = c.ok; commands = c.commands ∙ ap (λ older. (command, bytes) ∷ older) e })

  after_wait :
      (timeout_ms : ℕ) {r : List (ℕ × List ℕ)} {out : Bool × Log}
      → Leaves r out
      → Leaves r (out &> panel_wait_idle succeeds busy timeout_ms)
  after_wait timeout_ms {r} {out} l =
      &>-Leaves r out (panel_wait_idle succeeds busy timeout_ms) l (λ log e.
        let c = wait_lem succeeds busy accepts idle timeout_ms log in
        record { ok = c.ok; commands = c.commands ∙ e })

  -- A command without data, the data line high, and then bytes.
  after_data :
      (command : ℕ) (bytes : List ℕ) (next : Run) (log : Log)
      → ((log' : Log)
          → (controller log').data_level ≡ true
          → LeavesData (add_data bytes (controller log').received) (next log'))
      → Leaves ((command, bytes) ∷ (controller log).received) (
          panel_command succeeds busy command [] log &> perform succeeds busy (set_dc true) &> next)
  unfolding perform
  after_data command bytes next log h =
      let c = panel_command_lem succeeds busy accepts idle command [] log in
      let raised =
        &>-Leaves {r = (command, []) ∷ (controller log).received}
          ((command, bytes) ∷ (controller log).received)
          (panel_command succeeds busy command [] log)
          (λ log'. perform succeeds busy (set_dc true) log' &> next) c
          (λ log' e.
            let d = h (set_dc true ∷ log') refl in
            rw (accepts (set_dc true) log') (
              unfold ◌&>◌ in
              record { ok = d.ok; commands = d.commands ∙ ap (add_data bytes) e })) in
      rw
        (&>-assoc (panel_command succeeds busy command [] log) (perform succeeds busy (set_dc true))
          next)
        raised

  panel_fill_lem :
      (command value : ℕ) (log : Log)
      → Leaves
          ((command, replicate framebuffer_bytes value) ∷ (controller log).received)
          (panel_fill succeeds busy command value log)
  unfolding panel_fill
  panel_fill_lem command value log =
      after_data command (replicate framebuffer_bytes value)
        (fill_chunks succeeds busy framebuffer_bytes value framebuffer_bytes) log
        (λ log' level.
          fill_chunks-data succeeds busy accepts idle framebuffer_bytes value framebuffer_bytes log'
            (omega arith) level)

  panel_image_lem :
      (framebuffer : Option (List ℕ)) (log : Log)
      → Leaves
          ((0x13, image_data framebuffer) ∷ (controller log).received)
          (panel_image succeeds busy framebuffer log)
  unfolding panel_image
  panel_image_lem none log = panel_fill_lem 0x13 0xff log
  panel_image_lem (some bytes) log =
      after_data 0x13 bytes (panel_spi_write succeeds busy bytes) log
        (λ log' level. panel_spi_write-data succeeds busy accepts idle bytes log' level)

  after_fill :
      (command value : ℕ) {r : List (ℕ × List ℕ)} {out : Bool × Log}
      → Leaves r out
      → Leaves
          ((command, replicate framebuffer_bytes value) ∷ r)
          (out &> panel_fill succeeds busy command value)
  after_fill command value {r} {out} l =
      &>-Leaves ((command, replicate framebuffer_bytes value) ∷ r) out
        (panel_fill succeeds busy command value) l
        (λ log e.
          let c = panel_fill_lem command value log in
          record {
            ok = c.ok;
            commands =
                c.commands ∙ ap (λ older. (command, replicate framebuffer_bytes value) ∷ older) e;
          })

  after_image :
      (framebuffer : Option (List ℕ)) {r : List (ℕ × List ℕ)} {out : Bool × Log}
      → Leaves r out
      → Leaves ((0x13, image_data framebuffer) ∷ r) (out &> panel_image succeeds busy framebuffer)
  after_image framebuffer {r} {out} l =
      &>-Leaves ((0x13, image_data framebuffer) ∷ r) out (panel_image succeeds busy framebuffer) l
        (λ log e.
          let c = panel_image_lem framebuffer log in
          record {
            ok = c.ok;
            commands = c.commands ∙ ap (λ older. (0x13, image_data framebuffer) ∷ older) e;
          })

  panel_reset_lem : Leaves [] (panel_reset succeeds busy [])
  unfolding panel_reset perform pause ◌&>◌
  panel_reset_lem =
      rw
        (
          accepts (set_reset true) [],
          accepts (set_reset false) (sleep 10 ∷ set_reset true ∷ []),
          accepts (set_reset true) (sleep 10 ∷ set_reset false ∷ sleep 10 ∷ set_reset true ∷ []),
        )
        (record { ok = refl; commands = refl })

  panel_steps_lem :
      (framebuffer : Option (List ℕ))
      → Leaves (refresh framebuffer) (panel_steps succeeds busy framebuffer [])
  unfolding panel_steps panel_initialize
  panel_steps_lem framebuffer = after_wait 15000 (
      after_command 0x02 [] (
        after_wait 60000 (
          after_command 0x12 [] (
            after_command 0xe5 (0x5a ∷ []) (
              after_command 0xe0 (0x02 ∷ []) (
                after_image framebuffer (
                  after_fill 0x10 0x00 (
                    after_wait 15000 (
                      after_command 0x04 [] (
                        after_command 0x00 (0x1f ∷ []) (
                          after_command 0xe3 (0x22 ∷ []) (
                            after_command 0x60 (0x22 ∷ []) (
                              after_command 0x50 (0x29 ∷ 0x07 ∷ []) (
                                after_command 0x15 (0x00 ∷ []) (
                                  after_command 0x61 (0x03 ∷ 0x20 ∷ 0x01 ∷ 0xe0 ∷ []) (
                                    after_command 0x06 (0x17 ∷ 0x17 ∷ 0x28 ∷ 0x17 ∷ []) (
                                      after_command 0x01 (0x07 ∷ 0x07 ∷ 0x3f ∷ 0x3f ∷ 0x09 ∷ []) (
                                        after_command 0x00 (0x1f ∷ [])
                                          panel_reset_lem))))))))))))))))))

  finish_lem :
      {r : List (ℕ × List ℕ)} (out : Bool × Log)
      → Leaves r out
      → Leaves r (finish succeeds busy out)
  unfolding finish
  finish_lem (true, log) l = l
  finish_lem (false, log) l = absurd (cc (l.ok))

  -- On a device that accepts every operation and a panel that is idle whenever it is asked,
  -- `panel_display` succeeds and the controller has received exactly the commands of a refresh, each
  -- with its data: among them the whole framebuffer, or 48,000 bytes of white if there is none,
  -- whatever the chunks were that it was sent in.
  pub panel_display_lem :
      (framebuffer : Option (List ℕ))
      → let out = panel_display succeeds busy framebuffer [] in
        (out.0 ≡ true) × ((controller out.1).received ≡ refresh framebuffer)
  unfolding panel_display
  panel_display_lem framebuffer =
      let done =
        finish_lem (panel_steps succeeds busy framebuffer []) (panel_steps_lem framebuffer) in
      (done.ok, done.commands)
