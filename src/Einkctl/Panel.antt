-- ===== src/Einkctl/Panel.antt =====
-- runtime/einkctl.c: the sequences of GPIO and SPI operations that `panel_spi_write`,
-- `panel_command`, `panel_wait_idle`, `panel_reset`, `panel_initialize`, `panel_fill` and
-- `panel_display` perform. The kernel and the panel are parameters: whether an operation succeeds,
-- and whether the panel is idle, may depend in any way on what was done before.
pub mod Frames
pub mod Refresh
mod Tests
use esp32_fx.Einkctl.Frame.{framebuffer_bytes}
use esp32_fx.Prelude.{
  ℕ, zero, suc, ◌+◌, ◌-◌, ◌/◌, Bool, true, false, Option, none, some, List, [], ◌∷◌, length, take,
  drop, replicate, min, ltb, leb, if◌then◌else◌,
}

-- `gpio_set` of the two output lines, `write_all` to the SPI device, `gpio_get` of the busy line,
-- and `sleep_ms`.
pub data Event : Type 0 where
  set_dc : Bool → Event
  set_reset : Bool → Event
  send : List ℕ → Event
  poll : Event
  sleep : ℕ → Event

-- What was done, the last operation first.
abbrev pub Log : Type 0
Log = List Event

-- `true` is the result 0, `false` the result -1.
abbrev pub Run : Type 0
Run = Log → Bool × Log

-- The next operation, if the last one succeeded.
infixl 4 ◌&>◌
pub ◌&>◌ : Bool × Log → Run → Bool × Log
(true, log) &> next = next log
(false, log) &> next = (false, log)

module _ (succeeds : Event → Log → Bool) (busy : Log → Option Bool) where
  pub perform : Event → Run
  perform event log = (succeeds event log, event ∷ log)

  -- The loop over chunks of 4,096 bytes, at most `fuel` rounds.
  pub spi_chunks : ℕ → List ℕ → Run
  spi_chunks zero bytes log = (true, log)
  spi_chunks (suc fuel) [] log = (true, log)
  spi_chunks (suc fuel) (byte ∷ rest) log =
      perform (send (take 4096 (byte ∷ rest))) log &> spi_chunks fuel (drop 4096 (byte ∷ rest))

  -- Every round sends a byte at least.
  pub panel_spi_write : List ℕ → Run
  panel_spi_write bytes log = spi_chunks (length bytes) bytes log

  pub panel_data : List ℕ → Run
  panel_data [] log = (true, log)
  panel_data (byte ∷ rest) log = perform (set_dc true) log &> panel_spi_write (byte ∷ rest)

  pub panel_command : ℕ → List ℕ → Run
  panel_command command bytes log =
      perform (set_dc false) log &> panel_spi_write (command ∷ []) &> panel_data bytes

  -- The loop, `polls` rounds before `elapsed` passes the timeout.
  pub wait_rounds : ℕ → Run
  wait_rounds zero log = (false, log)
  wait_rounds (suc polls) log =
      let later = wait_rounds polls (sleep 50 ∷ poll ∷ log) in
      elim (busy log) [
        | none ↦ (false, poll ∷ log)
        | some idle ↦ if idle then (true, poll ∷ log) else later
      ]

  -- `elapsed` takes the values 0, 50, 100 and so on up to the timeout.
  pub panel_wait_idle : ℕ → Run
  panel_wait_idle timeout_ms log = wait_rounds (timeout_ms / 50 + 1) log

  pub pause : ℕ → Run
  pause milliseconds log = (true, sleep milliseconds ∷ log)

  pub panel_reset : Run
  panel_reset log =
      perform (set_reset true) log
      &> pause 10
      &> perform (set_reset false)
      &> pause 10
      &> perform (set_reset true)
      &> pause 10

  pub panel_initialize : Run
  panel_initialize log =
      panel_reset log
      &> panel_command 0x00 (0x1f ∷ [])
      &> panel_command 0x01 (0x07 ∷ 0x07 ∷ 0x3f ∷ 0x3f ∷ 0x09 ∷ [])
      &> panel_command 0x06 (0x17 ∷ 0x17 ∷ 0x28 ∷ 0x17 ∷ [])
      &> panel_command 0x61 (0x03 ∷ 0x20 ∷ 0x01 ∷ 0xe0 ∷ [])
      &> panel_command 0x15 (0x00 ∷ [])
      &> panel_command 0x50 (0x29 ∷ 0x07 ∷ [])
      &> panel_command 0x60 (0x22 ∷ [])
      &> panel_command 0xe3 (0x22 ∷ [])
      &> panel_command 0x00 (0x1f ∷ [])

  -- The loop over chunks of 256 bytes, at most `fuel` rounds.
  pub fill_chunks : ℕ → ℕ → ℕ → Run
  fill_chunks zero value remaining log = (true, log)
  fill_chunks (suc fuel) value zero log = (true, log)
  fill_chunks (suc fuel) value (suc n) log =
      let amount = min 256 (suc n) in
      panel_spi_write (replicate amount value) log &> fill_chunks fuel value (suc n - amount)

  pub panel_fill : ℕ → ℕ → Run
  panel_fill command value log =
      panel_command command [] log
      &> perform (set_dc true)
      &> fill_chunks framebuffer_bytes value framebuffer_bytes

  -- The image: the framebuffer, or white where there is none.
  pub panel_image : Option (List ℕ) → Run
  panel_image none log = panel_fill 0x13 0xff log
  panel_image (some framebuffer) log =
      panel_command 0x13 [] log &> perform (set_dc true) &> panel_spi_write framebuffer

  pub panel_steps : Option (List ℕ) → Run
  panel_steps framebuffer log =
      panel_initialize log
      &> panel_command 0x04 []
      &> panel_wait_idle 15000
      &> panel_fill 0x10 0x00
      &> panel_image framebuffer
      &> panel_command 0xe0 (0x02 ∷ [])
      &> panel_command 0xe5 (0x5a ∷ [])
      &> panel_command 0x12 []
      &> panel_wait_idle 60000
      &> panel_command 0x02 []
      &> panel_wait_idle 15000

  -- The label `fail`, whose command may fail as well.
  pub finish : Bool × Log → Bool × Log
  finish (true, log) = (true, log)
  finish (false, log) = (false, (panel_command 0x02 [] log).1)

  pub panel_display : Option (List ℕ) → Run
  panel_display framebuffer log = finish (panel_steps framebuffer log)
