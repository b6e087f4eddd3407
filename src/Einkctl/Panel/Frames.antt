-- ===== src/Einkctl/Panel/Frames.antt =====
-- What the panel's controller receives: commands, each with its data.
use esp32_fx.Einkctl.Panel.{
  Event, set_dc, set_reset, send, poll, sleep, Log, Run, ◌&>◌, perform, spi_chunks, panel_spi_write,
  panel_data, panel_command, wait_rounds, panel_wait_idle, fill_chunks,
}
use esp32_fx.Prelude.{
  ℕ, zero, suc, ◌+◌, ◌-◌, ◌/◌, ◌≤◌, ◌<◌, ◌≡◌, refl, sym, ap, ◌∙◌, Bool, true, false, Option, some,
  List, [], ◌∷◌, ◌++◌, length, take, drop, replicate, min, append-nil, append_assoc,
  take-append-drop, length-drop, if◌then◌else◌, arith,
}

-- The data line's level, and the commands received with their data, the last one first.
pub record Controller : Type 0 where
  pub data_level : Bool
  pub received : List (ℕ × List ℕ)

-- Bytes are data for the last command.
abbrev pub add_data : List ℕ → List (ℕ × List ℕ) → List (ℕ × List ℕ)
add_data bytes [] = []
add_data bytes ((command, old) ∷ older) = (command, old ++ bytes) ∷ older

-- Each byte is a command.
abbrev pub add_commands : List ℕ → List (ℕ × List ℕ) → List (ℕ × List ℕ)
add_commands [] older = older
add_commands (command ∷ commands) older = add_commands commands ((command, []) ∷ older)

abbrev pub controller : Log → Controller
controller [] = record { data_level = false; received = [] }
controller (set_dc level ∷ log) = record (controller log) { data_level = level }
controller (send bytes ∷ log) =
    let c = controller log in
    record c {
      received = if c.data_level then add_data bytes c.received else add_commands bytes c.received;
    }
controller (set_reset level ∷ log) = controller log
controller (poll ∷ log) = controller log
controller (sleep n ∷ log) = controller log

-- A run that succeeds and leaves the given commands.
pub record Leaves (received : List (ℕ × List ℕ)) (out : Bool × Log) : Type 0 where
  pub ok : out.0 ≡ true
  pub commands : (controller out.1).received ≡ received

-- A run under which the data line is high and stays so.
pub record LeavesData (received : List (ℕ × List ℕ)) (out : Bool × Log) : Type 0 where
  pub ok : out.0 ≡ true
  pub commands : (controller out.1).received ≡ received
  pub level : (controller out.1).data_level ≡ true

add_data-append :
    (xs ys : List ℕ) (r : List (ℕ × List ℕ)) → add_data ys (add_data xs r) ≡ add_data (xs ++ ys) r
add_data-append xs ys [] = refl
add_data-append xs ys ((c, old) ∷ older) = ap (λ d. (c, d) ∷ older) (append_assoc old xs ys)

add_data-nil : (r : List (ℕ × List ℕ)) → add_data [] r ≡ r
add_data-nil [] = refl
add_data-nil ((c, old) ∷ older) = ap (λ d. (c, d) ∷ older) (append-nil old)

replicate-append :
    (m n k value : ℕ) → m + n ≡ k → replicate m value ++ replicate n value ≡ replicate k value
replicate-append zero n k value e = ap (λ i. replicate i value) (omega arith)
replicate-append (suc m) n zero value e = absurd (omega arith)
replicate-append (suc m) n (suc k) value e =
    ap (λ vs. value ∷ vs) (replicate-append m n k value (omega arith))

pub &>-assoc : (out : Bool × Log) (f g : Run) → (out &> f &> g) ≡ (out &> (λ log. f log &> g))
unfolding ◌&>◌
&>-assoc (true, log) f g = refl
&>-assoc (false, log) f g = refl

pub &>-LeavesData :
    {r : List (ℕ × List ℕ)} (bytes : List ℕ) (out : Bool × Log) (next : Run)
    → LeavesData r out
    → ((log : Log)
        → (controller log).data_level ≡ true
        → LeavesData (add_data bytes (controller log).received) (next log))
    → LeavesData (add_data bytes r) (out &> next)
unfolding ◌&>◌
&>-LeavesData bytes (true, log) next l h =
    let d = h log l.level in
    record { ok = d.ok; commands = d.commands ∙ ap (add_data bytes) l.commands; level = d.level }
&>-LeavesData bytes (false, log) next l h = absurd (cc (l.ok))

sent-data :
    (bytes : List ℕ) (log : Log)
    → (controller log).data_level ≡ true
    → (controller (send bytes ∷ log)).received ≡ add_data bytes (controller log).received
sent-data bytes log level = rw level refl

pub &>-Leaves :
    {r : List (ℕ × List ℕ)} (r' : List (ℕ × List ℕ)) (out : Bool × Log) (next : Run)
    → Leaves r out
    → ((log : Log) → (controller log).received ≡ r → Leaves r' (next log))
    → Leaves r' (out &> next)
unfolding ◌&>◌
&>-Leaves r' (true, log) next l h = h log l.commands
&>-Leaves r' (false, log) next l h = absurd (cc (l.ok))

module _ (succeeds : Event → Log → Bool) (busy : Log → Option Bool)
    (accepts : (event : Event) (log : Log) → succeeds event log ≡ true)
    (idle : (log : Log) → busy log ≡ some true) where
  spi_chunks-data :
      (fuel : ℕ) (bytes : List ℕ) (log : Log)
      → length bytes ≤ fuel
      → (controller log).data_level ≡ true
      → LeavesData
          (add_data bytes (controller log).received)
          (spi_chunks succeeds busy fuel bytes log)
  unfolding spi_chunks perform ◌&>◌
  spi_chunks-data zero [] log h level = record {
    ok = refl;
    commands = sym (add_data-nil (controller log).received);
    level = level;
  }
  spi_chunks-data zero (byte ∷ rest) log h level = absurd (omega arith)
  spi_chunks-data (suc fuel) [] log h level = record {
    ok = refl;
    commands = sym (add_data-nil (controller log).received);
    level = level;
  }
  spi_chunks-data (suc fuel) (byte ∷ rest) log h level =
      let text : List ℕ = byte ∷ rest in
      let chunk = take 4096 text in
      let later = drop 4096 text in
      let ih =
        spi_chunks-data fuel later (send chunk ∷ log) (omega (arith, length-drop 4096 text))
          level in
      rw (accepts (send chunk) log) (record {
        ok = ih.ok;
        commands =
            ih.commands
            ∙ ap (add_data later) (sent-data chunk log level)
            ∙ add_data-append chunk later (controller log).received
            ∙ ap (λ bytes. add_data bytes (controller log).received) (take-append-drop 4096 text);
        level = ih.level;
      })

  pub panel_spi_write-data :
      (bytes : List ℕ) (log : Log)
      → (controller log).data_level ≡ true
      → LeavesData
          (add_data bytes (controller log).received)
          (panel_spi_write succeeds busy bytes log)
  unfolding panel_spi_write
  panel_spi_write-data bytes log level =
      spi_chunks-data (length bytes) bytes log (omega arith) level

  pub panel_command_lem :
      (command : ℕ) (bytes : List ℕ) (log : Log)
      → Leaves
          ((command, bytes) ∷ (controller log).received)
          (panel_command succeeds busy command bytes log)
  unfolding panel_command perform ◌&>◌ panel_spi_write spi_chunks panel_data
  panel_command_lem command [] log =
      rw (accepts (set_dc false) log, accepts (send (command ∷ [])) (set_dc false ∷ log))
        (record { ok = refl; commands = refl })
  panel_command_lem command (byte ∷ rest) log =
      let start : Log = send (command ∷ []) ∷ set_dc false ∷ log in
      let d = panel_spi_write-data (byte ∷ rest) (set_dc true ∷ start) refl in
      rw
        (
          accepts (set_dc false) log,
          accepts (send (command ∷ [])) (set_dc false ∷ log),
          accepts (set_dc true) start,
        )
        (record { ok = d.ok; commands = d.commands })

  wait_rounds_lem :
      (n : ℕ) (log : Log)
      → 0 < n
      → Leaves (controller log).received (wait_rounds succeeds busy n log)
  unfolding wait_rounds
  wait_rounds_lem zero log h = absurd (omega arith)
  wait_rounds_lem (suc n) log h = rw (idle log, wait_rounds) (record { ok = refl; commands = refl })

  pub wait_lem :
      (timeout_ms : ℕ) (log : Log)
      → Leaves (controller log).received (panel_wait_idle succeeds busy timeout_ms log)
  unfolding panel_wait_idle
  wait_lem timeout_ms log = wait_rounds_lem (timeout_ms / 50 + 1) log (omega arith)

  pub fill_chunks-data :
      (fuel value remaining : ℕ) (log : Log)
      → remaining ≤ fuel
      → (controller log).data_level ≡ true
      → LeavesData
          (add_data (replicate remaining value) (controller log).received)
          (fill_chunks succeeds busy fuel value remaining log)
  unfolding fill_chunks
  fill_chunks-data zero value zero log h level = record {
    ok = refl;
    commands = sym (add_data-nil (controller log).received);
    level = level;
  }
  fill_chunks-data zero value (suc n) log h level = absurd (omega arith)
  fill_chunks-data (suc fuel) value zero log h level = record {
    ok = refl;
    commands = sym (add_data-nil (controller log).received);
    level = level;
  }
  fill_chunks-data (suc fuel) value (suc n) log h level =
      let amount = min 256 (suc n) in
      let first = panel_spi_write-data (replicate amount value) log level in
      let all =
        &>-LeavesData (replicate (suc n - amount) value)
          (panel_spi_write succeeds busy (replicate amount value) log)
          (fill_chunks succeeds busy fuel value (suc n - amount)) first
          (λ log' level'. fill_chunks-data fuel value (suc n - amount) log' (omega arith) level') in
      record {
        ok = all.ok;
        commands =
            all.commands
            ∙ add_data-append (replicate amount value) (replicate (suc n - amount) value)
                (controller log).received
            ∙ ap (λ bytes. add_data bytes (controller log).received)
                (replicate-append amount (suc n - amount) (suc n) value (omega arith));
        level = all.level;
      }
