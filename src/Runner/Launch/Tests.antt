-- ===== src/Runner/Launch/Tests.antt =====
-- A launch from an SD card, with both required variables set and one optional one.
use esp32_fx.Files.{chunk_ready, interrupted, read_all}
use esp32_fx.Runner.Allocator.Setup.{
  init_wamr_allocator, verify_reserved_psram, is_layout, big_endian, mapped_arena,
}
use esp32_fx.Runner.Module.{
  ModuleFile, load_builtin_flash_module, load_unless_flash, load_file, load_sized, load_header,
  load_opened, load_content, load_module_bytes,
}
use esp32_fx.Runner.Reserve.{reserve_stream, memory_pages}
use esp32_fx.Runner.Launch.{Machine, launch, main, is_unset, reclaim_file_cache}
use esp32_fx.Runner.Launch.Balance.{main-IsBalanced}
use esp32_fx.Runner.Launch.Guest.{launch_ready, Behaves}
use esp32_fx.Runner.Launch.Starts.{launch-Behaves}
use esp32_fx.Runner.Resources.{IsBalanced}
use esp32_fx.Prelude.{
  ℕ, Option, none, some, List, [], ◌∷◌, ◌≡◌, refl, if◌then◌else◌, same_text, codes, arith, true,
  false,
}

abbrev module_path : List ℕ
module_path = codes "/mnt/fx.wasm"

abbrev wasm_file : ModuleFile
wasm_file = record {
  opens = true;
  st_size = some 8;
  header_reads =
      interrupted
      ∷ chunk_ready (0 ∷ 0x61 ∷ [])
      ∷ chunk_ready (0x73 ∷ 0x6d ∷ 1 ∷ 0 ∷ 0 ∷ 0 ∷ [])
      ∷ [];
  rewinds = true;
  readonly_module = false;
  mapping = none;
  allocates = true;
  content_reads = chunk_ready (0 ∷ 0x61 ∷ 0x73 ∷ 0x6d ∷ 1 ∷ 0 ∷ 0 ∷ 0 ∷ []) ∷ [];
}

abbrev environment : List ℕ → Option (List ℕ)
environment name =
    if same_text name (codes "AI_GATEWAY_API_KEY")
    then some (codes "secret")
    else if same_text name (codes "FX_MODEL")
    then some (codes "m")
    else if same_text name (codes "FX_TRACE_SCOPES")
    then some (codes "http")
    else none

abbrev board : Machine
board = record {
  cache_write = some 2;
  psram_node = some (0x3d ∷ 0xed ∷ 0 ∷ 0 ∷ 0 ∷ 0x13 ∷ 0 ∷ 0 ∷ []);
  getenv = environment;
  strtoul = λ text. none;
  strtoul_decimal = λ text. (0, text);
  mmap = λ size. some [];
  arena_memory = λ address size. [];
  mapped_at = 0x3d900000;
  stream_maps = true;
  prepares_guards = true;
  has_memory = λ size. true;
  setenv_succeeds = true;
  flash = λ address. 0xff;
  module_file = λ path. wasm_file;
  curl_starts = true;
  full_init = true;
  loads = true;
  binary_freeable = true;
  instantiates = true;
  exec_env = true;
  executes = some 0;
}

board_ready : launch_ready board module_path ≡ true
unfolding reclaim_file_cache init_wamr_allocator verify_reserved_psram is_layout big_endian
    mapped_arena reserve_stream memory_pages is_unset load_builtin_flash_module load_unless_flash
    load_file load_sized load_header load_opened load_content load_module_bytes read_all same_text
board_ready = refl

main-IsBalanced_example : IsBalanced (main board (module_path ∷ [])).1
main-IsBalanced_example = main-IsBalanced board (module_path ∷ []) (λ address. omega arith)

launch-Behaves_example : Behaves board (launch_ready board module_path) (launch board module_path)
launch-Behaves_example = launch-Behaves board (λ size. refl) (λ address. omega arith) module_path
