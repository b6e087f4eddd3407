-- ===== src/Lib.antt =====
-- fx for the ESP32-S3: the launcher that runs the fx guest under WAMR, the host functions that it
-- gives to the guest, and the programs that drive the e-paper panel. This library models the C
-- code of the repository's runtime/ directory and states what makes it correct.
--
-- The parts. runtime/fx_wamr_runner.c loads the guest and allocates its memory;
-- runtime/fx_wamr_native.c is the library of host functions the guest calls, above all the HTTP
-- streams; runtime/fx_eink.c starts the launcher, talks to the guest in lines of JSON and hands
-- the answer to runtime/einkctl.c, which lays text out and drives the panel.
--
-- The files.
-- - Prelude and its children: the shared helpers. Numbers are the native naturals; a size_t is 32
--   bits wide, with the wrap-around written out in add_size, sub_size and mul_size
--   (Prelude/Words). A block of memory is the list of its bytes. Prelude/Lists and Prelude/Slices
--   hold the operations on them and their lemmas.
-- - Native/Sink: `struct byte_sink`, `write_body` and `sink_append`. `realloc` is a parameter,
--   with what C promises of it as the hypothesis KeepsBytes. Native/Sink/Write holds the invariant
--   and the theorem on every branch.
-- - Native/Streams: the table of four streams and the imports fx_http_stream_open, _status, _next
--   and _close. The HTTP exchange is an interface, the record Requester: a function on the sink
--   and the laws that write_body gives every such function. Native/Streams/Spec is what the guest
--   may rely on, a map from handles to the bytes still to be delivered; View takes a table to that
--   map; Valid and Opening hold the invariant, Refine and Connect the refinement, Drain the
--   reading of a whole response.
-- - Runner/Allocator: `struct wamr_allocator`, metadata_malloc and its neighbours, wamr_malloc,
--   wamr_realloc and wamr_free, in the board's build. The children Valid, Place, Metadata, Linear
--   and Reuse hold the invariant, the first-fit search, and what the calls do.
-- - Eink/Buffer: `struct text_buffer`, buffer_append and append_utf8; whether `realloc` finds
--   memory of a given size is a parameter.
-- - Eink/Json: decoding and writing of JSON strings. The output stream is a parameter, a function
--   that adds bytes or fails.
-- - Eink/Keys: the search for a key and the values of string and number members; Objects describes
--   objects as text, Lookup relates the search to them.
-- - Einkctl/Sanitize: sanitize_text, a state machine over terminal escape sequences; Laws bounds
--   its output, Clean describes it.
-- - Einkctl/Wrap: lines_reserve, lines_push and wrap_text. Layout is the description of the layout
--   that wrap_text is compared with, Lines the rows of one physical line, Content what a layout
--   keeps.
-- - Einkctl/Frame: pixels, rectangles and glyphs in the framebuffer; the generated font is a
--   parameter. A pixel is read by is_white of Frame/Pixels.
-- - Einkctl/Page: render_text, which joins the above to a page; the footer that snprintf makes is
--   a parameter.
-- - Einkctl/Panel: the operations that the panel driver performs, as runs over a log of what was
--   done; the kernel and the panel are parameters that may answer by the whole log. Frames reads
--   the log as the panel's controller does, as commands with their data, and Refresh compares
--   those of panel_display with the sequence intended.
-- - Native/Guards: the two contiguity guards over mmap and munmap as parameters.
-- - Native/Streams/Trace: whole runs of a guest over the stream table.
-- - Native/Json: parse_json_string and its helpers, of runtime/fx_wamr_native.c. Native/Headers:
--   parse_headers; Safe says what lines it can produce, RoundTrip reads printed headers back, Fuel
--   bounds its loops. Native/Url: copy_string and rewrite_gateway_url.
-- - Native/Local: the answers that need no network, serve_local_model_catalog and
--   serve_fixture_chat, with sink_append_json_string; Asks says which requests ask for the
--   catalogue, Catalog when it is the answer. Native/Request: perform_request and the import
--   fx_http_request; libcurl is the record Curl, whose handle is the list of the options set.
--   Request/Carries reads from a handle what it asks for. Request/Promises states what libcurl
--   promises, Request/Keeps fills the interface Requester of Native/Streams, Request/Result
--   describes what the import returns, Request/Secure says which options a transfer runs with.
-- - Runner/Allocator/Setup: fx_verify_reserved_psram of runtime/fx_memory.h and
--   init_wamr_allocator; Setup/Reserved follows the allocator from there through any calls.
-- - Eink/Prompt: join_prompt and the wait for the readiness marker. Eink/Session: the requests to
--   fx, read_until_id and the exchange of main; Reads says what a reading that succeeds has read,
--   Finds when it succeeds, Exchange what a whole exchange sends and receives.
-- - Tools: the arguments of the example tools of runtime/fx_example_tools.c and the decision on a
--   call. Safe says what a decision allows, Fuel bounds the loops.
-- - Files: read_all of the launcher over what the kernel answers; Content says what it reads.
-- - Runner/Module: the source of the guest, in flash or in a file. Flash, Loads and Whole say what
--   is loaded and held.
-- - Runner/Environment: make_wasi_env and the environment of the guest; Usable describes it.
-- - Runner/Reserve: the choice of the stream buffer and the page limit of main; Bounds says where
--   they lie.
-- - Runner/Resources: the log of what the launcher takes and gives back, and the checker that
--   reads it.
-- - Runner/Cleanup and Runner/Launch: main as a log, its clean-up and its steps. Balance checks
--   the log of every launch, Guest and Starts say when the guest is run.
-- - Tools/Project: reply, the check and the reading of a project file and the replacement of
--   battery.sh; Laws describes them.
-- - Tools/Process: run_tests, with what it does with the child and the guards; Laws reads that log
--   and describes the report.
-- - Tools/Call: fx_example_tool_call; Confined says what it can do at most.
-- - Native/Session: the session imports, and the start and the end of the native library; Bounds
--   says what they write and leave.
-- - the modules called Tests: the theorems applied to concrete inputs.
--
-- Bounds and fuel. double_capacity and double_until double at most 32 times, which takes any
-- 32-bit word past its end. The search of metadata_malloc has three rounds: with two blocks it
-- moves at most twice. decode_json_string runs as many rounds as the input has bytes.
-- sanitize_text, find_json_key, wrap_text and its inner loop run as many rounds as there are
-- bytes, and each round takes one at least. parse_json_string runs one round more than there are
-- bytes, and parse_headers and the loop over an object's members likewise; each round takes a byte
-- at least. The loops over a string and over the fields of a tool's arguments run one round more
-- than there are bytes.
--
-- Not modelled. libcurl, mbedTLS, WAMR, SPI and the kernel are not part of the repository's code;
-- the parts of runtime/ that only call them (TLS set-up, spawning of processes, the crypto
-- self-test) have no model. The descriptors of the example tools and the code that runs in their
-- child process have none. Of einkctl the reading of its input, the PBM output and the access to
-- sysfs have none. The Python tools, the Zig sources and the patches build the image and are left
-- aside.
pub mod Prelude
pub mod Files
pub mod Native
pub mod Runner
pub mod Tools
pub mod Eink
pub mod Einkctl
