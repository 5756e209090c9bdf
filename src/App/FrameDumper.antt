-- ===== src/App/FrameDumper.antt =====
-- src/app/src/runtime/ViewerFrameDumper.cpp.
pub mod Files
pub mod Processing
pub mod Waiting
use Prim.Native.Nat.{bit_xor}
use edge_vision.Prelude.{
  ℕ, zero, suc, ◌+◌, ◌-◌, ◌*◌, ◌/◌, ◌%◌, ℤ, pos, negsuc, Bool, true, false, not, ◌&&◌, ◌||◌, String,
  List, [], ◌∷◌, ◌++◌, Option, none, some, ltb, leb, leb_ℤ, ◌==◌, max, inc64, u64_mod, to_u64,
  length, if◌then◌else◌,
}
use edge_vision.Config.{ImageSize, ViewerDumpConfig}
use edge_vision.Config.Parser.{codes}
use edge_vision.Model.Frame.{FrameBuffer}
use edge_vision.Model.Viewer.{RenderOutput, has_rgb}
use edge_vision.Model.Viewer.OutputStore.{RenderOutputStore, recent}
use edge_vision.App.{FileSystem}

-- The decimal digits of a number, none for zero; the fuel is enough when it is at least the number.
unfoldable pub decimal : ℕ → ℕ → List ℕ
decimal zero n = []
decimal (suc fuel) n =
    let front = decimal fuel (n / 10) in if n == 0 then [] else front ++ (b'0' + n % 10) ∷ []

abbrev pub zeros : ℕ → List ℕ
zeros zero = []
zeros (suc n) = b'0' ∷ zeros n

-- std::setw(4) << std::setfill('0') << n
unfoldable pub padded : ℕ → List ℕ
unfolding decimal
padded n = zeros (4 - length (decimal n n)) ++ decimal n n

-- The file's name in makeOutputPath; the directory stands beside it.
unfoldable pub make_output_name : ℕ → List ℕ
unfolding padded
make_output_name sequence = codes "viewer-output-" ++ (padded sequence ++ codes ".ppm")

abbrev pub fnv_offset_basis : ℕ
fnv_offset_basis = 14695981039346656037

abbrev pub fnv_prime : ℕ
fnv_prime = 1099511628211

-- hashBytes over a list of bytes.
unfoldable pub hash_bytes : ℕ → List ℕ → ℕ
hash_bytes hash [] = hash
hash_bytes hash (byte ∷ bytes) = hash_bytes (bit_xor hash byte * fnv_prime % u64_mod) bytes

-- The four bytes of a 32-bit int, the lowest first.
abbrev pub int_bytes : ℤ → List ℕ
int_bytes n =
    to_u64 n % 256 ∷ to_u64 n / 256 % 256 ∷ to_u64 n / 65536 % 256 ∷ to_u64 n / 16777216 % 256 ∷ []

abbrev pub take : ℕ → List ℕ → List ℕ
take zero xs = []
take (suc n) [] = []
take (suc n) (x ∷ xs) = x ∷ take n xs

-- The first bytes that a buffer points to.
abbrev pub bytes_of : FrameBuffer → ℕ → List ℕ
bytes_of buffer count = elim (buffer.bytes) [ none ↦ [] | some bytes ↦ take count bytes ]

-- static_cast<std::size_t>(width) * static_cast<std::size_t>(height) * 3
abbrev pub expected_byte_count : ImageSize → ℕ
expected_byte_count size = to_u64 size.width * to_u64 size.height * 3 % u64_mod

unfoldable pub hash_output : RenderOutput → ℕ
unfolding hash_bytes
hash_output output =
    hash_bytes
      (hash_bytes (hash_bytes fnv_offset_basis (int_bytes output.image_size.width))
        (int_bytes output.image_size.height))
      (bytes_of output.rgb (expected_byte_count output.image_size))

-- The fields that the dumper changes, beside its settings.
pub record ViewerFrameDumper : Type 0 where
  pub config : ViewerDumpConfig
  pub output_directory : String
  pub last_processed_timestamp : ℤ
  pub dumped_output_count : ℕ
  pub skipped_duplicate_count : ℕ
  pub last_dumped_hash : ℕ
  pub has_last_dumped_hash : Bool
  pub observed_non_cached_output : Bool

-- The constructor: a limit of no frames becomes one.
unfoldable pub make_dumper : ViewerDumpConfig → String → ViewerFrameDumper
make_dumper config directory = record {
  config = if config.max_frames == 0 then record config { max_frames = 1 } else config;
  output_directory = directory;
  last_processed_timestamp = pos 0;
  dumped_output_count = 0;
  skipped_duplicate_count = 0;
  last_dumped_hash = 0;
  has_last_dumped_hash = false;
  observed_non_cached_output = false;
}

-- The test on the size and the bytes that handleOutput and writeOutput both make.
unfoldable pub is_writable : RenderOutput → Bool
is_writable output =
    not (leb_ℤ output.image_size.width (pos 0) || leb_ℤ output.image_size.height (pos 0))
    && not (ltb output.rgb.byte_count (expected_byte_count output.image_size))

-- A number that is not negative, as a stream prints it.
abbrev pub printed : ℤ → List ℕ
printed n = if to_u64 n == 0 then b'0' ∷ [] else decimal (to_u64 n) (to_u64 n)

unfoldable pub header : ImageSize → List ℕ
header size =
    codes "P6\n" ++ (printed size.width ++ (b' ' ∷ (printed size.height ++ codes "\n255\n")))

-- The test that ends the wait.
unfoldable pub has_configured_outputs : ViewerFrameDumper → Bool
has_configured_outputs d =
    if d.config.enabled
    then leb d.config.max_frames d.dumped_output_count
    else d.observed_non_cached_output

module _ {F : Type 0} ⦃fs : FileSystem F⦄ where
  -- writeOutput once the directory is there.
  abbrev write_opened : RenderOutput → Bool × F → Bool × F
  write_opened output (false, disk) = (false, disk)
  write_opened output (true, disk) =
      fs.write
        (header output.image_size ++ bytes_of output.rgb (expected_byte_count output.image_size))
        disk

  abbrev write_created : String → RenderOutput → ℕ → Bool × F → Bool × F
  write_created directory output sequence (false, disk) = (false, disk)
  write_created directory output sequence (true, disk) =
      write_opened output (fs.open_truncated directory (make_output_name sequence) disk)

  unfoldable pub write_output : String → RenderOutput → ℕ → F → Bool × F
  write_output directory output sequence disk =
      if is_writable output
      then write_created directory output sequence (fs.create_directories directory disk)
      else (false, disk)

  -- What handleOutput keeps of a dump, once it is written or was not.
  abbrev pub keep_written : ViewerFrameDumper → ℕ → Bool × F → Bool × ViewerFrameDumper × F
  keep_written d hash (false, disk) = (false, d, disk)
  keep_written d hash (true, disk) = (
    true,
    record d {
      last_dumped_hash = hash;
      has_last_dumped_hash = true;
      dumped_output_count = inc64 d.dumped_output_count;
    },
    disk,
  )

  unfoldable pub handle_output : RenderOutput → ViewerFrameDumper → F → Bool × ViewerFrameDumper × F
  handle_output output d disk =
      if not d.config.enabled
      then (true, record d { observed_non_cached_output = true }, disk)
      else if leb d.config.max_frames d.dumped_output_count
      then (true, d, disk)
      else if not (is_writable output)
      then (false, d, disk)
      else if d.has_last_dumped_hash && hash_output output == d.last_dumped_hash
      then (true, record d { skipped_duplicate_count = inc64 d.skipped_duplicate_count }, disk)
      else keep_written d (hash_output output)
          (write_output d.output_directory output (inc64 d.dumped_output_count) disk)

  -- The body of the loop in processNewOutputs.
  unfoldable pub process_output :
      RenderOutput → ViewerFrameDumper → F → Bool × ViewerFrameDumper × F
  process_output output d disk =
      if leb_ℤ output.render_timestamp d.last_processed_timestamp
      then (true, d, disk)
      else if not (has_rgb output) || (not d.config.enabled && output.cached)
      then (true, record d { last_processed_timestamp = output.render_timestamp }, disk)
      else handle_output output (record d { last_processed_timestamp = output.render_timestamp })
          disk

  -- The loop of processNewOutputs.
  unfoldable pub process_all :
      List RenderOutput → ViewerFrameDumper → F → Bool × ViewerFrameDumper × F
  process_all [] d disk = (true, d, disk)
  process_all (output ∷ outputs) d disk =
      let (ok, d', disk') = process_output output d disk in
      let later = process_all outputs d' disk' in if ok then later else (false, d', disk')

  unfoldable pub process_new_outputs :
      RenderOutputStore → ViewerFrameDumper → F → Bool × ViewerFrameDumper × F
  process_new_outputs store d disk = process_all (recent (u64_mod - 1) store) d disk

  -- waitForConfiguredOutputs: a round for each poll before the deadline, with the output store that it
  -- finds, and `on_tick` on the disk, where the session's log is.
  unfoldable pub wait_for_configured_outputs :
      (ViewerFrameDumper → F → F)
      → List RenderOutputStore
      → ViewerFrameDumper
      → F
      → Bool × ViewerFrameDumper × F
  wait_for_configured_outputs on_tick [] d disk = (false, d, disk)
  wait_for_configured_outputs on_tick (store ∷ stores) d disk =
      let (ok, d', disk') = process_new_outputs store d disk in
      let ticked = on_tick d' disk' in
      let later = wait_for_configured_outputs on_tick stores d' ticked in
      if not ok
      then (false, d', disk')
      else if has_configured_outputs d'
      then (true, d', ticked)
      else later
