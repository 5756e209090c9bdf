-- ===== src/Streaming/RenderServer.antt =====
-- src/streaming/src/streaming/RenderServer.cpp: a client's requests. The accept loop around it serves one
-- client after the other.
pub mod Reading
pub mod Poses
use edge_vision.Prelude.{
  ℕ, zero, suc, ◌+◌, ◌-◌, ◌*◌, ◌/◌, ◌%◌, ℤ, pos, negsuc, Bool, String, true, false, not, ◌&&◌, ◌||◌,
  List, [], ◌∷◌, ◌++◌, map, Option, none, some, length, drop, leb, ltb, ◌==◌, to_u64, u64_mod,
  Float32, if◌then◌else◌,
}
use edge_vision.Config.Parser.{codes}
use edge_vision.Model.Scene.Shared.{Result, ok, throws}
use edge_vision.Model.Viewer.PoseStore.{entry}
use edge_vision.Streaming.{Json, Socket, FloatMath, ◌>>=◌}
use edge_vision.Streaming.PoseUpdate.{get_floats}
use edge_vision.Viewer.Pipeline.{zero_bytes}

pub record RenderPoseRequest : Type 0 where
  pub fx : Float32
  pub fy : Float32
  pub cx : Float32
  pub cy : Float32
  pub width : ℤ
  pub height : ℤ
  pub pose : List Float32
  pub minimal : Bool

module _ {K : Type 0} ⦃net : Socket K⦄ where
  abbrev pub prepend : List ℕ → Result (List ℕ × K) → Result (List ℕ × K)
  prepend bytes (throws message) = throws message
  prepend bytes (ok (rest, k)) = ok (bytes ++ rest, k)

  -- The loop of readExact; a round reads a byte at least, so as many rounds as bytes are enough.
  unfoldable pub read_loop : ℕ → ℕ → K → Result (List ℕ × K)
  read_loop zero len k = if len == 0 then ok ([], k) else throws "fuel"
  read_loop (suc fuel) len k =
      let next =
        λ (bytes : List ℕ) (j : K). prepend bytes (read_loop fuel (len - length bytes) j) in
      if len == 0 then ok ([], k) else elim ((net.read len k).0) [
        | none ↦ throws "read: peer closed"
        | some bytes ↦ next bytes (net.read len k).1
      ]

  unfoldable pub read_exact : ℕ → K → Result (List ℕ × K)
  unfolding read_loop
  read_exact len k = read_loop len len k

  -- The loop of writeExact, likewise.
  unfoldable pub write_loop : ℕ → List ℕ → K → Result K
  write_loop zero bytes k = if length bytes == 0 then ok k else throws "fuel"
  write_loop (suc fuel) bytes k =
      let next = λ (n : ℕ) (j : K). write_loop fuel (drop n bytes) j in
      if length bytes == 0 then ok k else elim ((net.write bytes k).0) [
        | none ↦ throws "write failed"
        | some n ↦ next n (net.write bytes k).1
      ]

  unfoldable pub write_exact : List ℕ → K → Result K
  unfolding write_loop
  write_exact bytes k = write_loop (length bytes) bytes k

  -- Several writes, one after the other.
  unfoldable pub write_all : List (List ℕ) → K → Result K
  unfolding write_exact
  write_all [] k = ok k
  write_all (bytes ∷ rest) k = write_exact bytes k >>= λ j. write_all rest j

-- The four bytes of a std::uint32_t, the lowest first, and back.
abbrev pub u32_bytes : ℕ → List ℕ
u32_bytes n = n % 256 ∷ n / 256 % 256 ∷ n / 65536 % 256 ∷ n / 16777216 % 256 ∷ []

abbrev pub u32_of : List ℕ → ℕ
u32_of bytes = byte 0 + (byte 1 * 256 + (byte 2 * 65536 + byte 3 * 16777216))
  where
    byte : ℕ → ℕ
    byte i = entry bytes i

abbrev pub sixteen : List ℕ
sixteen = 0 ∷ 1 ∷ 2 ∷ 3 ∷ 4 ∷ 5 ∷ 6 ∷ 7 ∷ 8 ∷ 9 ∷ 10 ∷ 11 ∷ 12 ∷ 13 ∷ 14 ∷ 15 ∷ []

-- The loops that write col[c * 4 + r] = values[r * 4 + c], each index once; and those that write back.
unfoldable pub transposed : List Float32 → List Float32
transposed values = map (λ i. entry values (i % 4 * 4 + i / 4)) sixteen

-- -1.0f
abbrev pub minus_one : Float32
minus_one = 3212836864

-- The loop that negates the columns 1 and 2.
unfoldable pub columns_negated : FloatMath → List Float32 → List Float32
columns_negated fl col =
    map (λ i. if leb 4 i && ltb i 12 then fl.mul (entry col i) minus_one else entry col i) sixteen

unfoldable pub convert_pose : FloatMath → List Float32 → List Float32
convert_pose fl values = transposed (columns_negated fl (transposed values))

-- 2.0f
abbrev pub two : Float32
two = 1073741824

abbrev pub checked_pose : FloatMath → List Float32 → Result (List Float32)
checked_pose fl values =
    if length values == 16
    then ok (convert_pose fl values)
    else throws "pose must have exactly 16 floats"

module _ {J : Type 0} ⦃json : Json J⦄ where
  abbrev pub float_field : String → J → Result Float32
  float_field key message = json.at key message >>= λ j. json.get_float j

  abbrev pub bool_field : String → J → Result Bool
  bool_field key message = json.at key message >>= λ j. json.get_bool j

  abbrev pub minimal_field : J → Result Bool
  minimal_field message =
      if json.contains "minimal" message then bool_field "minimal" message else ok false

  -- get<std::vector<float>>.
  abbrev pub float_vector : J → Result (List Float32)
  float_vector j =
      if json.is_array j then get_floats (json.elements j) else throws "type must be array"

  -- parseRequest from the parsed message on.
  unfoldable pub request_of : FloatMath → J → Result RenderPoseRequest
  unfolding convert_pose get_floats
  request_of fl message = do
    res_x ← float_field "resolution_x" message
    res_y ← float_field "resolution_y" message
    fov_x ← float_field "fov_x" message
    fov_y ← float_field "fov_y" message
    minimal ← minimal_field message
    j ← json.at "pose" message
    values ← float_vector j
    pose ← checked_pose fl values
    ok (record {
      fx = fl.div res_x (fl.mul two (fl.tan (fl.div fov_x two)));
      fy = fl.div res_y (fl.mul two (fl.tan (fl.div fov_y two)));
      cx = fl.div res_x two;
      cy = fl.div res_y two;
      width = fl.to_int res_x;
      height = fl.to_int res_y;
      pose = pose;
      minimal = minimal;
    })

  abbrev pub parsed : FloatMath → Option J → Result RenderPoseRequest
  parsed fl none = throws "parse error"
  parsed fl (some message) = request_of fl message

-- sendTrailers: the identity rotation (with 1.0f), the translation, the info string and the pose.
unfoldable pub trailers : RenderPoseRequest → List (List ℕ)
trailers request =
    floats (one ∷ 0 ∷ 0 ∷ 0 ∷ one ∷ 0 ∷ 0 ∷ 0 ∷ one ∷ [])
    ∷ floats (entry request.pose 3 ∷ entry request.pose 7 ∷ entry request.pose 11 ∷ [])
    ∷ u32_bytes 10
    ∷ codes "edgevision"
    ∷ floats request.pose
    ∷ []
  where
    one : Float32
    one = 1065353216

    floats : List Float32 → List ℕ
    floats [] = []
    floats (x ∷ xs) = u32_bytes x ++ floats xs

abbrev pub jpeg_parts : RenderPoseRequest → List ℕ → List (List ℕ)
jpeg_parts request jpeg =
    u32_bytes (to_u64 request.width)
    ∷ u32_bytes (to_u64 request.height)
    ∷ u32_bytes (length jpeg)
    ∷ jpeg
    ∷ []

-- What a round of handleClient writes.
unfoldable pub response : RenderPoseRequest → List ℕ → List (List ℕ)
unfolding trailers
response request jpeg =
    let parts = jpeg_parts request jpeg in
    parts ++ ((if request.minimal then [] else parts ++ (parts ++ parts)) ++ trailers request)

-- The size of the pixels, width * height * 3. The first product is an int in the code, where an overflow
-- is undefined; here it is that of 64 bits.
abbrev pub byte_count : RenderPoseRequest → ℕ
byte_count request = to_u64 request.width * to_u64 request.height * 3 % u64_mod

module _ {K : Type 0} ⦃net : Socket K⦄ where
  abbrev pub read_text : ℕ → K → Result (List ℕ × K)
  read_text size k = if ltb 1048576 size then throws "json too large" else read_exact size k

module _ {K : Type 0} (J : Type 0) ⦃json : Json J⦄ ⦃net : Socket K⦄ where
  unfoldable pub parse_request : FloatMath → K → Result (RenderPoseRequest × K)
  unfolding read_exact
  parse_request fl k = do
    (size, k1) ← read_exact 4 k
    (text, k2) ← read_text (u32_of size) k1
    request ← parsed fl (json.parse text)
    ok (request, k2)

  -- A round of handleClient: `render` is what the callback makes of the zeroed pixels, `encode` the JPEG of them.
  unfoldable pub serve_request :
      FloatMath
      → (RenderPoseRequest → List ℕ → List ℕ)
      → (RenderPoseRequest → List ℕ → List ℕ)
      → K
      → Result K
  unfolding parse_request write_all
  serve_request fl render encode k = do
    (request, k1) ← parse_request fl k
    write_all (response request (encode request (render request (zero_bytes (byte_count request)))))
        k1
