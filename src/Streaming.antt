-- ===== src/Streaming.antt =====
-- src/streaming: the signalling of the WebRTC server, the pose messages, and the TCP render server. JSON,
-- sockets, JPEG and the functions on floats are libraries', and enter as the interfaces below.
pub mod Signalling
pub mod PoseUpdate
pub mod RenderServer
pub mod VideoPush
pub mod IceFilter
pub mod WebRtcServer
use edge_vision.Prelude.{
  ℕ, ◌≤◌, ◌<◌, ◌≡◌, ℤ, Bool, String, List, ◌++◌, Option, some, Float32, length,
}
use edge_vision.Model.Scene.Shared.{Result, ok, throws}

-- nlohmann::json over its values J. `parse` fails by an exception that the callers catch, which is
-- none here; the others throw what the library documents: a value that is no object, a missing
-- key, or a value of another type.
pub record Json (J : Type 0) : Type 0 where
  pub parse : List ℕ → Option J
  pub text_value : String → String → J → Result String
  pub contains : String → J → Bool
  pub at : String → J → Result J
  pub get_float : J → Result Float32
  pub get_bool : J → Result Bool
  pub is_array : J → Bool
  pub elements : J → List J

-- A connected socket over its state K. A read gives the next bytes of what is still to come, at
-- least one and at most as many as asked, or none at the end and on an error; a write takes some of the
-- bytes, or none on an error.
pub record Socket (K : Type 0) : Type 0 where
  pub incoming : K → List ℕ
  pub read : ℕ → K → Option (List ℕ) × K
  pub write : List ℕ → K → Option ℕ × K
  pub read_next :
      (n : ℕ) (k : K) {bytes : List ℕ} {k' : K}
      → read n k ≡ (some bytes, k')
      → (incoming k ≡ bytes ++ incoming k') × (0 < length bytes) × (length bytes ≤ n)

-- The machine's functions on floats.
pub record FloatMath : Type 0 where
  pub mul : Float32 → Float32 → Float32
  pub div : Float32 → Float32 → Float32
  pub tan : Float32 → Float32
  pub to_int : Float32 → ℤ

infixl 1 ◌>>=◌
abbrev pub ◌>>=◌ : {A B : Type 0} → Result A → (A → Result B) → Result B
throws message >>= f = throws message
ok a >>= f = f a
