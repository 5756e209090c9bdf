-- ===== src/Lib.antt =====
-- EdgeVision: a model of the reconstruction pipeline and its shared stores, with theorems.
--
-- A camera thread captures and checks frames and submits them to a frame store. A builder thread
-- takes them from the store's ready queue, integrates each into the shared scene under the scene's
-- write access, publishes the scene's next version and records it. A viewer reads poses from a pose
-- store and publishes its renderings to an output store, from where a debug run dumps them to files and
-- the servers stream them; a client's pose messages arrive over the signalled connection. The
-- command line sets all of it up.
--
-- Files, with the sources they model:
--   Prelude       lists, maps, Boolean tests, machine words, binary32 patterns
--   Config        src/config/include/config/types, and in Config/Parser
--                 src/config/src/CommandLineParser.cpp (parseCommandLine)
--   Model/Frame   src/model/src/frame: FrameStore with FrameValidator, FrameHistory,
--                 FrameLifecycleTracker and ReadyFrameQueue
--   Model/Scene   src/model/src/scene: SharedScene, SceneAccess, SceneAccessLease, SharedSceneState,
--                 SceneVersionStore, SceneVersionHistory
--   Model/Viewer  src/model/src/viewer: ViewerPoseStore, RenderOutputStore
--   Capture       src/capture/src: CameraCapture, K4aConfig, K4aFrameBuilder with its validators,
--                 aligner, assembler and handles, FrameIngestor, FrameIngestorRunner
--   Builder       src/builder/src: SceneBuilder, InfiniTamPipeline, InfiniTamViewConverter (in
--                 Builder/View), SceneBuilderRunner
--   Viewer        src/viewer/src: InfiniTamViewerPipeline, SceneViewer, SceneViewerRunner
--   App           src/app/src/runtime: ViewerPoseSeeder, ViewerFrameDumper, ViewerDebugSession
--   Streaming     src/streaming/webrtc/src: SignallingHandler, PoseUpdateHandler, the session of
--                 WebRtcServer, the filter of its candidates (IceFilter) and its video pump (VideoPush);
--                 src/streaming/src/streaming: RenderServer
--   Witnesses     the theorems at concrete inputs
--
-- A class is a record of its fields; a method is a function from the state before to the state after
-- and the result, under the method's name in snake_case. A method that holds a mutex is one step. Where
-- a method waits or leaves the mutex in between, its parts are steps of their own, and the threads are
-- sequences of events (Model/Frame/Store/Interleaving.antt, Model/Scene/Shared/Threads.antt). A wait
-- is a step that is possible once its condition holds; times are arguments.
--
-- Numbers: std::size_t and std::uint64_t are natural numbers with increments modulo 2 ^ 64; an int is
-- an integer, which no modelled operation takes out of its range. A float is its binary32 pattern;
-- sums and products of floats are a parameter. The eviction loop runs on fuel, as many rounds as frames
-- are stored, and so does the trimming of the version store; a round takes one element away.
--
-- Parameters: the blocking circular buffer under the ready queue (RingBuffer, with what it documents),
-- the camera SDK (K4aInterface), InfiniTAM (InfiniTam, Visualisation), the disk (FileSystem), the
-- machine's arithmetic on floats and doubles (FloatArith, RateArith, FloatMath), JSON (Json) and sockets
-- (Socket). A loop that reads or writes exactly n bytes runs on n rounds of fuel, as each moves a byte.
--
-- Not modelled: GStreamer itself and the code that only prepares its calls (PipelineBuilder, pads, media
-- line names, logging), the callback of local candidates,
-- the accept loop and the JPEG encoder of the render server, main, and the printing of doubles
-- in the debug log.
pub mod Prelude
pub mod Config
pub mod Model
pub mod Capture
pub mod Builder
pub mod Viewer
pub mod App
pub mod Streaming
pub mod Witnesses
