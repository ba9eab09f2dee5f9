-- ===== src/Video/Renderer.antt =====
-- video/video_renderer.cpp: the queue between the decoder and the thread that draws, and
-- video/h264_decoder.cpp: the pictures that a decoder submits to it.
pub mod Refinement
use web_rtc_weak_network_vid.Common.{
  ℕ, ◌≡◌, Bool, true, false, not, Option, none, some, List, [], ◌∷◌, ◌++◌, leb, if◌then◌else◌,
  length,
}

abbrev pub max_queued_frames : ℕ
max_queued_frames = 3

-- A frame that `avcodec_receive_frame` gives: is it corrupt, and the clone that is made of it.
pub record Received (F : Type 0) : Type 0 where
  pub corrupt : Bool
  pub clone : Option F

module _ {F : Type 0} where
  -- `while (frames_.size() >= kMaxQueuedFrames) pop_front()`
  unfoldable pub evict_oldest : List F → List F
  evict_oldest [] = []
  evict_oldest (frame ∷ frames) =
      let rest = evict_oldest frames in
      if leb max_queued_frames (length (frame ∷ frames)) then rest else frame ∷ frames

  -- `submit`: the argument is what `av_frame_clone` returns.
  unfoldable pub submit : Option F → List F → List F
  submit none frames = frames
  submit (some copy) frames = evict_oldest frames ++ (copy ∷ [])

  -- What `render_loop` takes from the queue in a round, and the queue behind it.
  unfoldable pub next_frame : List F → Option F × List F
  next_frame [] = (none, [])
  next_frame (frame ∷ frames) = (some frame, frames)

  unfoldable pub clear_queue : List F → List F
  clear_queue [] = []
  clear_queue (frame ∷ frames) = clear_queue frames

  -- The loop of `H264Decoder::decode`: `rendered`, and the queue.
  unfoldable pub decode_loop : List (Received F) → Bool → List F → Bool × List F
  decode_loop [] rendered frames = (rendered, frames)
  decode_loop (received ∷ others) rendered frames =
      if received.corrupt
      then decode_loop others rendered frames
      else decode_loop others true (submit received.clone frames)

  -- `H264Decoder::decode`: whether the packet was made and sent, and what comes out of the decoder.
  unfoldable pub decode : Bool → List (Received F) → List F → Bool × List F
  decode sent received frames = if sent then decode_loop received false frames else (false, frames)

  -- The renderer in use: the frames given to it, those shown, and its queue.
  pub data Rendering : List F → List F → List F → Type 0 where
    started : Rendering [] [] []
    submitted :
        {given shown queue : List F} (frame : F)
        → Rendering given shown queue
        → Rendering (given ++ (frame ∷ [])) shown (submit (some frame) queue)
    drawn :
        {given shown queue : List F} (frame : F)
        → Rendering given shown (frame ∷ queue)
        → Rendering given (shown ++ (frame ∷ [])) (next_frame (frame ∷ queue)).1
    cleared :
        {given shown queue : List F}
        → Rendering given shown queue
        → Rendering given shown (clear_queue queue)
