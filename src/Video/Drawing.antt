-- ===== src/Video/Drawing.antt =====
-- video/video_renderer.cpp: `render_loop`, over what SDL and FFmpeg return. A round is one turn of the
-- loop, with the frame that it takes from the queue; the rounds end when a stop is requested. `fault`
-- is a call on a pointer that is null.
pub mod Cleaning
use web_rtc_weak_network_vid.Common.{
  ℕ, Bool, true, false, not, ◌&&◌, ◌||◌, Option, none, some, List, [], ◌∷◌, ◌++◌, ◌==◌,
  if◌then◌else◌,
}

-- An `AVFrame`, by what the loop reads of it. Formats are counted from 1, and 0 is AV_PIX_FMT_NONE.
pub record Picture : Type 0 where
  pub width : ℕ
  pub height : ℕ
  pub format : ℕ

pub data Resource : Type 0 where
  window renderer texture converter yuv_frame frame : Resource

-- What is used to draw a picture: the size of the texture, what the converter was made for, the size of the frame that it writes to, and the rows that it is told of.
pub record Drawn : Type 0 where
  pub picture : Picture
  pub texture_size : ℕ × ℕ
  pub converter_for : Picture
  pub target_size : ℕ × ℕ
  pub rows : ℕ

pub data Event : Type 0 where
  acquire release : Resource → Event
  set_window_size : ℕ → ℕ → Event
  draw : Drawn → Event
  quit_sdl : Event

-- The local variables; a handle by what it was made for, `none` if it is null.
pub record Screen : Type 0 where
  pub has_window : Bool
  pub has_renderer : Bool
  pub texture_size : Option (ℕ × ℕ)
  pub converter_for : Option Picture
  pub yuv_size : Option (ℕ × ℕ)
  pub width : ℕ
  pub height : ℕ
  pub source_format : ℕ

abbrev pub no_screen : Screen
no_screen = record {
  has_window = false;
  has_renderer = false;
  texture_size = none;
  converter_for = none;
  yuv_size = none;
  width = 0;
  height = 0;
  source_format = 0;
}

-- What a round takes from the queue, and whether each of the calls gives something.
pub record Turn : Type 0 where
  pub taken : Option Picture
  pub window_made : Bool
  pub renderer_made : Bool
  pub texture_made : Bool
  pub converter_made : Bool
  pub yuv_made : Bool

pub data Outcome : Type 0 where
  went broke : Screen → List Event → Outcome
  fault : Outcome

abbrev pub release_if {ℓ} : {A : Type ℓ} → Option A → Resource → List Event
release_if none resource = []
release_if (some a) resource = release resource ∷ []

abbrev pub release_when : Bool → Resource → List Event
release_when true resource = release resource ∷ []
release_when false resource = []

-- `if (!window) … else SDL_SetWindowSize(…)`
unfoldable pub open_window : Turn → Screen → Screen × List Event
open_window turn s =
    if s.has_window
    then (s, set_window_size s.width s.height ∷ [])
    else if not turn.window_made
    then (record s { has_window = false; has_renderer = false }, [])
    else if turn.renderer_made
    then (
      record s { has_window = true; has_renderer = true },
      acquire window ∷ acquire renderer ∷ [],
    )
    else (record s { has_window = true; has_renderer = false }, acquire window ∷ [])

unfoldable pub renew_texture : Turn → Screen → Screen × List Event
renew_texture turn s =
    if turn.texture_made
    then (
      record s { texture_size = some (s.width, s.height) },
      release_if s.texture_size texture ++ (acquire texture ∷ []),
    )
    else (record s { texture_size = none }, release_if s.texture_size texture)

unfoldable pub renew_converter : Turn → Screen → Screen × List Event
renew_converter turn s =
    if turn.converter_made
    then (
      record s {
        converter_for =
            some (record { width = s.width; height = s.height; format = s.source_format });
      },
      release_if s.converter_for converter ++ (acquire converter ∷ []),
    )
    else (record s { converter_for = none }, release_if s.converter_for converter)

-- `none` if the frame is not allocated: its fields are written all the same.
unfoldable pub renew_yuv : Turn → Screen → Option (Screen × List Event)
renew_yuv turn s =
    if turn.yuv_made
    then some (
      record s { yuv_size = some (s.width, s.height) },
      release_if s.yuv_size yuv_frame ++ (acquire yuv_frame ∷ []),
    )
    else none

-- From `av_frame_make_writable` on: frame, converter and texture are passed on as they are.
unfoldable pub draw_picture : Picture → Screen → List Event → Outcome
draw_picture picture s before = elim s.converter_for [
  | none ↦ fault
  | some made_for ↦ elim s.yuv_size [
    | none ↦ fault
    | some size ↦ elim s.texture_size [
      | none ↦ fault
      | some texture_size ↦ went s (
          before
          ++ (draw (record {
            picture = picture;
            texture_size = texture_size;
            converter_for = made_for;
            target_size = size;
            rows = s.height;
          })
              ∷ release frame
              ∷ []))
    ]
  ]
]

-- The window is there; the rest is made anew.
unfoldable pub draw_renewed : Turn → Picture → Screen → List Event → Outcome
draw_renewed turn picture s before =
    let (textured, first) = renew_texture turn s in
    let (converted, second) = renew_converter turn textured in
    elim (renew_yuv turn converted) [
      | none ↦ fault
      | some (ready, third) ↦ draw_picture picture ready (before ++ (first ++ (second ++ third)))
    ]

abbrev pub is_other : Picture → Screen → Bool
is_other picture s =
    not s.has_window
    || not (s.width == picture.width)
    || not (s.height == picture.height)
    || not (s.source_format == picture.format)

unfoldable pub draw_frame : Turn → Picture → Screen → Outcome
draw_frame turn picture s =
    if is_other picture s
    then (let (opened, first) = open_window turn (record s {
      width = picture.width;
      height = picture.height;
      source_format = picture.format;
    }) in
        if opened.has_window && opened.has_renderer
        then draw_renewed turn picture opened (acquire frame ∷ first)
        else broke opened (acquire frame ∷ (first ++ (release frame ∷ []))))
    else draw_picture picture s (acquire frame ∷ [])

unfoldable pub render_round : Turn → Screen → Outcome
render_round turn s = elim turn.taken [
  | none ↦ went s []
  | some picture ↦ draw_frame turn picture s
]

-- Behind the loop.
unfoldable pub clean_up : Screen → List Event
clean_up s =
    release_if s.yuv_size yuv_frame
    ++ (release_if s.converter_for converter
        ++ (release_if s.texture_size texture
            ++ (release_when s.has_renderer renderer
                ++ (release_when s.has_window window ++ (quit_sdl ∷ [])))))

-- The rounds up to the stop, and what follows them.
unfoldable pub render_rounds : List Turn → Screen → Option (List Event)
render_rounds [] s = some (clean_up s)
render_rounds (turn ∷ turns) s = elim (render_round turn s) [
  | fault ↦ none
  | broke s' events ↦ some (events ++ clean_up s')
  | went s' events ↦ elim (render_rounds turns s') [
    | none ↦ none
    | some later ↦ some (events ++ later)
  ]
]

-- `render_loop`; the first argument says whether `SDL_Init` succeeds.
unfoldable pub render_loop : Bool → List Turn → Option (List Event)
render_loop initialised turns = if initialised then render_rounds turns no_screen else some []
