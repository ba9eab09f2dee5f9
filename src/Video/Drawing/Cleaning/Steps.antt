-- ===== src/Video/Drawing/Cleaning/Steps.antt =====
-- Each step of a round: opening the window, making the rest anew, drawing.
use web_rtc_weak_network_vid.Common.{◌≡◌, refl, true, some, List, [], ◌∷◌, ◌++◌, arith, All}
use web_rtc_weak_network_vid.Video.Drawing.{
  Picture, window, renderer, texture, converter, yuv_frame, frame, Drawn, Event, acquire, release,
  draw, Screen, Turn, went, open_window, renew_texture, renew_converter, renew_yuv, draw_picture,
  draw_renewed, release_if,
}
use web_rtc_weak_network_vid.Video.Drawing.Cleaning.{acquired, released, Balanced, Fits, IsReady}

pub open_window_lem :
    (turn : Turn) (s : Screen)
    → s.has_renderer ≡ s.has_window
    → Balanced s (open_window turn s).1 (open_window turn s).0
unfolding open_window acquired released
open_window_lem turn s both window = ground arith
open_window_lem turn s both renderer = ground arith
open_window_lem turn s both texture = ground arith
open_window_lem turn s both converter = ground arith
open_window_lem turn s both yuv_frame = ground arith
open_window_lem turn s both frame = ground arith

pub renew_texture_lem :
    (turn : Turn) (s : Screen) → Balanced s (renew_texture turn s).1 (renew_texture turn s).0
unfolding renew_texture acquired released
renew_texture_lem turn s window = ground arith
renew_texture_lem turn s renderer = ground arith
renew_texture_lem turn s texture = ground arith
renew_texture_lem turn s converter = ground arith
renew_texture_lem turn s yuv_frame = ground arith
renew_texture_lem turn s frame = ground arith

pub renew_converter_lem :
    (turn : Turn) (s : Screen) → Balanced s (renew_converter turn s).1 (renew_converter turn s).0
unfolding renew_converter acquired released
renew_converter_lem turn s window = ground arith
renew_converter_lem turn s renderer = ground arith
renew_converter_lem turn s texture = ground arith
renew_converter_lem turn s converter = ground arith
renew_converter_lem turn s yuv_frame = ground arith
renew_converter_lem turn s frame = ground arith

pub renewed_yuv : Screen → Screen × List Event
renewed_yuv s = (
  record s { yuv_size = some (s.width, s.height) },
  release_if s.yuv_size yuv_frame ++ (acquire yuv_frame ∷ []),
)

pub renew_yuv_lem :
    (turn : Turn) (s : Screen)
    → turn.yuv_made ≡ true
    → (renew_yuv turn s ≡ some (renewed_yuv s)) × Balanced s (renewed_yuv s).1 (renewed_yuv s).0
unfolding renew_yuv renewed_yuv acquired released
renew_yuv_lem turn s made = (
  ground (arith, made),
  elim [
    | window ↦ ground arith
    | renderer ↦ ground arith
    | texture ↦ ground arith
    | converter ↦ ground arith
    | yuv_frame ↦ ground arith
    | frame ↦ ground arith
  ],
)

-- A picture of the size and the format in the variables.
pub record Shown (picture : Picture) (s : Screen) : Type 0 where
  pub same_width : s.width ≡ picture.width
  pub same_height : s.height ≡ picture.height
  pub same_format : s.source_format ≡ picture.format

abbrev pub drawing : Picture → Screen → Drawn
drawing picture s = record {
  picture = picture;
  texture_size = (s.width, s.height);
  converter_for = record { width = s.width; height = s.height; format = s.source_format };
  target_size = (s.width, s.height);
  rows = s.height;
}

pub draw_picture_lem :
    (picture : Picture) (s : Screen) (before : List Event)
    → IsReady s
    → Shown picture s
    → (draw_picture picture s before
        ≡ went s (before ++ (draw (drawing picture s) ∷ release frame ∷ [])))
      × Fits (draw (drawing picture s))
unfolding draw_picture
draw_picture_lem picture s before v same = (
  ground (arith, v.converts, v.buffers, v.shows),
  (
    ground (arith, same.same_width, same.same_height, same.same_format),
    ground (arith, same.same_width, same.same_height),
    same.same_height,
    ground (arith, same.same_width, same.same_height),
  ),
)

pub open_window-Fits : (turn : Turn) (s : Screen) → All Fits (open_window turn s).1
unfolding open_window
open_window-Fits turn s = ground arith

pub renew-Fits :
    (turn : Turn) (s : Screen)
    → All Fits (renew_texture turn s).1
      × All Fits (renew_converter turn s).1
      × All Fits (renewed_yuv s).1
unfolding renew_texture renew_converter renewed_yuv
renew-Fits turn s = (ground arith, ground arith, ground arith)

-- The screen after all has been made anew, for a turn that allocates.
abbrev pub renewed : Turn → Screen → Screen
renewed turn s = (renewed_yuv (renew_converter turn (renew_texture turn s).0).0).0

abbrev pub renewed_events : Turn → Screen → List Event
renewed_events turn s =
    (renew_texture turn s).1
    ++ ((renew_converter turn (renew_texture turn s).0).1
        ++ (renewed_yuv (renew_converter turn (renew_texture turn s).0).0).1)

pub renewed-IsReady :
    (turn : Turn) (s : Screen) (picture : Picture)
    → turn.converter_made ≡ true
    → turn.texture_made ≡ true
    → Shown picture s
    → IsReady (renewed turn s)
      × Shown picture (renewed turn s)
      × ((renewed turn s).has_window ≡ s.has_window)
      × ((renewed turn s).has_renderer ≡ s.has_renderer)
unfolding renew_texture renew_converter renewed_yuv
renewed-IsReady turn s picture made textured same = (
  record {
    converts = ground (arith, made);
    buffers = ground (arith, made);
    shows = ground (arith, made, textured);
  },
  record {
    same_width = ground (arith, same.same_width);
    same_height = ground (arith, same.same_height);
    same_format = ground (arith, same.same_format);
  },
  ground arith,
  ground arith,
)

pub draw_renewed_lem :
    (turn : Turn) (picture : Picture) (s : Screen) (before : List Event)
    → turn.yuv_made ≡ true
    → draw_renewed turn picture s before
      ≡ draw_picture picture (renewed turn s) (before ++ renewed_events turn s)
unfolding draw_renewed
draw_renewed_lem turn picture s before made =
    rw ((renew_yuv_lem turn (renew_converter turn (renew_texture turn s).0).0 made).0, draw_renewed)
      refl
