-- ===== src/Video/Drawing/Cleaning/Rounds.antt =====
-- The rounds of the drawing loop, from the first to what follows the last.
use web_rtc_weak_network_vid.Common.{
  ◌+◌, ◌≡◌, ◌∙◌, inl, inr, refl, sym, Bool, true, false, ◌&&◌, Option, some, List, [], ◌∷◌, ◌++◌,
  arith, All, All-append, Bool-cases, Option-cases,
}
use web_rtc_weak_network_vid.Video.Drawing.{
  Picture, Resource, window, renderer, texture, converter, yuv_frame, frame, Event, acquire,
  release, draw, Screen, no_screen, Turn, open_window, renew_texture, renew_converter, draw_renewed,
  is_other, draw_frame, render_round, clean_up, render_rounds, render_loop,
}
use web_rtc_weak_network_vid.Video.Drawing.Cleaning.{
  acquired, released, acquired-append, released-append, held, Fits, Balanced, IsScreen, Allocates,
  Balanced-trans, Balanced-drawn, Balanced-freed, Sound,
}
use web_rtc_weak_network_vid.Video.Drawing.Cleaning.Steps.{
  open_window_lem, renew_texture_lem, renew_converter_lem, renew_yuv_lem, Shown, drawing,
  draw_picture_lem, open_window-Fits, renew-Fits, renewed, renewed_events, renewed-IsReady,
  draw_renewed_lem,
}

abbrev sized : Picture → Screen → Screen
sized picture s = record s {
  width = picture.width;
  height = picture.height;
  source_format = picture.format;
}

sized_held :
    (picture : Picture) (s s' : Screen) (events : List Event)
    → Balanced (sized picture s) events s'
    → Balanced s events s'
sized_held picture s s' events p window = p window
sized_held picture s s' events p renderer = p renderer
sized_held picture s s' events p texture = p texture
sized_held picture s s' events p converter = p converter
sized_held picture s s' events p yuv_frame = p yuv_frame
sized_held picture s s' events p frame = p frame

open_window-Shown :
    (turn : Turn) (picture : Picture) (s : Screen)
    → Shown picture s
    → Shown picture (open_window turn s).0
unfolding open_window
open_window-Shown turn picture s same =
    ground (arith, same.same_width, same.same_height, same.same_format)

module _ (turn : Turn) (picture : Picture) (made : Allocates turn) where
  renewed_events_fit : (s : Screen) → All Fits (renewed_events turn s)
  renewed_events_fit s =
      let textured = (renew_texture turn s).0 in
      let converted = (renew_converter turn textured).0 in
      All-append Fits (renew_texture turn s).1 _ (renew-Fits turn s).0 (
        All-append Fits (renew_converter turn textured).1 _ (renew-Fits turn textured).1
          (renew-Fits turn converted).2)

  -- The window is there: all else is made anew.
  renewed-Sound :
      (s : Screen) (first : List Event)
      → s.has_window ≡ true
      → s.has_renderer ≡ true
      → Shown picture s
      → All Fits first
      → (start : Screen) → Balanced start first s
      → Sound start (draw_renewed turn picture s (acquire frame ∷ first))
  unfolding Sound
  renewed-Sound s first opened drawable same fits start balanced =
      let (ready, shown, w, r) = renewed-IsReady turn s picture made.0 made.2 same in
      let after = renewed turn s in
      let textured = (renew_texture turn s).0 in
      let converted = (renew_converter turn textured).0 in
      let (e, fit) =
        draw_picture_lem picture after (acquire frame ∷ (first ++ renewed_events turn s)) ready
          shown in
      let renewing : Balanced s (renewed_events turn s) after =
        Balanced-trans s textured after (renew_texture turn s).1 _ (renew_texture_lem turn s) (
          Balanced-trans textured converted after (renew_converter turn textured).1 _
            (renew_converter_lem turn textured) (renew_yuv_lem turn converted made.1).1) in
      inl (
        after,
        (acquire frame ∷ (first ++ renewed_events turn s))
            ++ (draw (drawing picture after) ∷ release frame ∷ []),
        draw_renewed_lem turn picture s (acquire frame ∷ first) made.1 ∙ e,
        Balanced-drawn start after (first ++ renewed_events turn s) (drawing picture after)
            (Balanced-trans start s after first (renewed_events turn s) balanced renewing),
        (
          tt,
          All-append Fits (first ++ renewed_events turn s) _
              (All-append Fits first (renewed_events turn s) fits (renewed_events_fit s))
              (fit, (tt, tt)),
        ),
        record { paired = r ∙ drawable ∙ sym opened ∙ sym w; ready = inr ready },
      )

  draw_other :
      (s : Screen) → is_other picture s ≡ true → IsScreen s → Sound s (draw_frame turn picture s)
  unfolding draw_frame Sound
  draw_other s other v =
      let start = sized picture s in
      let opened = (open_window turn start).0 in
      let first = (open_window turn start).1 in
      let balanced = sized_held picture s opened first (open_window_lem turn start v.paired) in
      let fits = open_window-Fits turn start in
      elim (Bool-cases (opened.has_window && opened.has_renderer)) [
        | inl both ↦
            rw (other, both, draw_frame)
              (renewed-Sound opened first (ground (arith, both)) (ground (arith, both))
                (open_window-Shown turn picture start
                  (record { same_width = refl; same_height = refl; same_format = refl }))
                fits s balanced)
        | inr lacks ↦ inr (
          opened,
          acquire frame ∷ (first ++ (release frame ∷ [])),
          rw (other, lacks, draw_frame) refl,
          Balanced-freed s opened first balanced,
          (tt, All-append Fits first _ fits (tt, tt)),
        )
      ]

  draw_same :
      (s : Screen) → is_other picture s ≡ false → IsScreen s → Sound s (draw_frame turn picture s)
  unfolding draw_frame Sound acquired released
  draw_same s same v =
      let shown : Shown picture s = record {
        same_width = ground (arith, same);
        same_height = ground (arith, same);
        same_format = ground (arith, same);
      } in
      elim v.ready [
        | inl closed ↦ absurd (ground (arith, same, closed))
        | inr ready ↦
            let (e, fit) = draw_picture_lem picture s (acquire frame ∷ []) ready shown in
            inl (
              s,
              acquire frame ∷ draw (drawing picture s) ∷ release frame ∷ [],
              rw (same, draw_frame) e,
              λ k. omega arith,
              (tt, (fit, (tt, tt))),
              v,
            )
      ]

  draw_frame-Sound : (s : Screen) → IsScreen s → Sound s (draw_frame turn picture s)
  draw_frame-Sound s v = elim (Bool-cases (is_other picture s)) [
    | inl other ↦ draw_other s other v
    | inr same ↦ draw_same s same v
  ]

render_round-Sound :
    (turn : Turn) (s : Screen) → Allocates turn → IsScreen s → Sound s (render_round turn s)
unfolding render_round Sound acquired released
render_round-Sound turn s made v = elim (Option-cases turn.taken) [
  | inl waits ↦ inl (s, [], rw (waits, render_round) refl, λ k. refl, tt, v)
  | inr (picture, takes) ↦ rw (takes, render_round) (draw_frame-Sound turn picture made s v)
]

-- What stays held is released behind the loop, and nothing is drawn there.
clean_up_lem :
    (s : Screen)
    → ((k : Resource) → acquired k (clean_up s) + held k s ≡ released k (clean_up s))
      × All Fits (clean_up s)
unfolding clean_up acquired released
clean_up_lem s = (
  elim [
    | window ↦ ground arith
    | renderer ↦ ground arith
    | texture ↦ ground arith
    | converter ↦ ground arith
    | yuv_frame ↦ ground arith
    | frame ↦ ground arith
  ],
  ground arith,
)

-- All that is acquired is released, and each picture is drawn by what was made for it.
abbrev Clean : Screen → Option (List Event) → Type 0
Clean s result =
    (events : List Event) × (result ≡ some events)
    × ((k : Resource) → acquired k events + held k s ≡ released k events)
    × All Fits events

Clean-trans :
    (s s' : Screen) (first second : List Event)
    → Balanced s first s'
    → ((k : Resource) → acquired k second + held k s' ≡ released k second)
    → (k : Resource) → acquired k (first ++ second) + held k s ≡ released k (first ++ second)
Clean-trans s s' first second p q k =
    omega (arith, p k, q k, acquired-append k first second, released-append k first second)

render_rounds-Clean :
    (turns : List Turn) (s : Screen)
    → All Allocates turns
    → IsScreen s
    → Clean s (render_rounds turns s)
unfolding render_rounds Sound
render_rounds-Clean [] s made v =
    let (balanced, fits) = clean_up_lem s in (clean_up s, refl, balanced, fits)
render_rounds-Clean (turn ∷ turns) s made v = elim (render_round-Sound turn s made.0 v) [
  | inl (s', events, e, balanced, fits, w) ↦
      let (later, e', balanced', fits') = render_rounds-Clean turns s' made.1 w in
      (
        events ++ later,
        rw (e, e', render_rounds) refl,
        Clean-trans s s' events later balanced balanced',
        All-append Fits events later fits fits',
      )
  | inr (s', events, e, balanced, fits) ↦
      let (balanced', fits') = clean_up_lem s' in
      (
        events ++ clean_up s',
        rw (e, render_rounds) refl,
        Clean-trans s s' events (clean_up s') balanced balanced',
        All-append Fits events (clean_up s') fits fits',
      )
]

no_screen-IsScreen : IsScreen no_screen
no_screen-IsScreen = record { paired = refl; ready = inl refl }

nothing_held : (k : Resource) → held k no_screen ≡ 0
nothing_held window = refl
nothing_held renderer = refl
nothing_held texture = refl
nothing_held converter = refl
nothing_held yuv_frame = refl
nothing_held frame = refl

-- Whatever pictures the drawing loop takes, and whether or not SDL starts and gives a window and a
-- renderer: if SDL gives textures and FFmpeg converters and buffers, then the loop ends without
-- passing a null texture, converter or frame to a call that draws or converts, each resource is
-- released as often as it is acquired, the frames taken from the queue too, and each picture is drawn
-- with a converter for its size and format, a buffer of its size, as many rows as it has, and a
-- texture of its size.
pub render_loop-Fits :
    (initialised : Bool) (turns : List Turn)
    → All Allocates turns
    → (events : List Event) × (render_loop initialised turns ≡ some events)
      × ((k : Resource) → acquired k events ≡ released k events)
      × All Fits events
unfolding render_loop acquired released
render_loop-Fits false turns made = ([], refl, λ k. refl, tt)
render_loop-Fits true turns made =
    let (events, e, balanced, fits) = render_rounds-Clean turns no_screen made no_screen-IsScreen in
    (events, e, λ k. omega (arith, balanced k, nothing_held k), fits)
