-- ===== src/Video/Drawing/Cleaning.antt =====
-- What the drawing thread acquires it releases, and each frame is drawn by what was made for it.
pub mod Steps
pub mod Rounds
use web_rtc_weak_network_vid.Common.{
  ℕ, ◌+◌, ◌≡◌, ◌⊎◌, inl, inr, refl, Bool, true, false, not, ◌&&◌, ◌||◌, Option, none, some, List,
  [], ◌∷◌, ◌++◌, arith, All, All-append, ◌==◌, if◌then◌else◌, Bool-cases, Option-cases,
}
use web_rtc_weak_network_vid.Video.Drawing.{
  Picture, Resource, window, renderer, texture, converter, yuv_frame, frame, Drawn, Event, acquire,
  release, set_window_size, draw, quit_sdl, Screen, no_screen, Turn, Outcome, went, broke, fault,
  open_window, renew_texture, renew_converter, renew_yuv, draw_picture, draw_renewed, is_other,
  draw_frame, render_round, clean_up, render_rounds, render_loop, release_if, release_when,
}

abbrev code : Resource → ℕ
code window = 0
code renderer = 1
code texture = 2
code converter = 3
code yuv_frame = 4
code frame = 5

abbrev pub one_if : Bool → ℕ
one_if true = 1
one_if false = 0

-- How often a resource is acquired, and how often it is released.
unfoldable pub acquired : Resource → List Event → ℕ
acquired k [] = 0
acquired k (acquire r ∷ events) = one_if (code r == code k) + acquired k events
acquired k (release r ∷ events) = acquired k events
acquired k (set_window_size w h ∷ events) = acquired k events
acquired k (draw d ∷ events) = acquired k events
acquired k (quit_sdl ∷ events) = acquired k events

unfoldable pub released : Resource → List Event → ℕ
released k [] = 0
released k (acquire r ∷ events) = released k events
released k (release r ∷ events) = one_if (code r == code k) + released k events
released k (set_window_size w h ∷ events) = released k events
released k (draw d ∷ events) = released k events
released k (quit_sdl ∷ events) = released k events

acquired-append :
    (k : Resource) (xs ys : List Event) → acquired k (xs ++ ys) ≡ acquired k xs + acquired k ys
unfolding acquired
acquired-append k [] ys = omega arith
acquired-append k (acquire r ∷ xs) ys = omega (arith, acquired-append k xs ys)
acquired-append k (release r ∷ xs) ys = acquired-append k xs ys
acquired-append k (set_window_size w h ∷ xs) ys = acquired-append k xs ys
acquired-append k (draw d ∷ xs) ys = acquired-append k xs ys
acquired-append k (quit_sdl ∷ xs) ys = acquired-append k xs ys

released-append :
    (k : Resource) (xs ys : List Event) → released k (xs ++ ys) ≡ released k xs + released k ys
unfolding released
released-append k [] ys = omega arith
released-append k (release r ∷ xs) ys = omega (arith, released-append k xs ys)
released-append k (acquire r ∷ xs) ys = released-append k xs ys
released-append k (set_window_size w h ∷ xs) ys = released-append k xs ys
released-append k (draw d ∷ xs) ys = released-append k xs ys
released-append k (quit_sdl ∷ xs) ys = released-append k xs ys

abbrev pub one_of {ℓ} : {A : Type ℓ} → Option A → ℕ
one_of none = 0
one_of (some a) = 1

-- What is held at the end of a round.
abbrev pub held : Resource → Screen → ℕ
held window s = one_if s.has_window
held renderer s = one_if s.has_renderer
held texture s = one_of s.texture_size
held converter s = one_of s.converter_for
held yuv_frame s = one_of s.yuv_size
held frame s = 0

-- The picture is drawn by what was made for it.
abbrev pub Fits : Event → Type 0
Fits (draw d) =
    (d.converter_for ≡ d.picture)
    × (d.target_size ≡ (d.picture.width, d.picture.height))
    × (d.rows ≡ d.picture.height)
    × (d.texture_size ≡ (d.picture.width, d.picture.height))
Fits (acquire r) = Unit
Fits (release r) = Unit
Fits (set_window_size w h) = Unit
Fits quit_sdl = Unit

-- From `s` to `s'` nothing is lost, and every drawing fits.
abbrev pub Balanced : Screen → List Event → Screen → Type 0
Balanced s events s' = (k : Resource) → acquired k events + held k s ≡ released k events + held k s'

-- Converter, buffer and texture are made for the size and the format in the variables.
pub record IsReady (s : Screen) : Type 0 where
  pub converts :
      s.converter_for
      ≡ some (record { width = s.width; height = s.height; format = s.source_format })
  pub buffers : s.yuv_size ≡ some (s.width, s.height)
  pub shows : s.texture_size ≡ some (s.width, s.height)

-- Between two rounds.
record IsScreen (s : Screen) : Type 0 where
  paired : s.has_renderer ≡ s.has_window
  ready : (s.has_window ≡ false) ⊎ IsReady s

-- The calls of FFmpeg and SDL that the code does not check give something.
abbrev pub Allocates : Turn → Type 0
Allocates turn = (turn.converter_made ≡ true) × (turn.yuv_made ≡ true) × (turn.texture_made ≡ true)

Balanced-trans :
    (s s' s'' : Screen) (first second : List Event)
    → Balanced s first s'
    → Balanced s' second s''
    → Balanced s (first ++ second) s''
Balanced-trans s s' s'' first second p q k =
    omega (arith, p k, q k, acquired-append k first second, released-append k first second)

-- A frame that is taken, drawn and freed.
Balanced-drawn :
    (s s' : Screen) (middle : List Event) (d : Drawn)
    → Balanced s middle s'
    → Balanced s ((acquire frame ∷ middle) ++ (draw d ∷ release frame ∷ [])) s'
unfolding acquired released
Balanced-drawn s s' middle d p k =
    let rest : List Event = draw d ∷ release frame ∷ [] in
    omega (arith, p k, acquired-append k middle rest, released-append k middle rest)

Balanced-freed :
    (s s' : Screen) (middle : List Event)
    → Balanced s middle s'
    → Balanced s (acquire frame ∷ (middle ++ (release frame ∷ []))) s'
unfolding acquired released
Balanced-freed s s' middle p k =
    let rest : List Event = release frame ∷ [] in
    omega (arith, p k, acquired-append k middle rest, released-append k middle rest)

-- What a round comes to.
Sound : Screen → Outcome → Type 0
Sound s result =
    ((s' : Screen) × (events : List Event) × (result ≡ went s' events)
      × Balanced s events s'
      × All Fits events
      × IsScreen s')
    ⊎ ((s' : Screen) × (events : List Event) × (result ≡ broke s' events)
        × Balanced s events s'
        × All Fits events)
