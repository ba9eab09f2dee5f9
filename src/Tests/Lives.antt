-- ===== src/Tests/Lives.antt =====
-- A reader of a file, a drawing loop and a session, each from its start to its end.
use web_rtc_weak_network_vid.Common.{ℕ, ◌≡◌, refl, true, false, none, some, List, [], ◌∷◌, All}
use web_rtc_weak_network_vid.Video.Drawing
use web_rtc_weak_network_vid.Video.Handles
use web_rtc_weak_network_vid.Video.Drawing.{Picture, Event, Turn, render_loop}
use web_rtc_weak_network_vid.Video.Drawing.Cleaning.{acquired, released, Fits}
use web_rtc_weak_network_vid.Video.Drawing.Cleaning.Rounds.{render_loop-Fits}
use web_rtc_weak_network_vid.Video.Handles.{
  no_handles, OpenCalls, open_reader, close_reader, EncoderCalls, ReaderStep, configures, converts,
  encodes, reads, gives_packet, asks_again, resets, reader_steps, allocate, open_decoder,
}
use web_rtc_weak_network_vid.Video.Handles.Ownership.{IsOpen, IsEncoderReady}
use web_rtc_weak_network_vid.Video.Handles.Ownership.Life.{reader_steps-IsOwned}
use web_rtc_weak_network_vid.Session.{receiver}
use web_rtc_weak_network_vid.Session.Life.{Session, SetUp, remote_track, peer_gone, session_life}
use web_rtc_weak_network_vid.Session.Life.Ending.{IsQuiet, IsCaught, leaks, session_life-IsQuiet}

abbrev turn_of : ℕ → ℕ → Turn
turn_of width height = record {
  taken = some (record { width = width; height = height; format = 1 });
  window_made = true;
  renderer_made = true;
  texture_made = true;
  converter_made = true;
  yuv_made = true;
}

-- Two pictures of one size, a wait, and one of another size.
abbrev turns : List Turn
turns =
    turn_of 640 360
    ∷ turn_of 640 360
    ∷ record (turn_of 640 360) { taken = none }
    ∷ turn_of 426 240
    ∷ []

render_loop-Fits_example :
    (events : List Event) × (render_loop true turns ≡ some events)
    × ((k : Drawing.Resource) → acquired k events ≡ released k events)
    × All Fits events
render_loop-Fits_example =
    render_loop-Fits true turns
      ((refl, refl, refl), ((refl, refl, refl), ((refl, refl, refl), ((refl, refl, refl), tt))))

abbrev opening : OpenCalls
opening = record {
  opens = true;
  has_stream_info = true;
  has_video_stream = true;
  decoder_found = true;
  decoder_allocated = true;
  parameters_copied = true;
  decoder_opens = true;
  frame_allocated = true;
}

abbrev encoding : EncoderCalls
encoding = record {
  encoder_found = true;
  encoder_allocated = true;
  encoder_opens = true;
  scaled_allocated = true;
  has_buffer = true;
}

-- The encoder is made, used, made again, and then does not open.
abbrev steps : List ReaderStep
steps =
    configures encoding
    ∷ reads true true true
    ∷ converts true
    ∷ encodes true asks_again
    ∷ encodes true gives_packet
    ∷ reads true false true
    ∷ resets opening
    ∷ configures (record encoding { encoder_opens = false })
    ∷ []

reader_steps-IsOwned_example :
    ((reader_steps steps (open_reader opening no_handles).0).1 ≡ true
      → IsOpen (reader_steps steps (open_reader opening no_handles).0).0)
    × IsEncoderReady (reader_steps steps (open_reader opening no_handles).0).0
    × ((k : Handles.Resource)
        → (close_reader (reader_steps steps (open_reader opening no_handles).0).0).allocated k
          ≡ (close_reader (reader_steps steps (open_reader opening no_handles).0).0).freed k)
unfolding open_reader open_decoder allocate
reader_steps-IsOwned_example = reader_steps-IsOwned opening steps refl

-- A receiver that is set up without an error.
abbrev set_up : SetUp
set_up = record {
  socket_made = true;
  local_parsed = true;
  bound = true;
  peer_parsed = true;
  decoder_opens = true;
  reader_opens = true;
  output_opens = true;
  description_set = true;
}

session_life-IsQuiet_example :
    (s : Session) × (session_life receiver set_up (remote_track ∷ peer_gone ∷ []) ≡ some s)
    × IsQuiet s
    × (s.fd ≡ leaks set_up)
unfolding IsCaught
session_life-IsQuiet_example =
    session_life-IsQuiet receiver set_up (remote_track ∷ peer_gone ∷ []) (tt, (tt, tt))
