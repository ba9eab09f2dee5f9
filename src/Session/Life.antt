-- ===== src/Session/Life.antt =====
-- The threads of a session, from its constructor to its destructor: webrtc/webrtc_session.cpp, with the
-- methods that start and end threads in signaling/udp_signaling.cpp, video/video_sender.cpp,
-- video/video_receiver.cpp and video/video_renderer.cpp. `none` is a call that ends the process or
-- never returns: a `std::thread` is assigned to or destroyed while it is joinable, a thread is joined
-- whose loop was not told to stop, or an exception leaves the function of a thread. That a thread can
-- be launched at all is taken for granted.
pub mod Ending
use web_rtc_weak_network_vid.Common.{
  ◌>>=◌, ℕ, Bool, true, false, not, Option, none, some, List, [], ◌∷◌, if◌then◌else◌,
}
use web_rtc_weak_network_vid.Session.{Role, sender, receiver}

-- A `std::thread` member, and the flag that its loop tests.
pub record Thread : Type 0 where
  pub joinable : Bool
  pub stopping : Bool

unfoldable pub launch : Thread → Option Thread
launch t = if t.joinable then none else some (record t { joinable = true })

abbrev pub tell : Bool → Thread → Thread
tell b t = record t { stopping = b }

-- `if (thread.joinable()) thread.join()`
unfoldable pub join : Thread → Option Thread
join t =
    if not t.joinable
    then some t
    else if t.stopping
    then some (record t { joinable = false })
    else none

-- Set the flag and join.
unfoldable pub stop_thread : Thread → Option Thread
unfolding join
stop_thread t = join (tell true t)

-- The end of a member that has no code of its own for it.
unfoldable pub discard : Thread → Option Thread
discard t = if t.joinable then none else some t

-- `fd`: the socket is open.
pub record Session : Type 0 where
  pub fd : Bool
  pub signaling : Thread
  pub statistics : Thread
  pub sending : Thread
  pub recovery : Thread
  pub rendering : Thread

abbrev pub idle : Thread
idle = record { joinable = false; stopping = false }

abbrev pub no_session : Session
no_session = record {
  fd = false;
  signaling = idle;
  statistics = idle;
  sending = idle;
  recovery = idle;
  rendering = idle;
}

-- The results of the calls of the constructor of `UdpSignaling`, whether the constructors of
-- `H264Decoder` and `VideoFileReader`, and the opening of the output file, succeed, and whether
-- `setLocalDescription` in `run` does not throw.
pub record SetUp : Type 0 where
  pub socket_made : Bool
  pub local_parsed : Bool
  pub bound : Bool
  pub peer_parsed : Bool
  pub decoder_opens : Bool
  pub reader_opens : Bool
  pub output_opens : Bool
  pub description_set : Bool

-- `UdpSignaling::UdpSignaling`: the session with its socket, and whether it does not throw.
unfoldable pub open_socket : SetUp → Session → Session × Bool
open_socket calls s =
    if not calls.socket_made
    then (s, false)
    else (let opened = record s { fd = true } in
        if not calls.local_parsed
        then (opened, false)
        else if not calls.bound
        then (opened, false)
        else (opened, calls.peer_parsed))

unfoldable pub start_signaling : Session → Option Session
unfolding launch
start_signaling s = do t ← launch s.signaling; some (record s { signaling = t })

unfoldable pub stop_signaling : Session → Option Session
unfolding stop_thread
stop_signaling s = do t ← stop_thread s.signaling; some (record s { signaling = t })

-- `~UdpSignaling`
unfoldable pub end_signaling : Session → Option Session
unfolding stop_signaling
end_signaling s = do stopped ← stop_signaling s; some (record stopped { fd = false })

unfoldable pub start_sending : Session → Option Session
unfolding launch
start_sending s = do t ← launch (tell false s.sending); some (record s { sending = t })

unfoldable pub stop_sending : Session → Option Session
unfolding stop_thread
stop_sending s = do t ← stop_thread s.sending; some (record s { sending = t })

-- `VideoSender` has no destructor of its own.
unfoldable pub end_sending : Session → Option Session
unfolding discard
end_sending s = do t ← discard s.sending; some (record s { sending = t })

-- `start_display`, which is `VideoRenderer::start`.
unfoldable pub start_display : Session → Option Session
unfolding launch
start_display s = do t ← launch (tell false s.rendering); some (record s { rendering = t })

-- The end of `VideoReceiver::attach_track`.
unfoldable pub attach_track : Session → Option Session
unfolding launch
attach_track s =
    if s.recovery.joinable
    then some s
    else (do t ← launch (tell false s.recovery); some (record s { recovery = t }))

-- `~VideoReceiver`, with `VideoRenderer::stop`, and `~VideoRenderer`, which stops once more.
unfoldable pub end_receiver : Session → Option Session
unfolding stop_thread
end_receiver s = do
  recovered ← stop_thread s.recovery
  rendered ← stop_thread s.rendering
  again ← stop_thread rendered
  some (record s { recovery = recovered; rendering = again })

-- The members are destroyed, the last declared first.
unfoldable pub end_members : Session → Option Session
unfolding end_receiver end_sending end_signaling
end_members s = do received ← end_receiver s; sent ← end_sending received; end_signaling sent

-- `~WebRtcSession`
unfoldable pub end_session : Session → Option Session
unfolding stop_sending stop_signaling
end_session s = do
  let told = record s { statistics = tell true s.statistics }
  stopped ← stop_sending told
  quiet ← stop_signaling stopped
  end_members quiet

-- The body of the constructor of `WebRtcSession`, once its members are there.
unfoldable pub construct_body : Role → SetUp → Session → Option (Session × Bool)
unfolding start_display attach_track
construct_body sender calls s = some (s, calls.reader_opens)
construct_body receiver calls s = do
  shown ← start_display s
  if not calls.output_opens
      then some (shown, false)
      else (do attached ← attach_track shown; some (attached, true))

-- What happens to a session that runs: a track comes, the sender's track closes, the window is closed,
-- the peer connection is disconnected, fails or closes, or an exception leaves the function of a
-- thread, as in `send_loop` when FFmpeg fails.
pub data Happening : Type 0 where
  remote_track track_closed window_closed peer_gone thread_throws : Happening

unfoldable pub happen : Happening → Session → Option Session
unfolding attach_track
happen remote_track s = attach_track s
happen track_closed s = some (record s { sending = tell true s.sending })
happen window_closed s = some (record s { rendering = tell true s.rendering })
happen peer_gone s = some (record s { statistics = tell true s.statistics })
happen thread_throws s = none

unfoldable pub happen_all : List Happening → Session → Option Session
happen_all [] s = some s
happen_all (happening ∷ more) s = happen happening s >>= happen_all more

-- `run` up to the loop that waits for the end, with whether it does not throw; and from that loop on.
unfoldable pub run_start : Role → SetUp → Session → Option (Session × Bool)
unfolding start_signaling start_sending launch
run_start sender calls s = do
  signals ← start_signaling s
  if not calls.description_set then some (signals, false) else (do
    t ← launch signals.statistics
    sends ← start_sending (record signals { statistics = t })
    some (sends, true))
run_start receiver calls s = do
  signals ← start_signaling s
  t ← launch signals.statistics
  some (record signals { statistics = t }, true)

unfoldable pub run_end : Session → Option Session
unfolding stop_sending stop_signaling join
run_end s = do
  let told = record s { statistics = tell true s.statistics }
  stopped ← stop_sending told
  quiet ← stop_signaling stopped
  t ← join quiet.statistics
  some (record quiet { statistics = t })

-- `run` and the destructor, which follows an exception of `run` too: `main` catches it.
unfoldable pub serve : Role → SetUp → List Happening → Session → Option Session
serve role calls happenings built = do
  (running, whole) ← run_start role calls built
  if not whole
      then end_session running
      else (do later ← happen_all happenings running; ended ← run_end later; end_session ended)

-- The constructor once its socket is there, and what follows; where it throws, the members that are
-- there are destroyed.
unfoldable pub construct : Role → SetUp → List Happening → Session → Option Session
construct role calls happenings made =
    if not calls.decoder_opens then (do sent ← end_sending made; end_signaling sent) else (do
      (built, whole) ← construct_body role calls made
      if whole then serve role calls happenings built else end_members built)

-- The session of `main`, from the constructor to the destructor.
unfoldable pub session_life : Role → SetUp → List Happening → Option Session
unfolding construct
session_life role calls happenings =
    let (made, signals) = open_socket calls no_session in
    if signals then construct role calls happenings made else some made
