-- ===== src/Session/Life/Ending.antt =====
-- Every thread of a session ends, and is joined before its member is destroyed.
use web_rtc_weak_network_vid.Common.{
  ◌≡◌, ◌∙◌, sym, ap, refl, Bool, true, false, not, ◌&&◌, Option, some, List, [], ◌∷◌, arith, All,
  Bool-cases, inl, inr, ◌⊎◌,
}
use web_rtc_weak_network_vid.Session.{Role, sender, receiver}
use web_rtc_weak_network_vid.Session.Life.{
  Thread, tell, stop_thread, discard, Session, no_session, SetUp, open_socket, stop_signaling,
  end_signaling, stop_sending, end_sending, attach_track, end_members, end_session, construct_body,
  Happening, remote_track, track_closed, window_closed, peer_gone, thread_throws, happen,
  happen_all, run_start, run_end, serve, construct, serve, construct, session_life,
}

stop_thread_lem : (t : Thread) → stop_thread t ≡ some (record { joinable = false; stopping = true })
unfolding stop_thread
stop_thread_lem t = ground arith

-- No thread is left.
pub record IsQuiet (s : Session) : Type 0 where
  pub no_signaling : s.signaling.joinable ≡ false
  pub no_statistics : s.statistics.joinable ≡ false
  pub no_sending : s.sending.joinable ≡ false
  pub no_recovery : s.recovery.joinable ≡ false
  pub no_rendering : s.rendering.joinable ≡ false

-- Whatever the state, these return.
end_members_lem :
    (s : Session)
    → s.sending.joinable ≡ false
    → (s' : Session) × (end_members s ≡ some s')
      × (s'.fd ≡ false)
      × (s'.signaling.joinable ≡ false)
      × (s'.statistics ≡ s.statistics)
      × (s'.sending.joinable ≡ false)
      × (s'.recovery.joinable ≡ false)
      × (s'.rendering.joinable ≡ false)
unfolding end_members discard
end_members_lem s silent =
    let ended : Thread = record { joinable = false; stopping = true } in
    (
      record s { fd = false; signaling = ended; recovery = ended; rendering = ended },
      simp (stop_thread_lem, silent),
      refl,
      refl,
      refl,
      silent,
      refl,
      refl,
    )

run_end_lem :
    (s : Session) → (s' : Session) × (run_end s ≡ some s') × (s'.statistics.joinable ≡ false)
unfolding run_end stop_sending stop_signaling
run_end_lem s =
    let ended : Thread = record { joinable = false; stopping = true } in
    (
      record s { signaling = ended; statistics = ended; sending = ended },
      simp stop_thread_lem,
      refl,
    )

end_session_lem :
    (s : Session)
    → s.statistics.joinable ≡ false
    → (s' : Session) × (end_session s ≡ some s') × IsQuiet s' × (s'.fd ≡ false)
unfolding end_session stop_sending stop_signaling
end_session_lem s counted =
    let ended : Thread = record { joinable = false; stopping = true } in
    let quiet = record s {
      statistics = tell true s.statistics;
      sending = ended;
      signaling = ended;
    } in
    let (s', e, closed, a, b, c, d, f) = end_members_lem quiet refl in
    (
      s',
      simp stop_thread_lem e,
      record {
        no_signaling = a;
        no_statistics = ap (λ (t : Thread). t.joinable) b ∙ counted;
        no_sending = c;
        no_recovery = d;
        no_rendering = f;
      },
      closed,
    )

attach_track_lem : (s : Session) → (s' : Session) × (attach_track s ≡ some s')
unfolding attach_track
attach_track_lem s = elim (Bool-cases s.recovery.joinable) [
  | inl there ↦ (s, rw (there, attach_track) refl)
  | inr new ↦ (
    record s { recovery = record { joinable = true; stopping = false } },
    rw (new, attach_track) refl,
  )
]

-- No exception leaves the function of a thread.
unfoldable pub IsCaught : Happening → Type 0
IsCaught remote_track = Unit
IsCaught track_closed = Unit
IsCaught window_closed = Unit
IsCaught peer_gone = Unit
IsCaught thread_throws = ⊥

happen_all_lem :
    (happenings : List Happening) (s : Session)
    → All IsCaught happenings
    → (s' : Session) × (happen_all happenings s ≡ some s')
unfolding happen_all happen IsCaught
happen_all_lem [] s caught = (s, refl)
happen_all_lem (remote_track ∷ more) s caught =
    let (attached, e) = attach_track_lem s in
    let (s', f) = happen_all_lem more attached caught.1 in (s', rw e f)
happen_all_lem (track_closed ∷ more) s caught =
    happen_all_lem more (record s { sending = tell true s.sending }) caught.1
happen_all_lem (window_closed ∷ more) s caught =
    happen_all_lem more (record s { rendering = tell true s.rendering }) caught.1
happen_all_lem (peer_gone ∷ more) s caught =
    happen_all_lem more (record s { statistics = tell true s.statistics }) caught.1
happen_all_lem (thread_throws ∷ more) s caught = absurd caught.0

-- The constructor leaves a session whose `run` may start its threads.
record IsBuilt (s : Session) : Type 0 where
  no_signaling : s.signaling.joinable ≡ false
  no_statistics : s.statistics.joinable ≡ false
  no_sending : s.sending.joinable ≡ false

-- Where it throws, the thread of the statistics was not started.
run_start_lem :
    (role : Role) (calls : SetUp) (s : Session)
    → IsBuilt s
    → (s' : Session) × (whole : Bool) × (run_start role calls s ≡ some (s', whole))
      × ((whole ≡ true) ⊎ ((whole ≡ false) × (s'.statistics.joinable ≡ false)))
unfolding run_start
run_start_lem sender calls s v = elim (Bool-cases calls.description_set) [
  | inl set ↦ (
    record s {
      signaling = record (s.signaling) { joinable = true };
      statistics = record (s.statistics) { joinable = true };
      sending = record { joinable = true; stopping = false };
    },
    true,
    ground (arith, set, v.no_signaling, v.no_statistics, v.no_sending),
    inl refl,
  )
  | inr thrown ↦ (
    record s { signaling = record (s.signaling) { joinable = true } },
    false,
    ground (arith, thrown, v.no_signaling),
    inr (refl, v.no_statistics),
  )
]
run_start_lem receiver calls s v = (
  record s {
    signaling = record (s.signaling) { joinable = true };
    statistics = record (s.statistics) { joinable = true };
  },
  true,
  ground (arith, v.no_signaling, v.no_statistics),
  inl refl,
)

Built : Option (Session × Bool) → Bool → Type 0
Built result fd =
    (s' : Session) × (whole : Bool) × (result ≡ some (s', whole)) × IsBuilt s' × (s'.fd ≡ fd)

construct_body_lem :
    (role : Role) (calls : SetUp) (fd : Bool)
    → Built (construct_body role calls (record no_session { fd = fd })) fd
unfolding construct_body Built
construct_body_lem sender calls fd = (
  record no_session { fd = fd },
  calls.reader_opens,
  refl,
  record { no_signaling = refl; no_statistics = refl; no_sending = refl },
  refl,
)
construct_body_lem receiver calls fd =
    let rendered = record no_session {
      fd = fd;
      rendering = record { joinable = true; stopping = false };
    } in
    elim (Bool-cases calls.output_opens) [
      | inl opens ↦ (
        record rendered { recovery = record { joinable = true; stopping = false } },
        true,
        rw (opens, construct_body) refl,
        record { no_signaling = refl; no_statistics = refl; no_sending = refl },
        refl,
      )
      | inr closed ↦ (
        rendered,
        false,
        rw (closed, construct_body) refl,
        record { no_signaling = refl; no_statistics = refl; no_sending = refl },
        refl,
      )
    ]

-- The constructor of the signaling leaves its socket open if it throws behind `socket`.
unfoldable pub leaks : SetUp → Bool
leaks calls = calls.socket_made && not (calls.local_parsed && calls.bound && calls.peer_parsed)

open_socket_lem :
    (calls : SetUp)
    → (open_socket calls no_session ≡ (record no_session { fd = leaks calls }, false))
      ⊎ ((open_socket calls no_session ≡ (record no_session { fd = true }, true))
          × (leaks calls ≡ false))
unfolding open_socket leaks
open_socket_lem calls = ground arith

-- What a session comes to, with its socket closed.
Ended : Option Session → Type 0
Ended result = (s : Session) × (result ≡ some s) × IsQuiet s × (s.fd ≡ false)

serve-Ended :
    (role : Role) (calls : SetUp) (happenings : List Happening) (s : Session)
    → All IsCaught happenings
    → IsBuilt s
    → Ended (serve role calls happenings s)
unfolding serve Ended
serve-Ended role calls happenings s caught v =
    let (running, whole, a, ran) = run_start_lem role calls s v in
    elim ran [
      | inl fine ↦
          let (later, b) = happen_all_lem happenings running caught in
          let (ended, c, counted) = run_end_lem later in
          let (last, d, quiet, closed) = end_session_lem ended counted in
          (last, simp (a, fine, b, c) d, quiet, closed)
      | inr (thrown, counted) ↦
          let (last, d, quiet, closed) = end_session_lem running counted in
          (last, simp (a, thrown) d, quiet, closed)
    ]

construct-Ended :
    (role : Role) (calls : SetUp) (happenings : List Happening)
    → All IsCaught happenings
    → Ended (construct role calls happenings (record no_session { fd = true }))
unfolding construct Ended Built
construct-Ended role calls happenings caught = elim (Bool-cases calls.decoder_opens) [
  | inr closed ↦ (
    record no_session { signaling = record { joinable = false; stopping = true } },
    rw (closed, construct) (unfold end_sending end_signaling in refl),
    record {
      no_signaling = refl;
      no_statistics = refl;
      no_sending = refl;
      no_recovery = refl;
      no_rendering = refl;
    },
    refl,
  )
  | inl opens ↦
      let (built, whole, e, v, fd) = construct_body_lem role calls true in
      elim (Bool-cases whole) [
        | inl fine ↦
            let (last, f, quiet, closed) = serve-Ended role calls happenings built caught v in
            (last, simp (opens, e, fine) f, quiet, closed)
        | inr thrown ↦
            let (last, f, closed, a, b, c, d, g) = end_members_lem built v.no_sending in
            (
              last,
              simp (opens, e, thrown) f,
              record {
                no_signaling = a;
                no_statistics = ap (λ (t : Thread). t.joinable) b ∙ v.no_statistics;
                no_sending = c;
                no_recovery = d;
                no_rendering = g;
              },
              closed,
            )
      ]
]

-- If no exception leaves the function of a thread: whichever role a session has, whichever of the calls
-- of its constructor fail, whether or not `run` throws where it sets the local description, and
-- whatever tracks come and close, the window and the peer connection do meanwhile, no `std::thread` is
-- assigned to or destroyed while it is joinable, no thread is joined that was not told to stop, and at
-- the end no thread is left. The socket is closed, unless the constructor of the signaling throws
-- after it has opened it.
pub session_life-IsQuiet :
    (role : Role) (calls : SetUp) (happenings : List Happening)
    → All IsCaught happenings
    → (s : Session) × (session_life role calls happenings ≡ some s)
      × IsQuiet s
      × (s.fd ≡ leaks calls)
unfolding session_life Ended
session_life-IsQuiet role calls happenings caught = elim (open_socket_lem calls) [
  | inl thrown ↦ (
    record no_session { fd = leaks calls },
    rw (thrown, session_life) refl,
    record {
      no_signaling = refl;
      no_statistics = refl;
      no_sending = refl;
      no_recovery = refl;
      no_rendering = refl;
    },
    refl,
  )
  | inr (e, kept) ↦
      let (s, f, quiet, closed) = construct-Ended role calls happenings caught in
      (s, rw (e, session_life) f, quiet, closed ∙ sym kept)
]
