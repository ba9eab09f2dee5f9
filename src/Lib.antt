-- ===== src/Lib.antt =====
-- WebRTC weak-network video demo: the parts that decide which video reaches the screen, and at which
-- rate it is sent. A sender numbers the packets of each frame and puts a sequence number for the whole
-- transport on them; a receiver gathers them into frames, lets whole frames through in order, asks for
-- missing packets again, and stops at a gap until a keyframe comes. The statistics of both sides feed an
-- estimator, and a controller chooses the profile of the video from its snapshots.
--
-- Files, and the code they are about:
--   Rtc            what the code takes from libdatachannel: header accessors on bytes, as a parameter,
--                  with the layout of the RFCs as its laws; `is_rtp`
--   Extension      the one-byte header extensions, read and rewritten in
--                  src/video/video_transport_handler.cpp and src/quality/media_statistics_handler.cpp
--   Transport      src/video/video_transport_handler.cpp: Metadata (add_frame_metadata,
--                  read_frame_metadata), State (the class and its setters), Sender (sender_outgoing),
--                  Gate (process_receiver_packet; Gate/Gathering has the packets of one frame in any
--                  order), Drain (drain_complete_frames), Nack (receiver_poll, send_nack), Receive
--                  (receiver_incoming, poll; Receive/Network joins the sender to the receiver,
--                  Receive/Resuming has what a receiver out of sync passes up),
--                  Reports (sender_incoming), Rtx (RtxReceivingHandler)
--   Statistics     src/quality/media_statistics_handler.cpp: Sequence (write_twcc_extension,
--                  read_twcc_sequence), Feedback (observe_twcc_extension, maybe_send_twcc_feedback),
--                  Observe (observe_twcc_feedback), Handler (incoming, outgoing and the walk over
--                  RTCP packets)
--   Video          Renderer (the queue of src/video/video_renderer.cpp, and
--                  src/video/h264_decoder.cpp), Drawing (render_loop), Idr and Receiver
--                  (src/video/video_receiver.cpp), Reader (src/video/video_file_reader.cpp), Handles
--                  (what the reader and the decoder allocate and free), Sender
--                  (src/video/video_sender.cpp)
--   CommandLine    src/main.cpp
--   Quality        src/quality/video_adaptation.cpp (Adaptation),
--                  src/quality/network_quality_estimator.cpp (Estimator), src/video/video_stats.cpp
--                  (ReceiveStats)
--   Chain          the chains of handlers of set_track (src/video/video_sender.cpp) and attach_track
--                  (src/video/video_receiver.cpp), and what passes them
--   Text           src/common/utils.cpp: split, hex_encode, hex_decode, parse_endpoint
--   Session        src/webrtc/webrtc_session.cpp: the signaling messages, Stats and Pacing (stats_loop
--                  of a sender), Udp (receive_loop of src/signaling/udp_signaling.cpp) and Life (the
--                  threads and the socket, from the constructor to the destructor)
--   Common         lists, maps, machine words and tests that the parts share
--   Tests          a concrete RTP library, packets, buffers, measurements and files
--
-- How the code is read: an object is a record, a call is a function from the record to the record, and
-- what it sends or calls back is a list of effects. `none` is a fault: an access that C++ leaves
-- undefined, or a loop without fuel. A std::map with integer keys is a list in the order of its keys. A
-- null message is `none`; a byte is a number; fixed-width counters wrap around by `%`. The clock is an
-- argument, one reading for each call of now_us(), and readings are not negative. Each call holds the
-- mutex, so calls follow one another (receiver_incoming lets go of it before it polls; no call of
-- another thread is put between).
--
-- Fuel: the walk over reports takes at least the size of a header from the message in each round, so
-- it gets one round more than there are bytes. The drain loop takes a frame out of the buffer in each
-- round, so it gets one round more than there are frames. Padding to a multiple of four takes at most
-- three rounds.
--
-- The loop over the status chunks of a feedback message takes at least one packet in each round, so it
-- gets one round more than there are packets. The loops of the file reader end on an input that is
-- finite: what is left of it falls in each round, or one of two flags is set.
--
-- A loop that runs in a thread is a function for one round, and a list or a relation for its rounds,
-- with what other threads do between them. FFmpeg and the decoder are parameters, as is the track.
--
-- SDL's and FFmpeg's calls for windows, textures and contexts are their results: whether they give
-- something. Drawing and Handles say what is acquired and released on each of these, and a thread in
-- Life is what the code tests and joins, with the flag that ends its loop.
--
-- Not modelled: what is input, output or a library: how a socket is bound and written, the picture
-- that SDL shows, the options of a codec, how threads take turns within a round, the description of the
-- media, what libdatachannel's own handlers do, the printing of the session, and the scripts.
pub mod Common
pub mod Text
pub mod Video
pub mod CommandLine
pub mod Rtc
pub mod Extension
pub mod Transport
pub mod Statistics
pub mod Quality
pub mod Chain
pub mod Session
pub mod Tests
