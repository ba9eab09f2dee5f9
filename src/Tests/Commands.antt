-- ===== src/Tests/Commands.antt =====
-- A command line for a receiver.
use web_rtc_weak_network_vid.Common.{ℕ, Option, some, none, List, [], ◌∷◌}
use web_rtc_weak_network_vid.CommandLine.{
  main, role_option, receiver_value, local_option, peer_option, max_video_kbps_option,
}
use web_rtc_weak_network_vid.CommandLine.Ranges.{IsSound, main-IsSound}

abbrev one_digit : List ℕ → Option ℕ
one_digit [] = none
one_digit (c ∷ text) = some c

-- "--role receiver --local 1:9 --peer 2:9", and a limit on the bitrate.
abbrev arguments : List (List ℕ)
arguments =
    role_option
    ∷ receiver_value
    ∷ local_option
    ∷ (49 ∷ 58 ∷ 57 ∷ [])
    ∷ peer_option
    ∷ (50 ∷ 58 ∷ 57 ∷ [])
    ∷ max_video_kbps_option
    ∷ (200 ∷ [])
    ∷ []

main-IsSound_example : IsSound (main one_digit one_digit arguments)
main-IsSound_example = main-IsSound one_digit one_digit arguments
