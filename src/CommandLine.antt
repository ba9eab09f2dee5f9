-- ===== src/CommandLine.antt =====
-- main.cpp: the command line. A text is the list of its bytes, as in common/utils.cpp.
pub mod Ranges
use web_rtc_weak_network_vid.Common.{
  ℕ, Bool, true, false, not, ◌&&◌, ◌||◌, Option, none, some, List, [], ◌∷◌, ltb, if◌then◌else◌,
}
use web_rtc_weak_network_vid.Text.{Endpoint, parse_endpoint}
use web_rtc_weak_network_vid.Session.{Role, same_text}

-- "--role"
abbrev pub role_option : List ℕ
role_option = 45 ∷ 45 ∷ 114 ∷ 111 ∷ 108 ∷ 101 ∷ []

-- "--local"
abbrev pub local_option : List ℕ
local_option = 45 ∷ 45 ∷ 108 ∷ 111 ∷ 99 ∷ 97 ∷ 108 ∷ []

-- "--peer"
abbrev pub peer_option : List ℕ
peer_option = 45 ∷ 45 ∷ 112 ∷ 101 ∷ 101 ∷ 114 ∷ []

-- "--video-file"
abbrev pub video_file_option : List ℕ
video_file_option = 45 ∷ 45 ∷ 118 ∷ 105 ∷ 100 ∷ 101 ∷ 111 ∷ 45 ∷ 102 ∷ 105 ∷ 108 ∷ 101 ∷ []

-- "--output-file"
abbrev pub output_file_option : List ℕ
output_file_option = 45 ∷ 45 ∷ 111 ∷ 117 ∷ 116 ∷ 112 ∷ 117 ∷ 116 ∷ 45 ∷ 102 ∷ 105 ∷ 108 ∷ 101 ∷ []

-- "--max-video-kbps"
abbrev pub max_video_kbps_option : List ℕ
max_video_kbps_option =
    45 ∷ 45 ∷ 109 ∷ 97 ∷ 120 ∷ 45 ∷ 118 ∷ 105 ∷ 100 ∷ 101 ∷ 111 ∷ 45 ∷ 107 ∷ 98 ∷ 112 ∷ 115 ∷ []

-- "--recovery-timeout-ms"
abbrev pub recovery_timeout_ms_option : List ℕ
recovery_timeout_ms_option =
    45 ∷ 45 ∷ 114 ∷ 101 ∷ 99 ∷ 111 ∷ 118 ∷ 101 ∷ 114 ∷ 121 ∷ 45 ∷ 116 ∷ 105 ∷ 109 ∷ 101 ∷ 111 ∷ 117
    ∷ 116 ∷ 45 ∷ 109 ∷ 115 ∷ []

-- "--help"
abbrev pub help_option : List ℕ
help_option = 45 ∷ 45 ∷ 104 ∷ 101 ∷ 108 ∷ 112 ∷ []

-- "-h"
abbrev pub short_help_option : List ℕ
short_help_option = 45 ∷ 104 ∷ []

-- "sender"
abbrev pub sender_value : List ℕ
sender_value = 115 ∷ 101 ∷ 110 ∷ 100 ∷ 101 ∷ 114 ∷ []

-- "receiver"
abbrev pub receiver_value : List ℕ
receiver_value = 114 ∷ 101 ∷ 99 ∷ 101 ∷ 105 ∷ 118 ∷ 101 ∷ 114 ∷ []

-- "received.h264"
abbrev pub default_output_file : List ℕ
default_output_file = 114 ∷ 101 ∷ 99 ∷ 101 ∷ 105 ∷ 118 ∷ 101 ∷ 100 ∷ 46 ∷ 104 ∷ 50 ∷ 54 ∷ 52 ∷ []

-- The variables of `main`.
pub record Settings : Type 0 where
  pub role : Option Role
  pub local : Option Endpoint
  pub peer : Option Endpoint
  pub video_file : List ℕ
  pub output_file : List ℕ
  pub max_video_kbps : ℕ
  pub recovery_timeout_ms : ℕ

unfoldable pub default_settings : Settings
default_settings = record {
  role = none;
  local = none;
  peer = none;
  video_file = [];
  output_file = default_output_file;
  max_video_kbps = 2000;
  recovery_timeout_ms = 1000;
}

-- What `main` does: it starts a session, prints the usage and returns, or catches an exception and
-- returns 1.
pub data Command : Type 0 where
  start_session : Role → Endpoint → Endpoint → Settings → Command
  print_usage : ℕ → Command
  fatal : Command

-- Behind the loop over the arguments.
unfoldable pub start : Option Role → Option Endpoint → Option Endpoint → Settings → Command
start none local peer s = print_usage 1
start (some role) none peer s = print_usage 1
start (some role) (some local) none s = print_usage 1
start (some Role.sender) (some local) (some peer) s = elim s.video_file [
  | [] ↦ fatal
  | c ∷ text ↦ start_session Role.sender local peer s
]
start (some Role.receiver) (some local) (some peer) s = start_session Role.receiver local peer s

abbrev pub is_outside : ℕ → ℕ → ℕ → Bool
is_outside low high n = ltb n low || ltb high n

-- The options that take a value.
pub data CommandOption : Type 0 where
  role_arg local_arg peer_arg video_file_arg output_file_arg max_video_kbps_arg
        recovery_timeout_ms_arg unknown_arg :
      CommandOption

-- The tests of the chain of `else if`.
unfoldable pub option_of : List ℕ → CommandOption
option_of arg =
    if same_text arg role_option
    then role_arg
    else if same_text arg local_option
    then local_arg
    else if same_text arg peer_option
    then peer_arg
    else if same_text arg video_file_option
    then video_file_arg
    else if same_text arg output_file_option
    then output_file_arg
    else if same_text arg max_video_kbps_option
    then max_video_kbps_arg
    else if same_text arg recovery_timeout_ms_option
    then recovery_timeout_ms_arg
    else unknown_arg

-- The standard library's `stoul` and `stoi`: `none` is an exception, and of `stoi` also a negative
-- number, which is below both ranges and so ends in an exception too.
module _ (stoul stoi : List ℕ → Option ℕ) where
  -- An option with its value: the settings after it, if it is known and its value is allowed.
  unfoldable pub set_option : CommandOption → List ℕ → Settings → Option Settings
  set_option role_arg value s =
      if same_text value sender_value
      then some (record s { role = some Role.sender })
      else if same_text value receiver_value
      then some (record s { role = some Role.receiver })
      else none
  set_option local_arg value s = elim (parse_endpoint stoul value) [
    | none ↦ none
    | some endpoint ↦ some (record s { local = some endpoint })
  ]
  set_option peer_arg value s = elim (parse_endpoint stoul value) [
    | none ↦ none
    | some endpoint ↦ some (record s { peer = some endpoint })
  ]
  set_option video_file_arg value s = some (record s { video_file = value })
  set_option output_file_arg value s = some (record s { output_file = value })
  set_option max_video_kbps_arg value s = elim (stoi value) [
    | none ↦ none
    | some kbps ↦
        if is_outside 150 2000 kbps then none else some (record s { max_video_kbps = kbps })
  ]
  set_option recovery_timeout_ms_arg value s = elim (stoi value) [
    | none ↦ none
    | some ms ↦
        if is_outside 100 1000 ms then none else some (record s { recovery_timeout_ms = ms })
  ]
  set_option unknown_arg value s = none

  abbrev pub is_help : List ℕ → Bool
  is_help arg = same_text arg help_option || same_text arg short_help_option

  -- The loop over what is left of `argv`. No option with a value is a request for help.
  unfoldable pub read_arguments : List (List ℕ) → Settings → Command
  unfolding set_option start
  read_arguments [] s = start s.role s.local s.peer s
  read_arguments (arg ∷ []) s = if is_help arg then print_usage 0 else fatal
  read_arguments (arg ∷ value ∷ rest) s =
      if is_help arg then print_usage 0 else elim (set_option (option_of arg) value s) [
        | none ↦ fatal
        | some set ↦ read_arguments rest set
      ]

  -- `main`, on the arguments behind the name of the program.
  unfoldable pub main : List (List ℕ) → Command
  unfolding read_arguments default_settings
  main arguments = read_arguments arguments default_settings
