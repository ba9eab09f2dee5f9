-- ===== src/CommandLine/Ranges.antt =====
-- The settings of a session that the command line starts.
use web_rtc_weak_network_vid.Common.{
  ℕ, ◌≡◌, ◌≤◌, ◌⊎◌, ◌≢◌, inl, inr, refl, Option, none, some, List, [], ◌∷◌, if◌then◌else◌, arith,
  Bool-cases, List-cases, sym, ◌∙◌, Option-cases,
}
use mathlib.Core.List.{cons≢nil}
use web_rtc_weak_network_vid.Text.{Endpoint, parse_endpoint}
use web_rtc_weak_network_vid.Session.{Role, same_text}
use web_rtc_weak_network_vid.CommandLine.{
  Settings, default_settings, Command, start_session, print_usage, fatal, start, is_outside,
  CommandOption, option_of, set_option, is_help, read_arguments, main, sender_value, receiver_value,
}

-- Both numbers are in the ranges of the usage.
abbrev pub IsInRange : Settings → Type 0
IsInRange s =
    (150 ≤ s.max_video_kbps)
    × (s.max_video_kbps ≤ 2000)
    × (100 ≤ s.recovery_timeout_ms)
    × (s.recovery_timeout_ms ≤ 1000)

-- A session has its numbers in range, and a sender has a file; or there is none, and the exit code
-- is 0 or 1.
pub data IsSound : Command → Type 0 where
  starts_sender :
      {local peer : Endpoint} {s : Settings}
      → IsInRange s
      → s.video_file ≢ []
      → IsSound (start_session Role.sender local peer s)
  starts_receiver :
      {local peer : Endpoint} {s : Settings}
      → IsInRange s
      → IsSound (start_session Role.receiver local peer s)
  explains : {code : ℕ} → code ≤ 1 → IsSound (print_usage code)
  fails : IsSound fatal

start-IsSound :
    (role : Option Role) (local peer : Option Endpoint) (s : Settings)
    → IsInRange s
    → IsSound (start role local peer s)
unfolding start
start-IsSound none local peer s v = explains (omega arith)
start-IsSound (some role) none peer s v = explains (omega arith)
start-IsSound (some role) (some local) none s v = explains (omega arith)
start-IsSound (some Role.receiver) (some local) (some peer) s v = starts_receiver v
start-IsSound (some Role.sender) (some local) (some peer) s v = elim (List-cases s.video_file) [
  | inl empty ↦ simp (empty, start) fails
  | inr (c, text, given) ↦ simp (given, start) (starts_sender v (λ e. cons≢nil (sym given ∙ e)))
]

module _ (stoul stoi : List ℕ → Option ℕ) where
  abbrev Sets : Option Settings → Type 0
  Sets result = (result ≡ none) ⊎ ((set : Settings) × (result ≡ some set) × IsInRange set)

  set_number :
      (low high n : ℕ) (s set : Settings)
      → (low ≤ n → n ≤ high → IsInRange set)
      → Sets (if is_outside low high n then none else some set)
  set_number low high n s set good = elim (Bool-cases (is_outside low high n)) [
    | inl out ↦ inl (rw out refl)
    | inr inside ↦ inr (set, rw inside refl, good (ground (arith, inside)) (ground (arith, inside)))
  ]

  set_option-IsInRange :
      (o : CommandOption) (value : List ℕ) (s : Settings)
      → IsInRange s
      → Sets (set_option stoul stoi o value s)
  unfolding set_option
  set_option-IsInRange CommandOption.role_arg value s v =
      elim (Bool-cases (same_text value sender_value)) [
        | inl sends ↦ inr (record s { role = some Role.sender }, rw sends refl, v)
        | inr other ↦ elim (Bool-cases (same_text value receiver_value)) [
          | inl receives ↦
              inr (record s { role = some Role.receiver }, rw (other, receives) refl, v)
          | inr wrong ↦ inl (rw (other, wrong) refl)
        ]
      ]
  set_option-IsInRange CommandOption.local_arg value s v =
      elim (Option-cases (parse_endpoint stoul value)) [
        | inl bad ↦ inl (rw (bad, set_option) refl)
        | inr (endpoint, ok) ↦ inr (record s { local = some endpoint }, rw (ok, set_option) refl, v)
      ]
  set_option-IsInRange CommandOption.peer_arg value s v =
      elim (Option-cases (parse_endpoint stoul value)) [
        | inl bad ↦ inl (rw (bad, set_option) refl)
        | inr (endpoint, ok) ↦ inr (record s { peer = some endpoint }, rw (ok, set_option) refl, v)
      ]
  set_option-IsInRange CommandOption.video_file_arg value s v = inr (_, refl, v)
  set_option-IsInRange CommandOption.output_file_arg value s v = inr (_, refl, v)
  set_option-IsInRange CommandOption.max_video_kbps_arg value s v =
      elim (Option-cases (stoi value)) [
        | inl bad ↦ inl (rw (bad, set_option) refl)
        | inr (kbps, ok) ↦
            rw (ok, set_option)
              (set_number 150 2000 kbps s (record s { max_video_kbps = kbps })
                (λ low high. (low, high, v.2, v.3)))
      ]
  set_option-IsInRange CommandOption.recovery_timeout_ms_arg value s v =
      elim (Option-cases (stoi value)) [
        | inl bad ↦ inl (rw (bad, set_option) refl)
        | inr (ms, ok) ↦
            rw (ok, set_option)
              (set_number 100 1000 ms s (record s { recovery_timeout_ms = ms })
                (λ low high. (v.0, v.1, low, high)))
      ]
  set_option-IsInRange CommandOption.unknown_arg value s v = inl refl

  read_arguments-IsSound :
      (arguments : List (List ℕ)) (s : Settings)
      → IsInRange s
      → IsSound (read_arguments stoul stoi arguments s)
  unfolding read_arguments
  read_arguments-IsSound [] s v = start-IsSound s.role s.local s.peer s v
  read_arguments-IsSound (arg ∷ []) s v = elim (Bool-cases (is_help stoul stoi arg)) [
    | inl help ↦ rw help (explains (omega arith))
    | inr other ↦ rw other fails
  ]
  read_arguments-IsSound (arg ∷ value ∷ rest) s v = elim (Bool-cases (is_help stoul stoi arg)) [
    | inl help ↦ rw help (explains (omega arith))
    | inr other ↦ elim (set_option-IsInRange (option_of arg) value s v) [
      | inl bad ↦ rw (other, bad, read_arguments) fails
      | inr (set, ok, w) ↦ rw (other, ok, read_arguments) (read_arguments-IsSound rest set w)
    ]
  ]

  -- Whatever the arguments, a session is started only with a bitrate limit of 150 to 2000 and a
  -- recovery timeout of 100 to 1000, and as a sender only with a video file; if there is no
  -- session, the exit code is 0 or 1.
  pub main-IsSound : (arguments : List (List ℕ)) → IsSound (main stoul stoi arguments)
  unfolding main default_settings
  main-IsSound arguments =
      read_arguments-IsSound arguments default_settings
        (omega arith, omega arith, omega arith, omega arith)
