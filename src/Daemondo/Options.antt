-- ===== src/Daemondo/Options.antt =====
-- The options of daemondo: `CollectCmdArgs`, `CollectArrayArgs` and `main` of
-- base/src/programs/daemondo/main.c. What getopt_long(3) gives for each option is an argument; the
-- numbers of strtol(3) and strtof(3) are, too.
use macports.Prelude.{
  ℕ, ◌+◌, ◌≡◌, refl, ap, [], ◌∷◌, ◌++◌, List, Bytes, All, length, codes, if◌then◌else◌, ◌==◌, ◌&&◌,
  not, Bool, true, false, Option, none, some, arith, Ordering, Bool-cases, ◌⊎◌, inl, inr,
  false≢true,
}
use macports.Ctype.{strcasecmp}
use macports.Daemondo.Types.{
  PidStyle, style_unknown, style_none, style_exec, style_file_auto, style_file_clean,
}

-- `0 == strcmp(";", arg)`.
abbrev pub is_marker : Bytes → Bool
is_marker (c ∷ []) = c == b';'
is_marker _ = false

-- `CollectCmdArgs` with memory for the array: the arguments, and how many of the others it took.
unfoldable pub collect_more : List Bytes → List Bytes × ℕ
collect_more [] = ([], 0)
collect_more (a ∷ argv) =
    let (args, n) = collect_more argv in if is_marker a then ([], 1) else (a ∷ args, n + 1)

unfoldable pub collect_cmd_args : Bytes → List Bytes → List Bytes × ℕ
unfolding collect_more
collect_cmd_args arg1 argv = let (args, n) = collect_more argv in (arg1 ∷ args, n)

-- `CollectArrayArgs`.
unfoldable pub collect_array_args : Bytes → List Bytes → List Bytes → List Bytes × ℕ
unfolding collect_cmd_args
collect_array_args arg1 argv array =
    let (args, n) = collect_cmd_args arg1 argv in (array ++ args, n)

-- What getopt_long gives: a case of the `switch` in `main`.
pub data Opt : Type 0 where
  missing_argument : Opt
  start_cmd stop_cmd restart_cmd : Bytes → Opt
  restart_config restart_dist_notify restart_darwin_notify : Bytes → Opt
  restart_wakeup restart_netchange : Opt
  hysteresis restart_wait : Option ℕ → Opt
  pid pid_file : Bytes → Opt
  help : Opt
  set_label : Bytes → Opt
  verbose : Opt
  verbosity : Option ℕ → Opt
  show_version : Opt
  unexpected : Opt

-- The variables of `main`. A negative number of strtof or strtol is none.
pub record Options : Type 0 where
  pub status : ℕ
  pub start_args : Option (List Bytes)
  pub stop_args : Option (List Bytes)
  pub restart_args : Option (List Bytes)
  pub sc_restart_patterns : List Bytes
  pub dist_notify_names : List Bytes
  pub darwin_notify_names : List Bytes
  pub restart_on_wakeup : Bool
  pub restart_hysteresis : ℕ
  pub wait : ℕ
  pub pid_style : PidStyle
  pub file_name : Option Bytes
  pub label : Option Bytes
  pub level : ℕ

-- An option leaves the loop going on with so many more arguments taken, or it exits.
pub data OptionStep : Type 0 where
  taken : ℕ → Options → OptionStep
  exit : ℕ → OptionStep

abbrev pub or_zero : Option ℕ → ℕ
or_zero none = 0
or_zero (some n) = n

-- strcasecmp(3), which compares as `xstrcasecmp` does.
abbrev pub same_word : Bytes → Bytes → Bool
same_word a b = elim (strcasecmp a b) [ Ordering.eq ↦ true | _ ↦ false ]

-- The value of --pid.
unfoldable pub style_of : Bytes → Option PidStyle
style_of word =
    if same_word word (codes "none")
    then some style_none
    else if same_word word (codes "exec")
    then some style_exec
    else if same_word word (codes "fileauto")
    then some style_file_auto
    else if same_word word (codes "fileclean")
    then some style_file_clean
    else none

-- A command that may be given only once.
abbrev pub once : Option (List Bytes) → Bytes → List Bytes → (List Bytes → Options) → OptionStep
once (some args) arg argv set = exit 1
once none arg argv set = let (args, n) = collect_cmd_args arg argv in taken n (set args)

-- The `switch`. `argv` is what stands behind the option and its argument.
unfoldable pub handle_option : Opt → List Bytes → Options → OptionStep
unfolding collect_cmd_args collect_array_args style_of
handle_option missing_argument argv o = exit 1
handle_option (start_cmd arg) argv o =
    once o.start_args arg argv (λ args. record o { start_args = some args })
handle_option (stop_cmd arg) argv o =
    once o.stop_args arg argv (λ args. record o { stop_args = some args })
handle_option (restart_cmd arg) argv o =
    once o.restart_args arg argv (λ args. record o { restart_args = some args })
handle_option (restart_config arg) argv o =
    let (array, n) = collect_array_args arg argv o.sc_restart_patterns in
    taken n (record o { sc_restart_patterns = array })
handle_option (restart_dist_notify arg) argv o =
    let (array, n) = collect_array_args arg argv o.dist_notify_names in
    taken n (record o { dist_notify_names = array })
handle_option (restart_darwin_notify arg) argv o =
    let (array, n) = collect_array_args arg argv o.darwin_notify_names in
    taken n (record o { darwin_notify_names = array })
handle_option restart_wakeup argv o = taken 0 (record o { restart_on_wakeup = true })
handle_option restart_netchange argv o = taken 0 (record o {
  darwin_notify_names =
      o.darwin_notify_names ++ codes "com.apple.system.config.network_change" ∷ [];
})
handle_option (hysteresis n) argv o = taken 0 (record o { restart_hysteresis = or_zero n })
handle_option (restart_wait n) argv o = taken 0 (record o { wait = or_zero n })
handle_option (pid word) argv o = elim (style_of word) [
  | none ↦ taken 0 (record o { status = 1 })
  | some style ↦ taken 0 (record o { pid_style = style })
]
handle_option (pid_file name) argv o = taken 0 (record o { file_name = some name })
handle_option help argv o = exit 0
handle_option (set_label name) argv o = taken 0 (record o { label = some name })
handle_option verbose argv o = taken 0 (record o { level = o.level + 1 })
handle_option (verbosity none) argv o = taken 0 (record o { level = o.level + 1 })
handle_option (verbosity (some n)) argv o = taken 0 (record o { level = n })
handle_option show_version argv o = taken 0 o
handle_option unexpected argv o = taken 0 (record o { status = 1 })

-- The options of a command line, each with what stands behind it.
unfoldable pub handle_options : List (Opt × List Bytes) → Options → OptionStep
unfolding handle_option
handle_options [] o = taken 0 o
handle_options ((opt, argv) ∷ opts) o = elim (o.status == 0) [
  | false ↦ taken 0 o
  | true ↦ elim (handle_option opt argv o) [
    | exit status ↦ exit status
    | taken n o' ↦ handle_options opts o'
  ]
]

abbrev pub is_given : Option (List Bytes) → Bool
is_given none = false
is_given (some args) = true

-- The default of the pid style.
unfoldable pub default_style : Options → PidStyle
default_style o = elim o.pid_style [
  | style_unknown ↦
      if is_given o.start_args && (not (is_given o.stop_args) && not (is_given o.restart_args))
      then style_exec
      else style_none
  | style ↦ style
]

-- How `main` goes on: it exits, it prints a hint and returns the status, or it enters `MainLoop`.
pub data Course : Type 0 where
  exited : ℕ → Course
  hinted : ℕ → Course
  entered : Options → Course

unfoldable pub main_of : OptionStep → Course
unfolding default_style
main_of (exit status) = exited status
main_of (taken n o) =
    if o.status == 0 && is_given o.start_args
    then entered (record o { pid_style = default_style o })
    else hinted o.status

-- Arguments none of which is the marker.
abbrev pub IsPlain : Bytes → Type 0
IsPlain a = is_marker a ≡ false

marker-eq : (a : Bytes) → is_marker a ≡ true → a ≡ b';' ∷ []
marker-eq [] e = absurd (false≢true e)
marker-eq (c ∷ []) e = ap (λ d. d ∷ []) (ground (arith, e))
marker-eq (c ∷ d ∷ a) e = absurd (false≢true e)

-- Up to the marker, or to the end.
abbrev IsCollected : List Bytes → List Bytes → ℕ → Type 0
IsCollected argv args n =
    All IsPlain args
    × (((argv ≡ args) × (n ≡ length args))
        ⊎ ((rest : List Bytes) × (argv ≡ args ++ (b';' ∷ []) ∷ rest) × (n ≡ length args + 1)))

collect_more-IsCollected :
    (argv : List Bytes) → IsCollected argv ((collect_more argv).0) ((collect_more argv).1)
unfolding collect_more
collect_more-IsCollected [] = (tt, inl (refl, refl))
collect_more-IsCollected (a ∷ argv) = elim (Bool-cases (is_marker a)) [
  | inl m ↦ rw (collect_more, m) (tt, inr (argv, ap (λ b. b ∷ argv) (marker-eq a m), omega arith))
  | inr m ↦
      let (plain, cases) = collect_more-IsCollected argv in
      let args = (collect_more argv).0 in
      rw (collect_more, m)
        (
          (m, plain),
          elim cases [
            | inl (same, n) ↦ inl (ap (λ l. a ∷ l) same, omega (arith, n))
            | inr (rest, same, n) ↦ inr (rest, ap (λ l. a ∷ l) same, omega (arith, n))
          ],
        )
]

-- On any command line, a command is the option's own argument and those behind it up to a lone ";",
-- which is taken with them but is not one of them, or else up to the end.
pub collect_cmd_args-IsCollected :
    (arg1 : Bytes) (argv : List Bytes)
    → (args : List Bytes) × ((n : ℕ) × ((collect_cmd_args arg1 argv ≡ (arg1 ∷ args, n))
          × IsCollected argv args n))
unfolding collect_cmd_args
collect_cmd_args-IsCollected arg1 argv =
    ((collect_more argv).0, ((collect_more argv).1, (refl, collect_more-IsCollected argv)))
