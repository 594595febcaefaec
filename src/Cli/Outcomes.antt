-- ===== src/Cli/Outcomes.antt =====
-- internal/cli/cli.go: when the application succeeds.
use prowiki.Base.{
  ◌≡◌, refl, ◌⊎◌, inl, inr, true, false, List, [], ◌∷◌, none, some, Bytes, bytes_eq, codes, arith,
  Bool-cases,
}
use prowiki.Cli.{
  unknown_command, version_line, usage, Parsed, parsed, failed, plain, classify, parse_flags,
  commanded, after_flags, run,
}

commanded_succeeds :
    (args : List Bytes) → (commanded args).failure ≡ none → (commanded args).lines ≡ usage ∷ []
commanded_succeeds [] h = refl
commanded_succeeds (c ∷ rest) h = elim (Bool-cases (bytes_eq c (codes "help"))) [
  | inl e ↦ rw e refl
  | inr e ↦ absurd (ground arith)
]

after_flags_succeeds :
    (p : Parsed)
    → (after_flags p).failure ≡ none
    → ((after_flags p).lines ≡ version_line ∷ []) ⊎ ((after_flags p).lines ≡ usage ∷ [])
after_flags_succeeds (failed f) h = absurd (cc)
after_flags_succeeds (parsed true rest) h = inl refl
after_flags_succeeds (parsed false rest) h = inr (commanded_succeeds rest h)

-- A run that returns no error wrote the version or the usage and nothing else: the application has no
-- other command. A first argument that is no flag and not `help` is an unknown command.
pub run_lem :
    (args : List Bytes)
    → ((run args).failure ≡ none
        → ((run args).lines ≡ version_line ∷ []) ⊎ ((run args).lines ≡ usage ∷ []))
      × ((command : Bytes)
          → classify command ≡ plain
          → bytes_eq command (codes "help") ≡ false
          → (run (command ∷ args)).failure ≡ some (unknown_command command))
unfolding run parse_flags
run_lem args =
    (after_flags_succeeds (parse_flags false args), λ command e h. rw (e, parse_flags, h) refl)
