-- ===== src/Cmd/Root.antt =====
-- cmd/scorpion/root.go: `Execute`, which `main` of main.go calls. The command that cobra runs is given by
-- its answer.
use scorpion.Prelude.{ℕ, String, List, [], ◌∷◌, Result, ok, err}

-- What the process prints as errors, and its exit code.
pub record Process : Type 0 where
  pub stderr : List String
  pub exit_code : ℕ

unfoldable execute : Result (Unit {0}) → Process
execute (ok _) = record { stderr = []; exit_code = 0 }
execute (err e) = record { stderr = e ∷ []; exit_code = 1 }
