-- ===== src/Cli.antt =====
-- crates/gatepup-cli/src/main.rs: the subcommands and the exit codes. Parsing of the arguments belongs to
-- the package clap. `block_on(serve(…))` is an argument, from the configuration to the error that the
-- servers end with.
use gatepup.Prelude.{◌≡◌, ◌↔◌, ◌⊎◌, inl, inr, refl, Option, none, some, List, Text, arith}
use gatepup.Interfaces.{IpLib, HttpLib, Float}
use gatepup.Config.Model.{GatePupConfig, AppConfig}
use gatepup.Config.Errors.{ValidationError}
use gatepup.Config.Resolve.{ConfigSource, Env}
use gatepup.Core.{CoreError, validation_errors, Platform, resolve_validated, print_config}

pub data Command : Type 0 where
  run validate_config print : Option Text → Command

pub data ExitCode : Type 0 where
  success failure : ExitCode

-- What goes to the standard output or the standard error.
pub data Printed : Type 0 where
  nothing : Printed
  is_valid : ConfigSource → Text → Printed
  rendered : Text → Printed
  problems : List ValidationError → Printed
  message : CoreError → Printed
  no_runtime : Text → Printed

abbrev pub report_of : CoreError → Option (List ValidationError) → Printed
report_of err none = message err
report_of err (some errors) = problems errors

-- `report`.
unfoldable pub report : CoreError → ExitCode × Printed
report err = (failure, report_of err (validation_errors err))

abbrev pub reported : {R : Type 0} → (R → ExitCode × Printed) → CoreError ⊎ R → ExitCode × Printed
reported f (inl err) = report err
reported f (inr r) = f r

module _ {F Headers Addr Net Tls : Type 0} (fl : Float F) (ip : IpLib Addr Net)
    (http : HttpLib Headers) (p : Platform F Tls) (runtime : Option Text)
    (serving : GatePupConfig F → Option CoreError) where
  abbrev pub ended : Option CoreError → ExitCode × Printed
  ended none = (success, nothing)
  ended (some err) = report err

  abbrev pub with_runtime : GatePupConfig F → Option Text → ExitCode × Printed
  with_runtime config (some error) = (failure, no_runtime error)
  with_runtime config none = ended (serving config)

  -- `run`.
  abbrev pub run_config : GatePupConfig F × ConfigSource → ExitCode × Printed
  run_config c = with_runtime c.0 runtime

  abbrev pub show_valid : GatePupConfig F × ConfigSource → ExitCode × Printed
  show_valid c = (success, is_valid c.1 (AppConfig.name c.0.app))

  -- `main`, behind the arguments.
  unfoldable pub main : Env → Command → ExitCode × Printed
  main get (run path) = reported run_config (resolve_validated fl ip http p path get)
  main get (validate_config path) = reported show_valid (resolve_validated fl ip http p path get)
  main get (print path) =
      reported (λ text. (success, rendered text)) (print_config fl ip http p path get)

  -- What the two checks of a configuration say of it.
  data Checked (o : CoreError ⊎ (GatePupConfig F × ConfigSource)) : Type 0 where
    good : (c : GatePupConfig F × ConfigSource) → o ≡ inr c → Checked o
    bad : (e : CoreError) → o ≡ inl e → Checked o

  Checked-cases : (o : CoreError ⊎ (GatePupConfig F × ConfigSource)) → Checked o
  Checked-cases (inl e) = bad e refl
  Checked-cases (inr c) = good c refl

  -- `validate` tells what `run` will find: it succeeds exactly when there is a configuration without
  -- problems, and where it fails, `run` and `print-config` fail in the same way before they do anything.
  pub validate_predicts :
      (get : Env) (path : Option Text)
      → (((main get (validate_config path)).0 ≡ success) ↔ (
          (c : GatePupConfig F × ConfigSource) × (resolve_validated fl ip http p path get ≡ inr c)))
        × (((main get (validate_config path)).0 ≡ success)
            ⊎ ((main get (run path) ≡ main get (validate_config path))
                × (main get (print path) ≡ main get (validate_config path))))
  unfolding main report print_config
  validate_predicts get path = elim (Checked-cases (resolve_validated fl ip http p path get)) [
    | good c e ↦ rw e (((λ h. (c, refl)), (λ h. refl)), inl refl)
    | bad err e ↦
        rw e (((λ h. absurd (ground arith)), (λ h. absurd (ground arith))), inr (refl, refl))
  ]
