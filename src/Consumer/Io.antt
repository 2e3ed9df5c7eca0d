-- ===== src/Consumer/Io.antt =====
-- Actions that change the files and may raise: what was written before a raise stays written. And
-- Mercurial, which is not modelled: `Hg` is what its commands answer and do to the files.
use version_control_tools_fx.Base.{ℕ, List, Option, Text, ◌==◌, if◌then◌else◌}
use version_control_tools_fx.Base.Result.{Result, Error, ok, err, os_error, command_error}
use version_control_tools_fx.Consumer.Files.{Fs}

abbrev pub Io : Type 0 → Type 0
Io A = Fs → Result A × Fs

abbrev continue : {A B : Type 0} → Result A → (A → Io B) → Io B
continue (ok a) f fs = f a fs
continue (err e) f fs = (err e, fs)

infixl 5 ◌>>=◌ ◌>>◌
abbrev pub ◌>>=◌ : {A B : Type 0} → Io A → (A → Io B) → Io B
◌>>=◌ m f fs = continue (m fs).0 f (m fs).1

abbrev pub ◌>>◌ : {A B : Type 0} → Io A → Io B → Io B
m >> k = m >>= λ _. k

abbrev pub pure : {A : Type 0} → A → Io A
pure a fs = (ok a, fs)

abbrev pub raise : {A : Type 0} → Error → Io A
raise e fs = (err e, fs)

abbrev pub lift : {A : Type 0} → Result A → Io A
lift r fs = (r, fs)

abbrev pub gets : {A : Type 0} → (Fs → A) → Io A
gets f fs = (ok (f fs), fs)

abbrev pub modify : (Fs → Fs) → Io (Unit {0})
modify f fs = (ok tt, f fs)

pub data Command : Type 0 where
  init : Text → Command
  clone : Option Text → Text → Command
  pull : Text → List Text → Command
  debugpushkey : Text → Text → Text → Text → Text → Command
  recover : Command

-- The exit code of a command, and what it wrote on stderr.
pub record Reply : Type 0 where
  pub code : ℕ
  pub stderr : Text

pub record Hg : Type 0 where
  -- `hglib.util.popen`
  pub popen : Command → Fs → Reply × Fs
  -- `hglib.open`
  pub opens : Text → Fs → Result (Unit {0})
  -- `run_command` in the client of a repository
  pub run : Text → Command → Fs → Reply × Fs
  -- `int(c.log("tip")[0].rev)`, plus one
  pub tip : Text → Fs → Result ℕ

-- `if res: raise CommandError`
abbrev pub check_code : Reply → Io (Unit {0})
check_code r = if r.code == 0 then pure tt else raise (command_error r.stderr)

-- The reply of a command beside the files that it leaves.
abbrev pub command : (Fs → Reply × Fs) → Io Reply
command f fs = (ok (f fs).0, (f fs).1)

abbrev recover_from : {A : Type 0} → Result A × Fs → Io A → Result A × Fs
recover_from (err (command_error e), fs) h = h fs
recover_from (r, fs) h = (r, fs)

-- `try: m` with `except CommandError: h`
abbrev pub catch_command : {A : Type 0} → Io A → Io A → Io A
catch_command m h fs = recover_from (m fs) h

abbrev settle_os : Result (Unit {0}) × Fs → Result (Unit {0}) × Fs
settle_os (err os_error, fs) = (ok tt, fs)
settle_os (r, fs) = (r, fs)

-- `try: m` with `except OSError` that only logs
abbrev pub ignore_os : Io (Unit {0}) → Io (Unit {0})
ignore_os m fs = settle_os (m fs)
