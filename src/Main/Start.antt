-- ===== src/Main/Start.antt =====
-- What src/main.rs starts.
use mpconn.Base.{
  ℕ, subst, sym, refl, ◌∙◌, ◌≡◌, ◌↔◌, Bool, true, false, Option, none, some, List, [], done, check,
  Returns, bind-done, done-injective, check-true,
}
use Prim.Native.String.{String}
use mpconn.Bincode.{Bincode, IsBincode}
use mpconn.ConnectionManager.Run
use mpconn.ConnectionManager.Safety.{IsSafe, IsLogging}
use mpconn.ConnectionManager.Safety.Run.{IsSettings, IsSchedule, run-Returns}
use mpconn.ConnectionManager.State
use mpconn.ConnectionManager.State.{LogEntry}
use mpconn.ConnectionManager.Initial.{IsManagerFor, new-IsManagerFor, IsManagerFor-new}
use mpconn.LocalManager
use mpconn.LocalManager.Opening.{IsLocalManagerFor, new-IsLocalManagerFor}
use mpconn.Main.{
  Args, Env, Program, open_log, load_settings, make_managers, start, channel, unwrap_option,
}
use mpconn.RemoteManager
use mpconn.RemoteManager.Defaults.{AreTasksFor, new-AreTasksFor, AreTasksFor-new}
use mpconn.Settings.{SettingsFile}
use mpconn.Sink.{Sink}
use mpconn.TrafficDirector.{SlicedPacket}

-- The log is there exactly if it was asked for. It is a new file, and takes lines as far as the file does.
abbrev pub IsLog : Env → Bool → Option (Sink LogEntry) → Type 0
IsLog env true none = ⊥
IsLog env true (some if_log) =
    (env.creates_log ≡ true) × ([] ≡ if_log.taken) × (env.writes_log ≡ if_log.accepts)
IsLog env false none = Unit
IsLog env false (some if_log) = ⊥

-- The settings are those of the file that the arguments name.
abbrev pub AreSettings : Env → Args → SettingsFile → Type 0
AreSettings env args settings =
    (text : String) × (env.read_to_string args.config ≡ some text)
    × (env.from_str text ≡ some settings)

-- The three managers, each as the settings ask.
pub record IsStarted (env : Env) (args : Args) (now : ℕ) (settings : SettingsFile)
    (program : Program) : Type 0 where
  pub settings_are : AreSettings env args settings
  pub log : IsLog env args.debug program.connection_manager.interface_logger
  pub remotes : AreTasksFor env.os channel settings.remotes program.remote_manager
  pub manager : IsManagerFor settings channel channel now program.connection_manager
  pub local : IsLocalManagerFor env.local settings channel program.local_manager

open_log-IsLog :
    (env : Env) (debug : Bool) (log : Option (Sink LogEntry))
    → open_log env debug ≡ done log
    → IsLog env debug log
unfolding open_log
open_log-IsLog env false log e = subst (IsLog env false) (done-injective none log e) tt
open_log-IsLog env true log e =
    let (u, created, e1) = bind-done (check env.creates_log) _ log e in
    subst (IsLog env true)
      (done-injective (some (record { taken = []; accepts = env.writes_log })) log e1)
      (check-true env.creates_log created, refl, refl)

IsLog-open_log :
    (env : Env) (debug : Bool) (log : Option (Sink LogEntry))
    → IsLog env debug log
    → open_log env debug ≡ done log
unfolding open_log
IsLog-open_log env true none h = absurd h
IsLog-open_log env true (some if_log) (created, empty, same) =
    rw created (λ i. done (some (record { taken = empty i; accepts = same i })))
IsLog-open_log env false none h = refl
IsLog-open_log env false (some if_log) h = absurd h

unwrap_option_lem {ℓ} : {A : Type ℓ} (o : Option A) (a : A) → unwrap_option o ≡ done a → o ≡ some a
unwrap_option_lem none a e = cc
unwrap_option_lem (some b) a e = cc

load_settings-AreSettings :
    (env : Env) (args : Args) (settings : SettingsFile)
    → (load_settings env args.config ≡ done settings) ↔ AreSettings env args settings
unfolding load_settings
load_settings-AreSettings env args settings = (
  λ e.
      let (text, found, e1) =
        bind-done (unwrap_option (env.read_to_string args.config)) _ settings e in
      (text, unwrap_option_lem _ text found, unwrap_option_lem _ settings e1),
  λ (text, found, parsed). rw (found, parsed) refl,
)

started :
    (env : Env) (args : Args) (now : ℕ) (program : Program)
    → start env args now ≡ done program
    → (settings : SettingsFile) × IsStarted env args now settings program
unfolding start make_managers State.new
started env args now program e =
    let (log, opened, e1) = bind-done (open_log env args.debug) _ program e in
    let (settings, loaded, e2) = bind-done (load_settings env args.config) _ program e1 in
    let (tasks, made, e3) = bind-done (RemoteManager.new env.os settings channel) _ program e2 in
    let (lm, opens, e4) = bind-done (LocalManager.new env.local settings channel) _ program e3 in
    let cm = State.new settings log channel channel now in
    let parts : Program = record {
      remote_manager = tasks;
      connection_manager = cm;
      local_manager = lm;
    } in
    (
      settings,
      subst (IsStarted env args now settings) (done-injective parts program e4) (record {
        settings_are = (load_settings-AreSettings env args settings).0 loaded;
        log = open_log-IsLog env args.debug log opened;
        remotes = new-AreTasksFor env.os settings channel tasks made;
        manager = new-IsManagerFor settings channel channel now log;
        local = (new-IsLocalManagerFor env.local settings channel lm).0 opens;
      }),
    )

starts :
    (env : Env) (args : Args) (now : ℕ) (settings : SettingsFile) (program : Program)
    → IsStarted env args now settings program
    → start env args now ≡ done program
unfolding start make_managers
starts env args now settings program h =
    rw
      (
        IsLog-open_log env args.debug program.connection_manager.interface_logger h.log,
        (load_settings-AreSettings env args settings).1 h.settings_are,
        AreTasksFor-new env.os settings channel program.remote_manager h.remotes,
        (new-IsLocalManagerFor env.local settings channel program.local_manager).1 h.local,
        IsManagerFor-new settings channel channel now program.connection_manager h.manager,
      )
      refl

pub start-IsStarted :
    (env : Env) (args : Args) (now : ℕ) (program : Program)
    → (start env args now ≡ done program)
      ↔ ((settings : SettingsFile) × IsStarted env args now settings program)
start-IsStarted env args now program =
    (started env args now program, λ (settings, h). starts env args now settings program h)

IsLog-IsLogging :
    (env : Env) (debug : Bool) (log : Option (Sink LogEntry))
    → (debug ≡ true → env.writes_log ≡ true)
    → IsLog env debug log
    → IsLogging log
IsLog-IsLogging env true none takes h = absurd h
IsLog-IsLogging env true (some if_log) takes (created, empty, same) = sym same ∙ takes refl
IsLog-IsLogging env false none takes h = tt
IsLog-IsLogging env false (some if_log) takes h = absurd h

-- What serde_json gives has the Rust types.
abbrev pub IsTyped : Env → Type 0
IsTyped env =
    (text : String) (settings : SettingsFile)
    → env.from_str text ≡ some settings
    → IsSettings settings

-- If the program starts, its connection manager handles every sequence of events without a panic, as
-- long as the clock does not go back and no channel is closed, where bincode is as documented and
-- serde_json gives values of the Rust types, and where the log file, with `--debug`, takes what is written to it.
pub start-Returns :
    (codec : Bincode) (slicer : SlicedPacket) (env : Env) (args : Args) (now : ℕ)
    (program : Program) (events : List (ℕ × Run.Event))
    → IsBincode codec
    → IsTyped env
    → (args.debug ≡ true → env.writes_log ≡ true)
    → start env args now ≡ done program
    → IsSchedule now events
    → Returns
        (λ after. (t : ℕ) × IsSafe t after)
        (Run.run codec slicer events program.connection_manager)
start-Returns codec slicer env args now program events law typed takes e schedule =
    let (settings, h) = (start-IsStarted env args now program).0 e in
    let (text, found, parsed) = h.settings_are in
    let cm = program.connection_manager in
    subst (λ x. Returns (λ after. (t : ℕ) × IsSafe t after) (Run.run codec slicer events x))
      (IsManagerFor-new settings channel channel now cm h.manager)
      (run-Returns codec slicer law settings cm.interface_logger channel channel now events
        (typed text settings parsed)
        (IsLog-IsLogging env args.debug cm.interface_logger takes h.log) refl refl schedule)
