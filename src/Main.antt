-- ===== src/Main.antt =====
-- src/main.rs: the command line, the start of the three tasks, and the wait for their ends. What the
-- file system, serde_json and the devices answer is the parameter `Env`.
pub mod Start
pub mod Supervision
use Prim.Native.String.{String}
use mpconn.Base.{
  ℕ, Bool, true, Option, none, some, List, [], ◌∷◌, if◌then◌else◌, Outcome, done, panic, check,
  ◌>>=◌, io_failure,
}
use mpconn.ConnectionManager.State
use mpconn.ConnectionManager.State.{ConnectionManager, LogEntry}
use mpconn.Local.{OpenAnswers}
use mpconn.LocalManager
use mpconn.LocalManager.{LocalManager}
use mpconn.RemoteManager
use mpconn.RemoteManager.{Task}
use mpconn.Settings.{SettingsFile}
use mpconn.Sink.{Sink}
use mpconn.Socket.{Os}

-- `Args`, as clap gives it
pub record Args : Type 0 where
  pub config : String
  pub debug : Bool

pub record Env : Type 0 where
  -- `File::create("interface.log")`
  pub creates_log : Bool
  -- whether that file later takes what the buffer in front of it is flushed with
  pub writes_log : Bool
  -- `std::fs::read_to_string`, where `none` is an error
  pub read_to_string : String → Option String
  -- `serde_json::from_str`, where `none` is an error
  pub from_str : String → Option SettingsFile
  pub os : Os
  pub local : OpenAnswers

-- With `--debug`, the log file behind a `BufWriter`. The header line, which `Sink` leaves out, goes into
-- the empty buffer, so its `unwrap` cannot panic, whatever becomes of the file.
unfoldable pub open_log : Env → Bool → Outcome (Option (Sink LogEntry))
open_log env debug =
    if debug
    then (do
      _ ← check env.creates_log
      done (some (record { taken = []; accepts = env.writes_log })))
    else done none

abbrev pub unwrap_option {ℓ} : {A : Type ℓ} → Option A → Outcome A
unwrap_option none = panic io_failure
unwrap_option (some a) = done a

-- `serde_json::from_str(std::fs::read_to_string(args.config).unwrap().as_str()).unwrap()`
unfoldable pub load_settings : Env → String → Outcome SettingsFile
load_settings env config = do
  text ← unwrap_option (env.read_to_string config)
  unwrap_option (env.from_str text)

-- A channel from `channel(channel_capacity)`; `main` hands on or keeps each receiver.
abbrev pub channel : {A : Type 0} → Sink A
channel = record { taken = []; accepts = true }

-- What `main` starts.
pub record Program : Type 0 where
  pub remote_manager : List Task
  pub connection_manager : ConnectionManager
  pub local_manager : LocalManager

-- The three managers, in the order in which they are made.
unfoldable pub make_managers : Env → ℕ → SettingsFile → Option (Sink LogEntry) → Outcome Program
make_managers env now settings interface_logger = do
  remote_manager ← RemoteManager.new env.os settings channel
  let connection_manager = State.new settings interface_logger channel channel now
  local_manager ← LocalManager.new env.local settings channel
  done (record {
    remote_manager = remote_manager;
    connection_manager = connection_manager;
    local_manager = local_manager;
  })

-- `main`, up to the wait
unfoldable pub start : Env → Args → ℕ → Outcome Program
unfolding open_log load_settings make_managers
start env args now = do
  interface_logger ← open_log env args.debug
  settings ← load_settings env args.config
  make_managers env now settings interface_logger

-- How far a task is: it runs, or it has returned, or it has panicked.
pub data TaskState : Type 0 where
  running returned panicked : TaskState

-- `for task in &mut tasks { task.await.unwrap() }`: the state of the loop, by those of the tasks.
unfoldable pub await_tasks : List TaskState → TaskState
await_tasks [] = returned
await_tasks (running ∷ tasks) = running
await_tasks (panicked ∷ tasks) = panicked
await_tasks (returned ∷ tasks) = await_tasks tasks

-- `RemoteManager::run`
unfoldable pub run_remote_manager : List TaskState → TaskState
unfolding await_tasks
run_remote_manager remote_tasks = await_tasks remote_tasks

-- `manager_task.await.unwrap()` of `ConnectionManager::run`
unfoldable pub run_connection_manager : TaskState → TaskState
run_connection_manager running = running
run_connection_manager panicked = panicked
run_connection_manager returned = returned

-- `LocalManager::run`
unfoldable pub run_local_manager : List TaskState → TaskState
unfolding await_tasks
run_local_manager tasks = await_tasks tasks

-- The wait of `main`, by the states of the tasks that the managers spawned.
unfoldable pub wait : List TaskState → TaskState → List TaskState → TaskState
unfolding run_remote_manager run_connection_manager run_local_manager
wait remote_tasks manager_task tasks = await_tasks (
    run_remote_manager remote_tasks
    ∷ run_connection_manager manager_task
    ∷ run_local_manager tasks
    ∷ [])
