-- ===== src/Tests/StartRuns.antt =====
-- Tests of src/main.rs.
use mathlib.Core.Option.{some-injective}
use mpconn.Base.{ℕ, ◌≡◌, ◌≢◌, ◌↔◌, refl, subst, true, false, some, [], ◌∷◌, arith, done, Returns}
use mpconn.AsyncPcap
use mpconn.ConnectionManager.Run
use mpconn.ConnectionManager.Safety.{IsSafe}
use mpconn.ConnectionManager.Safety.Run.{IsSettings}
use mpconn.ConnectionManager.State
use mpconn.Local
use mpconn.LocalManager
use mpconn.Main.{
  Args, Env, Program, open_log, load_settings, make_managers, start, channel, running, returned,
  panicked, wait,
}
use mpconn.Main.Start.{IsTyped, start-Returns}
use mpconn.Main.Supervision.{IsFirst, all_tasks, wait-IsFirst}
use mpconn.RemoteManager
use mpconn.RemoteManager.{make_tasks, make_remote}
use mpconn.Remote.{new_udp}
use mpconn.Socket.{make_socket, bind_device, interface_to_ipaddr}
use mpconn.Tests.Codec.{plain, plain-IsBincode}
use mpconn.Tests.EdgeRuns.{os, with_remote, plain_remote, local_task}
use mpconn.Tests.ManagerRuns.{day}
use mpconn.Tests.Values.{slicer}

abbrev env : Env
env = record {
  creates_log = true;
  writes_log = true;
  read_to_string = λ path. some "{}";
  from_str = λ text. some with_remote;
  os = os;
  local = record {
    capture = record { found = true; opens = true; sets_nonblock = true; registers = true };
    tun = record {
      builds = false;
      mtu = true;
      flags = true;
      address = true;
      destination = true;
      broadcast = true;
      netmask = true;
    };
  };
}

abbrev args : Args
args = record { config = "settings.json"; debug = true }

abbrev program : Program
program = record {
  remote_manager = record { remote = plain_remote; mpsc_channel = channel } ∷ [];
  connection_manager =
      State.new with_remote (some (record { taken = []; accepts = true })) channel channel 0;
  local_manager = local_task;
}

started : start env args 0 ≡ done program
unfolding start open_log load_settings make_managers RemoteManager.new make_tasks make_remote
    new_udp make_socket bind_device interface_to_ipaddr LocalManager.new Local.new AsyncPcap.new
started = refl

-- On a file that takes nothing, the program starts as well.
abbrev full_disk : Env
full_disk = record env { writes_log = false }

abbrev program_on_full_disk : Program
program_on_full_disk = record program {
  connection_manager =
      State.new with_remote (some (record { taken = []; accepts = false })) channel channel 0;
}

started_on_full_disk : start full_disk args 0 ≡ done program_on_full_disk
unfolding start open_log load_settings make_managers RemoteManager.new make_tasks make_remote
    new_udp make_socket bind_device interface_to_ipaddr LocalManager.new Local.new AsyncPcap.new
started_on_full_disk = refl

env-IsTyped : IsTyped env
env-IsTyped text settings e = subst IsSettings (some-injective _ _ e) (omega arith, tt)

start-Returns_example :
    Returns
      (λ after. (t : ℕ) × IsSafe t after)
      (Run.run plain slicer day program.connection_manager)
start-Returns_example =
    start-Returns plain slicer env args 0 program day plain-IsBincode env-IsTyped (λ on. refl)
      started (omega arith)

not_returned : running ≢ returned
not_returned e = cc

-- The connection manager has panicked, and the wait goes on.
wait-IsFirst_example :
    (wait (returned ∷ running ∷ []) panicked (running ∷ []) ≡ running)
    ↔ IsFirst running (all_tasks (returned ∷ running ∷ []) panicked (running ∷ []))
wait-IsFirst_example =
    wait-IsFirst running (returned ∷ running ∷ []) panicked (running ∷ []) not_returned
