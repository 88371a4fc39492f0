-- ===== src/Executive/Intents/Fixture.antt =====
-- A droid that knows one place, and the world around it.
use droid_os.Prelude.{ℕ, true, false, none, some, [], ◌∷◌, ok}
use droid_os.Core.States.{DroidState, initial}
use droid_os.Backends.SafetyController
use droid_os.Services.SafetyGateway
use droid_os.Services.WorldModel.{missing}
use droid_os.Services.Update
use droid_os.System.{Managed, Runtime}
use droid_os.Services.Lifecycle
use droid_os.Services.Lifecycle.{returned}
use droid_os.Executive.Drive.{Turn}
use droid_os.Executive.Droid.{Droid, World}

abbrev working : Managed
working = record {
  service = record (Lifecycle.new) { state = Lifecycle.active };
  requires = [];
  hooks = record {
    on_configure = returned true;
    on_activate = returned true;
    on_deactivate = returned true;
    on_cleanup = returned true;
  };
}

abbrev pub body_machine : DroidState → Runtime
body_machine st = record {
  has_safety = true;
  gateway = record {
    controller = SafetyController.new 1000 0;
    token = SafetyGateway.empty;
    backend = some false;
    latch = SafetyGateway.missing;
    writable = true;
    events = [];
    machine = initial st;
  };
  body = none;
  readings = record {
    kind = "simulation";
    battery_percent = 78;
    actuator_names = [];
    sensor_ok = λ s. true;
    fault_codes = [];
    bus_online = none;
    connect_error = none;
  };
  services = ("navigation", working) ∷ ("motion", working) ∷ [];
}

abbrev pub droid : DroidState → Droid ℕ
droid st = record {
  sup = record {
    rt = body_machine st;
    boot_report = [];
    readiness = record { state = st; inhibit_reasons = []; degraded_reasons = [] };
    failed_services = [];
  };
  has_supervisor = true;
  world = some record {
    world = record {
      places = ("lab", record { x = 2; y = 0; kind = "room" }) ∷ [];
      restricted = [];
      obstacles = [];
      last_seen = [];
    };
    file = missing;
    writable = true;
  };
  memory = none;
  update = none;
  charging = none;
  zero_commands = 0;
  tools = none;
  cancel = false;
  current = none;
  history = [];
  next_task = 1;
  audit = [];
}

abbrev pub arrives : ℕ → Turn ℕ
arrives k = record {
  cancel = false;
  localized = ok true;
  path_blocked = ok false;
  obstacle = none;
  now = 12;
  near = ok true;
  drive_error = none;
}

abbrev pub around : World ℕ ℕ
around = record {
  times = record {
    start = 1;
    finish = 20;
    first = 2;
    beat = 3;
    now = 4;
    drive = record { beat = 10; now = 11; stamp = 12; logged = 13; released = 14 };
  };
  turns = arrives;
  py = record { lower = λ s. s; words = λ s. s ∷ [] };
  texts = record { lower = λ s. s; strip = λ s. s };
  temperature = ok [];
  diagnosis = ok [];
  scene = ok [];
  scene_ok = true;
  inspect = λ s. ok [];
  number = λ s. none;
  show_number = λ n. "0.0";
  pose = (0, 0);
  set_active = λ b k. ok b;
  bundle = λ p. Update.BundleFile.unread "no file";
  digest = λ p. "";
  package_version = "1.0";
}
