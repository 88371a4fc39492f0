-- ===== src/Language/Broker/Examples.antt =====
-- The broker in front of a walking droid.
use droid_os.Prelude.{
  ℕ, String, ◌≡◌, refl, true, false, none, some, [], ◌∷◌, StrMethods, lookup, insert,
}
use droid_os.Core.States.{initial, ready, among, same_state}
use droid_os.Backends.SafetyController
use droid_os.Services.SafetyGateway
use droid_os.Services.WorldModel.{WorldModel, missing, get_place, norm, is_restricted}
use droid_os.Services.Navigation.{resolve, traversable, place_route}
use droid_os.Body.Capabilities
use droid_os.Body.Capabilities.{mapping, truth, supports_motion, can, category, locomotion_mode}
use droid_os.System.{Runtime}
use droid_os.Services.Supervisor.Readiness.{
  assess_readiness, stopped, unhealthy, inactive, inhibits, degrades, backend_inhibits,
}
use droid_os.Services.Supervisor.Readiness.Clear.{clear}
use droid_os.Language.Auth.{User, guest, owner, authorize}
use droid_os.Language.Tools.{ToolSpec, get, registry_of, register, motion, conditional}
use droid_os.Language.Tools.Defaults.{default_tools}
use droid_os.Language.Broker.{
  Intent, Site, validate, validate_tool, capability_ok, destination_ok, motion_permitted,
  needs_confirmation, confirm_prompt,
}
use droid_os.Language.Broker.Gates.{
  is_approved, passes_named, approved_when, approved_motion_is_ready,
}

abbrev plain : StrMethods
plain = record { lower = λ s. s; words = λ s. s ∷ [] }

abbrev droid : Runtime
droid = record {
  has_safety = true;
  gateway = record {
    controller = SafetyController.new 1000 0;
    token = SafetyGateway.empty;
    backend = some false;
    latch = SafetyGateway.missing;
    writable = true;
    events = [];
    machine = initial ready;
  };
  body = some record {
    body_id = "r2-mk1";
    capabilities = record { raw = ("locomotion", mapping (("walk", truth true) ∷ [])) ∷ [] };
    issues = [];
    battery_motion_minimum = 20;
    required_sensors = [];
    required_actuators = [];
    sensors = [];
  };
  readings = record {
    kind = "simulation";
    battery_percent = 78;
    actuator_names = [];
    sensor_ok = λ s. true;
    fault_codes = [];
    bus_online = none;
    connect_error = none;
  };
  services = [];
}

abbrev house : WorldModel ℕ
house = record {
  world = record {
    places = ("hallway", record { x = 2; y = 0; kind = "passage" }) ∷ [];
    restricted = [];
    obstacles = [];
    last_seen = [];
  };
  file = missing;
  writable = true;
}

abbrev site : Site ℕ
site = record {
  rt = droid;
  registry = registry_of default_tools [];
  world = some house;
  has_navigation = true;
  has_supervisor = true;
  first = 10;
  beat = 20;
  now = 21;
}

abbrev go : String → Intent
go speed = record {
  intent = "navigation.navigate_to";
  arguments = ("destination", "hallway") ∷ [];
  requested_speed = speed;
}

abbrev luke : User
luke = record { name = "luke"; role = owner; display_name = "Luke" }

abbrev jawa : User
jawa = record { name = "jawa"; role = guest; display_name = "Jawa" }

abbrev navigate : ToolSpec
navigate = record {
  name = "navigation.navigate_to";
  risk = motion;
  requires_motion = true;
  required_capability = some "locomotion";
  confirmation = conditional;
  min_role_rank = 1;
  always_available = false;
  description = "navigate to a named place";
}

approved_when_example :
    is_approved (validate plain site (go "cautious") luke false).1.outcome
    ≡ passes_named plain site
        (go "cautious")
        luke
        false
        (get site.registry "navigation.navigate_to")
approved_when_example = approved_when plain site (go "cautious") luke false

approved_motion_is_ready_example :
    let (rt', halted) = stopped 10 droid in
    let (rt'', unwell) = unhealthy 20 21 rt' in
    (halted ≡ false) × (unwell ≡ false) × (clear rt'' ≡ true)
unfolding validate get lookup registry_of default_tools insert authorize register validate_tool
    capability_ok needs_confirmation confirm_prompt destination_ok resolve traversable place_route
    get_place norm is_restricted motion_permitted among same_state assess_readiness stopped
    unhealthy SafetyGateway.estop_engaged_now SafetyGateway.healthy SafetyGateway.status
    SafetyController.status SafetyController.check_watchdog inactive inhibits degrades
    backend_inhibits supports_motion can category Capabilities.get locomotion_mode
approved_motion_is_ready_example =
    approved_motion_is_ready plain site (go "cautious") luke false navigate refl refl refl refl refl
