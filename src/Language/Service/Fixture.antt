-- ===== src/Language/Service/Fixture.antt =====
-- A service whose one model is out of reach.
use droid_os.Prelude.{ℕ, true, false, none, some, [], ◌∷◌, err}
use droid_os.Core.States.{ready}
use droid_os.Language.Auth.{guest}
use droid_os.Language.Tools.{registry_of}
use droid_os.Language.Tools.Defaults.{default_tools}
use droid_os.Language.Offline.{Texts}
use droid_os.Language.Providers.{Web, compatible, chain_of, Written}
use droid_os.Executive.Intents.Fixture.{droid, around}
use droid_os.Language.Service.{LanguageService, Around}

abbrev pub plain : Texts
plain = record {
  strip = λ s. s;
  lower = λ s. s;
  split = λ s. s ∷ [];
  rstrip = λ cs s. s;
  starts_with = λ p s. true;
  drop = λ n s. s;
  search = λ p s. none;
  match_start = λ p s. none;
  match_any_case = λ p s. none;
  full_match = λ p s. none;
}

abbrev pub written : Written
written = record {
  intent = some "help";
  arguments = [];
  requested_speed = none;
  number_error = none;
  is_empty = false;
}

abbrev pub away : Web
away = record {
  reaches = λ base. false;
  chat = λ base text allowed. err "timed out";
  loads = λ content. some written;
}

abbrev pub now : Around ℕ ℕ
now = record { world = around; py = plain; web = away; first = 10; beat = 20; now = 21 }

abbrev pub service : LanguageService ℕ
service = record {
  droid = droid ready;
  has_executive = true;
  registry = registry_of default_tools [];
  users = ("jawa", record { name = "jawa"; role = guest; display_name = "Jawa" }) ∷ [];
  default_user = none;
  providers = chain_of (compatible "llama" "http://localhost" ∷ []);
  events = [];
}
