-- ===== src/Language/Service.antt =====
-- `src/droidos/language/service.py`: from a text to a response. The wording of a result and of a
-- reason is left to values of `Wording`; the renderer is no part of the model.
pub mod Guards
pub mod Emergency
pub mod Fixture
mod Examples
use droid_os.Prelude.{
  ℕ, String, Bool, true, false, ◌&&◌, Option, none, some, List, [], ◌∷◌, ◌++◌, str_eq, Result, ok,
  err, if◌then◌else◌,
}
use droid_os.System.{has}
use droid_os.Services.SafetyGateway
use droid_os.Language.Auth.{User, Users, resolve}
use droid_os.Language.Tools.{Registry}
use droid_os.Language.Broker.{
  Intent, Outcome, approved, rejected, confirmation_required, Reason, BrokerDecision, Site,
  validate,
}
use droid_os.Language.Offline.{Texts, is_affirmative, is_negative}
use droid_os.Language.Providers.{Provider, Web, propose, degraded, catalog_names}
use droid_os.Executive.Tasks.{TaskResult}
use droid_os.Executive.Droid.{Droid, World, runtime, with_runtime}
use droid_os.Executive.Intents.{run_intent}

pub data Wording (C : Type 0) : Type 0 where
  cancelled_note degraded_note no_executive : Wording C
  asks : (prompt : String) → Wording C
  refused : Reason → Wording C
  rendered : TaskResult C → Wording C

pub record Response (C : Type 0) : Type 0 where
  pub text : Wording C
  pub outcome : String
  pub needs_confirmation : Bool
  pub pending : Option Intent
  pub degraded : Bool
  pub decision : Option BrokerDecision

-- The records of `audit.emit("command", …)` and `audit.emit("approval", …)`.
pub data Event : Type 0 where
  command : (user text : String) → Intent → Event
  approval : (user intent : String) → Outcome → Reason → Event

pub record LanguageService (C : Type 0) : Type 0 where
  pub droid : Droid C
  pub has_executive : Bool
  pub registry : Registry
  pub users : Users
  pub default_user : Option String
  pub providers : List Provider
  pub events : List Event

-- What the rest of the program answers while one text is processed: the executive's world, Python's
-- methods, the models' servers, and the readings of the clock for the broker.
pub record Around (C P : Type 0) : Type 0 where
  pub world : World C P
  pub py : Texts
  pub web : Web
  pub first : ℕ
  pub beat : ℕ
  pub now : ℕ

abbrev respond :
    {C : Type 0} → Wording C → String → (degraded : Bool) → Option BrokerDecision → Response C
respond text outcome deg decision = record {
  text = text;
  outcome = outcome;
  needs_confirmation = false;
  pending = none;
  degraded = deg;
  decision = decision;
}

abbrev log : {C : Type 0} → Event → LanguageService C → LanguageService C
log e s = record s { events = s.events ++ e ∷ [] }

-- the executive's part
abbrev executed :
    {C : Type 0}
    → BrokerDecision
    → Bool
    → LanguageService C
    → Droid C × TaskResult C
    → LanguageService C × Response C
executed decision deg s (d, r) = (
  record s { droid = d },
  respond (rendered r) (if r.ok then "approved" else "failed") deg (some decision),
)

abbrev answered :
    {C : Type 0} → LanguageService C × Response C → LanguageService C × Result String (Response C)
answered (s, r) = (s, ok r)

module _ {C P : Type 0} where
  -- what the broker of the service sees
  abbrev pub site_of : Around C P → LanguageService C → Site C
  site_of a s = record {
    rt = runtime s.droid;
    registry = s.registry;
    world = s.droid.world;
    has_navigation = has (runtime s.droid) "navigation";
    has_supervisor = s.droid.has_supervisor;
    first = a.first;
    beat = a.beat;
    now = a.now;
  }

  abbrev execute :
      Around C P
      → Intent
      → User
      → Bool
      → BrokerDecision
      → LanguageService C
      → LanguageService C × Response C
  execute a i u deg decision s =
      if s.has_executive
      then executed decision deg s (run_intent a.world i.intent u.name i.arguments s.droid)
      else (s, respond no_executive "error" deg none)

  abbrev answer :
      Around C P
      → Intent
      → User
      → Bool
      → BrokerDecision
      → Outcome
      → LanguageService C
      → LanguageService C × Response C
  answer a i u deg decision confirmation_required s = (
    s,
    record {
      text = asks decision.confirm_prompt;
      outcome = "confirmation_required";
      needs_confirmation = true;
      pending = some i;
      degraded = deg;
      decision = some decision;
    },
  )
  answer a i u deg decision rejected s = (
    s,
    respond (if str_eq i.intent "unknown" && deg then degraded_note else refused decision.reason)
        "rejected" deg (some decision),
  )
  answer a i u deg decision approved s = execute a i u deg decision s

  -- `_dispatch`
  unfoldable pub dispatch :
      Around C P
      → Intent
      → User
      → (confirmed degraded : Bool) → LanguageService C
      → LanguageService C × Response C
  dispatch a i u confirmed deg s =
      let (rt, decision) = validate a.world.py (site_of a s) i u confirmed in
      answer a i u deg decision decision.outcome (
        log (approval u.name i.intent decision.outcome decision.reason)
          (record s { droid = with_runtime rt s.droid }))

  -- the text as a new command
  abbrev proposed :
      Around C P
      → String
      → User
      → (confirmed degraded : Bool) → LanguageService C
      → Result String Intent
      → LanguageService C × Result String (Response C)
  proposed a text u confirmed deg s (err e) = (s, err e)
  proposed a text u confirmed deg s (ok i) =
      answered (dispatch a i u confirmed deg (log (command u.name text i) s))

  unfoldable pub fresh :
      Around C P
      → String
      → User
      → (confirmed degraded : Bool) → LanguageService C
      → LanguageService C × Result String (Response C)
  fresh a text u confirmed deg s =
      proposed a text u confirmed deg s
        (propose a.py a.web s.providers text (catalog_names s.registry))

  -- the text as an answer to the question whether to do what is pending
  abbrev answer_pending :
      Around C P
      → String
      → User
      → (confirmed degraded : Bool) → Option Intent
      → LanguageService C
      → LanguageService C × Result String (Response C)
  answer_pending a text u confirmed deg none s = fresh a text u confirmed deg s
  answer_pending a text u confirmed deg (some i) s =
      if is_affirmative a.py text
      then answered (dispatch a i u true deg s)
      else if is_negative a.py text
      then (s, ok (respond cancelled_note "cancelled" deg none))
      else fresh a text u confirmed deg s

  unfoldable pub process :
      Around C P
      → (text : String) → (user_name : Option String) → (confirmed : Bool)
      → (pending : Option Intent) → LanguageService C
      → LanguageService C × Result String (Response C)
  unfolding fresh dispatch
  process a text user_name confirmed pending s =
      answer_pending a text (resolve s.users s.default_user user_name) confirmed
        (degraded a.py a.web s.providers) pending s
