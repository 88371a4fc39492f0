-- ===== src/Language/Service/Examples.antt =====
-- The language service at work.
use Prim.Native.Char.{Char}
use droid_os.Prelude.{◌≡◌, refl, true, false, ◌||◌, is_some, ◌&&◌, none, some, List, [], ◌∷◌, ok}
use droid_os.Language.Auth.{resolve}
use droid_os.Language.Broker.{Intent}
use droid_os.Language.Offline.{is_affirmative, parse}
use droid_os.Language.Providers.{Web, compatible, propose}
use droid_os.Language.Providers.Proposals.{
  answers_proper, names_default, propose-is_proper, offline_fallback,
}
use droid_os.Language.Service.{process}
use droid_os.Language.Service.Guards.{Guarded, process-Guarded}
use droid_os.Language.Service.Emergency.{
  Stopped, Cancelled, emergency_words_stop, pending_stop_is_swallowed,
}
use droid_os.Language.Service.Fixture.{plain, away, now, service}

abbrev near : Web
near = record away { reaches = λ base. true; chat = λ base text allowed. ok [] }

abbrev go : Intent
go = record {
  intent = "navigation.navigate_to";
  arguments = ("destination", "lab") ∷ [];
  requested_speed = "normal";
}

-- `{` and `}`
abbrev braces : List Char
braces = "{" ∷ "}" ∷ []

propose-is_proper_example :
    answers_proper
      (propose plain near (compatible "llama" "http://localhost" ∷ []) "hi" names_default)
    ≡ true
propose-is_proper_example =
    propose-is_proper plain near (compatible "llama" "http://localhost" ∷ []) "hi"

offline_fallback_example :
    propose plain away (compatible "llama" "http://localhost" ∷ []) "go" [] ≡ ok (parse plain "go")
offline_fallback_example =
    offline_fallback plain away (compatible "llama" "http://localhost" ∷ []) "go" [] (λ base. refl)

process-Guarded_example :
    Guarded
      (resolve service.users service.default_user (some "jawa"))
      (false || (is_some (some go) && is_affirmative plain "yes"))
      service
      (process now "yes" (some "jawa") false (some go) service).0
process-Guarded_example = process-Guarded now "yes" (some "jawa") false (some go) service refl

emergency_words_stop_example :
    Stopped (process now "emergency stop" (some "jawa") false none service)
emergency_words_stop_example =
    emergency_words_stop now "emergency stop" (some "jawa") false service refl (λ base. refl) refl
      refl refl

pending_stop_is_swallowed_example :
    let (s', r) = process now "stop" (some "jawa") false (some go) service in
    (s' ≡ service) × Cancelled r
pending_stop_is_swallowed_example =
    pending_stop_is_swallowed now "stop" (some "jawa") false go service refl
