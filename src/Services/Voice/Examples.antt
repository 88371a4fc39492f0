-- ===== src/Services/Voice/Examples.antt =====
-- A droid that hears.
use droid_os.Prelude.{ℕ, refl, true, false, none, some, [], ◌∷◌}
use droid_os.Language.Offline.{Texts}
use droid_os.Language.Service.Fixture.{plain, now, service}
use droid_os.Services.Voice.{Voice, Hearing, handle_utterance}
use droid_os.Services.Voice.Urgent.{
  Unprivileged, Halts, handle_utterance-Unprivileged, urgent_words_stop,
}

abbrev voice : Voice ℕ
voice = record {
  language = service;
  wake_names = "ig-12" ∷ [];
  require_wake = true;
  default_user = none;
  speaking = false;
  spoken = [];
}

-- every search finds something
abbrev alarmed : Texts
alarmed = record plain { search = λ p s. some [] }

abbrev hearing : Texts → Hearing ℕ ℕ
hearing py = record {
  around = record now { py = py };
  identify = λ s. none;
  remove_word = λ w s. s;
  strip_marks = λ s. s;
}

handle_utterance-Unprivileged_example :
    Unprivileged service (handle_utterance (hearing plain) "ig-12 reboot" none voice).0.language
handle_utterance-Unprivileged_example =
    handle_utterance-Unprivileged (hearing plain) "ig-12 reboot" none voice refl

urgent_words_stop_example : Halts voice (handle_utterance (hearing alarmed) "kill it" none voice).0
urgent_words_stop_example = urgent_words_stop (hearing alarmed) "kill it" none voice refl refl
