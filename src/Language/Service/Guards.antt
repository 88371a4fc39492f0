-- ===== src/Language/Service/Guards.antt =====
-- language/service.py: whom the language service runs administrative tools for.
use droid_os.Prelude.{
  false, ◌⊎◌, inl, inr, Option-cases, subst, String, ◌≡◌, refl, sym, ◌∙◌, ◌||◌, is_some, if-elim,
  Bool, true, ◌&&◌, Option, none, some, [], ◌∷◌, ◌++◌, arith, ap, Result, ok, err,
}
use droid_os.Language.Auth.{User, owner, resolve}
use droid_os.Language.Tools.{
  Registry, ToolSpec, Risk, harmless, motion, data_write, get, administrative, registry_of,
}
use droid_os.Language.Tools.Defaults.{default_tools}
use droid_os.Language.Broker.{
  Intent, Outcome, approved, rejected, confirmation_required, BrokerDecision, validate,
}
use droid_os.Language.Broker.Admin.{administrative_needs_owner, is_administrative}
use droid_os.Language.Offline.{is_affirmative, is_negative}
use droid_os.Language.Providers.{degraded}
use droid_os.Executive.Tasks.{Task}
use droid_os.Executive.Intents.History.{run_intent_recorded}
use droid_os.Language.Service.{
  LanguageService, Response, Around, site_of, answer, execute, dispatch, fresh, process, proposed,
}

-- whether the tool of that name is administrative
abbrev pub is_privileged : Registry → String → Bool
is_privileged r name = elim (get r name) [ none ↦ false | some tool ↦ is_administrative tool.risk ]

-- what a user may have run: what is not administrative, or anything for an owner who agrees
abbrev Allowed : Registry → String → User → Bool → Type 0
Allowed r name u agreed = (is_privileged r name ≡ false) ⊎ ((u.role ≡ owner) × (agreed ≡ true))

permitted_risk :
    (k : Risk) (u : User) (agreed : Bool)
    → (k ≡ administrative → (u.role ≡ owner) × (agreed ≡ true))
    → (is_administrative k ≡ false) ⊎ ((u.role ≡ owner) × (agreed ≡ true))
permitted_risk administrative u agreed h = inr (h refl)
permitted_risk harmless u agreed h = inl refl
permitted_risk motion u agreed h = inl refl
permitted_risk data_write u agreed h = inl refl

permitted_when :
    (r : Registry) (name : String) (u : User) (agreed : Bool)
    → ((t : ToolSpec)
        → get r name ≡ some t
        → t.risk ≡ administrative
        → (u.role ≡ owner) × (agreed ≡ true))
    → Allowed r name u agreed
permitted_when r name u agreed h = elim (Option-cases (get r name)) [
  | inl e ↦ inl (ground (arith, e))
  | inr (t, e) ↦ elim (permitted_risk t.risk u agreed (h t e)) [
    | inl n ↦ inl (ground (arith, e, n))
    | inr y ↦ inr y
  ]
]

agreed-Allowed :
    (r : Registry) (name : String) (u : User) (agreed agreed' : Bool)
    → (agreed ≡ true → agreed' ≡ true)
    → Allowed r name u agreed
    → Allowed r name u agreed'
agreed-Allowed r name u agreed agreed' f (inl n) = inl n
agreed-Allowed r name u agreed agreed' f (inr (o, y)) = inr (o, f y)

-- The executive has run nothing, or one task: the user's, and if its tool is administrative, the user
-- is the owner and has agreed to it.
pub data Guarded {C : Type 0} (u : User) (agreed : Bool) (s s' : LanguageService C) : Type 0 where
  idle : s'.droid.history ≡ s.droid.history → Guarded u agreed s s'
  ran :
      (t : Task)
      → s'.droid.history ≡ s.droid.history ++ t ∷ []
      → t.user ≡ u.name
      → (is_privileged s.registry t.intent ≡ false) ⊎ ((u.role ≡ owner) × (agreed ≡ true))
      → Guarded u agreed s s'

-- what is needed of an intent that is executed
agreed_more :
    {C : Type 0}
    → (u : User) (agreed agreed' : Bool) (s s' : LanguageService C)
    → (agreed ≡ true → agreed' ≡ true)
    → Guarded u agreed s s'
    → Guarded u agreed' s s'
agreed_more u agreed agreed' s s' f (idle e) = idle e
agreed_more u agreed agreed' s s' f (ran t e n g) =
    ran t e n (agreed-Allowed s.registry t.intent u agreed agreed' f g)

-- the changes before the answer keep the history and the registry
Guarded-from :
    {C : Type 0}
    → (u : User) (agreed : Bool) (s s1 s' : LanguageService C) → s1.droid.history ≡ s.droid.history
    → s1.registry ≡ s.registry
    → Guarded u agreed s1 s'
    → Guarded u agreed s s'
Guarded-from u agreed s s1 s' h r (idle e) = idle (e ∙ h)
Guarded-from u agreed s s1 s' h r (ran t e n g) =
    ran t (e ∙ ap (λ x. x ++ t ∷ []) h) n (subst (λ x. Allowed x t.intent u agreed) r g)

module _ {C P : Type 0} where
  execute-Guarded :
      (a : Around C P) (i : Intent) (u : User) (deg agreed : Bool) (decision : BrokerDecision)
      (s : LanguageService C)
      → Allowed s.registry i.intent u agreed
      → Guarded u agreed s (execute a i u deg decision s).0
  execute-Guarded a i u deg agreed decision s h =
      let (t, grows, same_intent, same_user, _, _, _, _, _) =
        run_intent_recorded a.world i.intent u.name i.arguments s.droid in
      if-elim (λ (x : LanguageService C × Response C). Guarded u agreed s x.0) s.has_executive
        (λ _.
          ran t grows same_user (subst (λ n. Allowed s.registry n u agreed) (sym same_intent) h))
        (λ _. idle refl)

  answer-Guarded :
      (a : Around C P) (i : Intent) (u : User) (deg agreed : Bool) (decision : BrokerDecision)
      (o : Outcome) (s : LanguageService C)
      → (o ≡ approved → Allowed s.registry i.intent u agreed)
      → Guarded u agreed s (answer a i u deg decision o s).0
  answer-Guarded a i u deg agreed decision confirmation_required s h = idle refl
  answer-Guarded a i u deg agreed decision rejected s h = idle refl
  answer-Guarded a i u deg agreed decision approved s h =
      execute-Guarded a i u deg agreed decision s (h refl)

  dispatch-Guarded :
      (a : Around C P) (i : Intent) (u : User) (confirmed deg : Bool) (s : LanguageService C)
      → s.registry ≡ registry_of default_tools []
      → Guarded u confirmed s (dispatch a i u confirmed deg s).0
  unfolding dispatch
  dispatch-Guarded a i u confirmed deg s r =
      let decision = (validate a.world.py (site_of a s) i u confirmed).1 in
      Guarded-from u confirmed s _ _ refl refl (
        answer-Guarded a i u deg confirmed decision decision.outcome _ (λ e.
          permitted_when s.registry i.intent u confirmed (λ tool f admin.
            administrative_needs_owner a.world.py (site_of a s) i u confirmed tool r f admin e)))

  proposed-Guarded :
      (a : Around C P) (text : String) (u : User) (confirmed deg : Bool) (s : LanguageService C)
      (o : Result String Intent)
      → s.registry ≡ registry_of default_tools []
      → Guarded u confirmed s (proposed a text u confirmed deg s o).0
  proposed-Guarded a text u confirmed deg s (err e) r = idle refl
  proposed-Guarded a text u confirmed deg s (ok i) r =
      Guarded-from u confirmed s _ _ refl refl (dispatch-Guarded a i u confirmed deg _ r)

  fresh-Guarded :
      (a : Around C P) (text : String) (u : User) (confirmed deg : Bool) (s : LanguageService C)
      → s.registry ≡ registry_of default_tools []
      → Guarded u confirmed s (fresh a text u confirmed deg s).0
  unfolding fresh
  fresh-Guarded a text u confirmed deg s r = proposed-Guarded a text u confirmed deg s _ r

  -- Processing a text with the default registry, whatever it says and whatever the models answer,
  -- runs at most one task, and that for the user who is resolved. If the task's tool is
  -- administrative, that user is the owner, and either the call was confirmed beforehand or the text
  -- affirms a pending intent.
  pub process-Guarded :
      (a : Around C P) (text : String) (name : Option String) (confirmed : Bool)
      (pending : Option Intent) (s : LanguageService C)
      → s.registry ≡ registry_of default_tools []
      → Guarded
          (resolve s.users s.default_user name)
          (confirmed || (is_some pending && is_affirmative a.py text))
          s
          (process a text name confirmed pending s).0
  unfolding process
  process-Guarded a text name confirmed none s r =
      agreed_more (resolve s.users s.default_user name) confirmed _ s _ (λ h. ground (arith, h))
        (fresh-Guarded a text (resolve s.users s.default_user name) confirmed _ s r)
  process-Guarded a text name confirmed (some i) s r =
      let u = resolve s.users s.default_user name in
      let deg = degraded a.py a.web s.providers in
      if-elim
        (λ (x : LanguageService C × Result String (Response C)).
          Guarded u (confirmed || is_affirmative a.py text) s x.0)
        (is_affirmative a.py text)
        (λ yes.
          agreed_more u true _ s _ (λ _. ground (arith, yes)) (dispatch-Guarded a i u true deg s r))
        (λ _.
          if-elim
            (λ (x : LanguageService C × Result String (Response C)).
              Guarded u (confirmed || is_affirmative a.py text) s x.0)
            (is_negative a.py text) (λ _. idle refl)
            (λ _.
              agreed_more u confirmed _ s _ (λ h. ground (arith, h))
                (fresh-Guarded a text u confirmed deg s r)))
