-- ===== src/Language/Providers/Proposals.antt =====
-- What the chain of providers proposes.
use Prim.Native.Char.{Char}
use droid_os.Prelude.{
  or_text, String, ◌≡◌, refl, Bool, true, false, not, ◌||◌, Option, none, some, List, [], ◌∷◌,
  arith, contains, lookup, map, insert, subst, Result, ok, err, if-elim,
}
use droid_os.Language.Broker.{Intent}
use droid_os.Language.Tools.{ToolSpec, Registry, all, is_registered, registry_of, register}
use droid_os.Language.Tools.Defaults.{default_tools}
use droid_os.Language.Offline.{Texts, parse}
use droid_os.Language.Offline.Known.{is_proper, defaults, parse-is_proper}
use droid_os.Language.Objects.{first_object}
use droid_os.Language.Providers.{
  Provider, offline, disabled, compatible, Written, Web, ProviderFailure, provider_error, other,
  catalog_names, available, generate, propose, intent_of, read_answer, ask, or_next, http_base,
  numbered, is_allowed,
}

listed-is_registered :
    (name : String) (r : Registry)
    → contains name (map (λ (p : String × ToolSpec). p.0) r) ≡ true
    → is_registered r name ≡ true
unfolding is_registered lookup
listed-is_registered name [] h = absurd (ground (arith, h))
listed-is_registered name (p ∷ r) h = ground (arith, h, listed-is_registered name r)

defaults-catalog : catalog_names defaults ≡ map (λ (p : String × ToolSpec). p.0) defaults
unfolding catalog_names all registry_of register insert default_tools
defaults-catalog = refl

abbrev pub names_default : List String
names_default = catalog_names defaults

allowed-is_proper :
    (name : String) → contains name names_default ≡ true → is_proper defaults name ≡ true
allowed-is_proper name h = ground (
  arith,
  listed-is_registered name defaults (subst (λ l. contains name l ≡ true) defaults-catalog h),
)

-- what an answer of a provider proposes
abbrev proposes_proper : Result ProviderFailure Intent → Bool
proposes_proper (ok i) = is_proper defaults i.intent
proposes_proper (err e) = true

abbrev pub answers_proper : Result String Intent → Bool
answers_proper (ok i) = is_proper defaults i.intent
answers_proper (err e) = true

or_next-proper :
    (r : Result ProviderFailure Intent) (next : Result String Intent)
    → proposes_proper r ≡ true
    → answers_proper next ≡ true
    → answers_proper (or_next r next) ≡ true
or_next-proper (ok i) next p q = p
or_next-proper (err (provider_error e)) next p q = q
or_next-proper (err (other e)) next p q = refl

text-proper :
    (o : Option String)
    → is_allowed o names_default ≡ true
    → is_proper defaults (or_text o "") ≡ true
text-proper none h = absurd (ground (arith, h))
text-proper (some name) h = allowed-is_proper name h

numbered-proper :
    (o : Option String) (i : Intent)
    → is_proper defaults i.intent ≡ true
    → proposes_proper (numbered o i) ≡ true
numbered-proper none i p = p
numbered-proper (some e) i p = refl

module _ (py : Texts) (web : Web) where
  intent_of-proper :
      (o : Option Written) (text : String)
      → proposes_proper (intent_of py web o text names_default) ≡ true
  intent_of-proper none text = parse-is_proper py text
  intent_of-proper (some o) text =
      if-elim (λ r. proposes_proper r ≡ true)
        (o.is_empty || not (is_allowed o.intent names_default)) (λ _. parse-is_proper py text)
        (λ n. numbered-proper o.number_error _ (text-proper o.intent (ground (arith, n))))

  read_answer-proper :
      (r : Result String (List Char)) (text : String)
      → proposes_proper (read_answer py web r text names_default) ≡ true
  read_answer-proper (err e) text = refl
  read_answer-proper (ok content) text = intent_of-proper (first_object web.loads content) text

  ask-proper :
      (base : Option String) (text : String)
      → proposes_proper (ask py web base text names_default) ≡ true
  ask-proper none text = refl
  ask-proper (some base) text = read_answer-proper (web.chat base text names_default) text

  generate-proper :
      (p : Provider) (text : String) → proposes_proper (generate py web p text names_default) ≡ true
  unfolding generate
  generate-proper offline text = parse-is_proper py text
  generate-proper disabled text = refl
  generate-proper (compatible name endpoint) text = ask-proper (http_base py web endpoint) text

  -- With the default registry, whatever the models answer, the chain proposes no intent but a
  -- registered one or "unknown".
  pub propose-is_proper :
      (ps : List Provider) (text : String)
      → answers_proper (propose py web ps text names_default) ≡ true
  unfolding propose
  propose-is_proper [] text = parse-is_proper py text
  propose-is_proper (p ∷ ps) text =
      if-elim (λ r. answers_proper r ≡ true) (available py web p)
        (λ _.
          or_next-proper (generate py web p text names_default) _ (generate-proper p text)
            (propose-is_proper ps text))
        (λ _. propose-is_proper ps text)

  unreached :
      (name endpoint : String)
      → ((base : String) → web.reaches base ≡ false)
      → available py web (compatible name endpoint) ≡ false
  unfolding available http_base
  unreached name endpoint h = ground (arith, h (py.rstrip "/" endpoint))

  -- Where no server of a model is reached, the chain answers as the offline parser does, whichever
  -- providers are configured.
  pub offline_fallback :
      (ps : List Provider) (text : String) (allowed : List String)
      → ((base : String) → web.reaches base ≡ false)
      → propose py web ps text allowed ≡ ok (parse py text)
  unfolding propose available generate
  offline_fallback [] text allowed h = refl
  offline_fallback (offline ∷ ps) text allowed h = refl
  offline_fallback (disabled ∷ ps) text allowed h = offline_fallback ps text allowed h
  offline_fallback (compatible name endpoint ∷ ps) text allowed h =
      ground (arith, unreached name endpoint h, offline_fallback ps text allowed h)
