-- ===== src/Language/Providers.antt =====
-- `src/droidos/language/providers.py`: where a proposed intent comes from. What a model's server
-- answers is the argument `web`; an object of its answer is what `json.loads` makes of it.
pub mod Proposals
use Prim.Native.Char.{Char}
use droid_os.Prelude.{
  or_text, ℕ, String, ◌^^◌, Bool, true, false, not, ◌&&◌, ◌||◌, Option, none, some, List, [], ◌∷◌,
  ◌++◌, any, contains, str_eq, is_some, is_nil, length, leb, map, lookup, Result, ok, err,
  if◌then◌else◌,
}
use droid_os.Language.Broker.{Intent}
use droid_os.Language.Tools.{ToolSpec, Registry, all}
use droid_os.Language.Offline.{Texts, parse}
use droid_os.Language.Objects.{first_object}

pub data Provider : Type 0 where
  offline disabled : Provider
  compatible : (name endpoint : String) → Provider

-- An object that a model has written. A key that is missing is `none`.
pub record Written : Type 0 where
  pub intent : Option String
  pub arguments : List (String × String)
  pub requested_speed : Option String
  pub number_error : Option String  -- the exception of `float(confidence)`, if it raises
  pub is_empty : Bool  -- the empty object, which Python counts as false

pub record Web : Type 0 where
  pub reaches : (base : String) → Bool  -- whether `GET …/v1/models` succeeds
  pub chat : (base text : String) → List String → Result String (List Char)
  pub loads : List Char → Option Written

-- The exception of a provider: `ProviderError`, which the chain catches, or another one.
pub data ProviderFailure : Type 0 where
  provider_error other : String → ProviderFailure

-- The entry of a provider in the configuration.
pub record ProviderSpec : Type 0 where
  pub type : Option String
  pub endpoint : Option String

-- `build_provider`
unfoldable pub build_provider : String → ProviderSpec → Provider
build_provider name spec =
    let kind = or_text spec.type "offline" in
    if str_eq kind "offline"
    then offline
    else if str_eq kind "disabled"
    then disabled
    else if contains kind ("llama_cpp" ∷ "compatible_http" ∷ [])
    then compatible name (or_text spec.endpoint "")
    else offline

abbrev pub is_offline : Provider → Bool
is_offline offline = true
is_offline _ = false

-- `ProviderChain(providers).providers`
unfoldable pub chain_of : List Provider → List Provider
chain_of ps = if any is_offline ps then ps else ps ++ offline ∷ []

-- the names in the catalog
unfoldable pub catalog_names : Registry → List String
unfolding all
catalog_names r = map (λ (t : ToolSpec). t.name) (all r)

-- one of the two configured providers, if there is such an entry
abbrev configured : List (String × ProviderSpec) → Option String → List Provider
configured specs none = []
configured specs (some name) = elim (lookup name specs) [
  | none ↦ []
  | some spec ↦ if str_eq name "" then [] else build_provider name spec ∷ []
]

-- `LanguageService._build_chain`
unfoldable pub build_chain :
    List (String × ProviderSpec) → (primary fallback : Option String) → List Provider
unfolding chain_of build_provider
build_chain specs primary fallback =
    chain_of (configured specs primary ++ configured specs fallback)

abbrev is_allowed : Option String → List String → Bool
is_allowed none allowed = false
is_allowed (some name) allowed = contains name allowed

abbrev numbered : Option String → Intent → Result ProviderFailure Intent
numbered none i = ok i
numbered (some e) i = err (other e)

abbrev proposed_by : Written → Result ProviderFailure Intent
proposed_by o = numbered o.number_error (record {
  intent = or_text o.intent "";
  arguments = o.arguments;
  requested_speed = or_text o.requested_speed "normal";
})

-- the answer of a provider, or the next one's
abbrev or_next : Result ProviderFailure Intent → Result String Intent → Result String Intent
or_next (ok i) next = ok i
or_next (err (provider_error e)) next = next
or_next (err (other e)) next = err e

module _ (py : Texts) (web : Web) where
  -- `_http_base`
  unfoldable http_base : String → Option String
  http_base endpoint =
      if py.starts_with "http://" endpoint || py.starts_with "https://" endpoint
      then some (py.rstrip "/" endpoint)
      else none

  abbrev reaches : Option String → Bool
  reaches none = false
  reaches (some base) = web.reaches base

  unfoldable pub available : Provider → Bool
  unfolding http_base
  available offline = true
  available disabled = false
  available (compatible name endpoint) = reaches (http_base endpoint)

  -- `_parse_intent`, on the object that was found
  abbrev intent_of : Option Written → String → List String → Result ProviderFailure Intent
  intent_of none text allowed = ok (parse py text)
  intent_of (some o) text allowed =
      if o.is_empty || not (is_allowed o.intent allowed) then ok (parse py text) else proposed_by o

  abbrev read_answer :
      Result String (List Char) → String → List String → Result ProviderFailure Intent
  read_answer (err e) text allowed = err (provider_error e)
  read_answer (ok content) text allowed = intent_of (first_object web.loads content) text allowed

  abbrev ask : Option String → String → List String → Result ProviderFailure Intent
  ask none text allowed = err (provider_error "not reachable in reference build")
  ask (some base) text allowed = read_answer (web.chat base text allowed) text allowed

  -- `generate_structured_intent` of each provider
  unfoldable pub generate : Provider → String → List String → Result ProviderFailure Intent
  unfolding http_base
  generate offline text allowed = ok (parse py text)
  generate disabled text allowed = err (provider_error "language model disabled")
  generate (compatible name endpoint) text allowed = ask (http_base endpoint) text allowed

  -- `active`
  unfoldable pub active : List Provider → Provider
  unfolding available
  active [] = offline
  active (p ∷ ps) = let later = active ps in if available p then p else later

  unfoldable pub degraded : List Provider → Bool
  unfolding active
  degraded ps = is_offline (active ps) && leb 2 (length ps)

  -- `ProviderChain.generate_structured_intent`, or the exception that leaves it
  unfoldable pub propose : List Provider → String → List String → Result String Intent
  unfolding available generate
  propose [] text allowed = ok (parse py text)
  propose (p ∷ ps) text allowed =
      let next = propose ps text allowed in
      if available p then or_next (generate p text allowed) next else next
