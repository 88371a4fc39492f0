-- ===== src/Core/Events.antt =====
-- `src/droidos/core/events.py`. A subscriber is a function on a state of the rest of the program.
pub mod Bounded
use droid_os.Prelude.{
  ℕ, zero, suc, ◌-◌, ltb, ◌==◌, String, Bool, Option, none, some, List, [], ◌∷◌, ◌++◌, keep, length,
  lookup, insert, str_eq, if◌then◌else◌,
}

pub record Event (A : Type 0) : Type 0 where
  pub topic : String
  pub payload : A
  pub stamp : ℕ
  pub source : String

abbrev pub log_limit : ℕ
log_limit = 2000

pub record EventBus (A S : Type 0) : Type 0 where
  pub subs : List (String × List (Event A → S → S))
  pub log : List (Event A)

unfoldable pub drop : {A : Type 0} → ℕ → List A → List A
drop zero xs = xs
drop (suc n) [] = []
drop (suc n) (x ∷ xs) = drop n xs

-- `items[-n:]`, which for 0 is the whole list
unfoldable pub last_of : {A : Type 0} → ℕ → List A → List A
unfolding drop
last_of n xs = if n == 0 then xs else drop (length xs - n) xs

abbrev or_nobody : {F : Type 0} → Option (List F) → List F
or_nobody none = []
or_nobody (some fs) = fs

abbrev pub event : {A : Type 0} → String → A → String → ℕ → Event A
event topic payload source now = record {
  topic = topic;
  payload = payload;
  stamp = now;
  source = source;
}

unfoldable pub logged : {A : Type 0} → Event A → List (Event A) → List (Event A)
unfolding last_of
logged e log =
    let longer = log ++ e ∷ [] in
    if ltb log_limit (length longer) then last_of log_limit longer else longer

module _ {A S : Type 0} where
  -- `EventBus()`
  abbrev pub new : EventBus A S
  new = record { subs = []; log = [] }

  unfoldable pub subscribe : String → (Event A → S → S) → EventBus A S → EventBus A S
  subscribe topic callback b = record b {
    subs = insert topic (or_nobody (lookup topic b.subs) ++ callback ∷ []) b.subs;
  }

  -- the callbacks, in their order
  unfoldable pub deliver : List (Event A → S → S) → Event A → S → S
  deliver [] e s = s
  deliver (f ∷ fs) e s = deliver fs e (f e s)

  unfoldable pub publish :
      String → A → (source : String) → (now : ℕ) → EventBus A S → S → EventBus A S × S
  unfolding deliver logged
  publish topic payload source now b s =
      let e = event topic payload source now in
      (
        record b { log = logged e b.log },
        deliver (or_nobody (lookup "*" b.subs)) e (deliver (or_nobody (lookup topic b.subs)) e s),
      )

  unfoldable pub recent : Option String → (limit : ℕ) → EventBus A S → List (Event A)
  unfolding last_of
  recent none limit b = last_of limit b.log
  recent (some topic) limit b = last_of limit (keep (λ (e : Event A). str_eq e.topic topic) b.log)
