-- ===== src/Core/Events/Bounded.antt =====
-- What the log of the event bus keeps.
use droid_os.Prelude.{
  ℕ, zero, suc, ◌-◌, ◌≤◌, ltb, String, ◌≡◌, ◌⊎◌, inl, inr, refl, ap, if-elim, true, false, List, [],
  ◌∷◌, ◌++◌, length, arith, lookup, if◌then◌else◌, str_eq, lookup-insert, eq_iff, ◌∙◌,
}
use droid_os.Core.Events.{
  Event, EventBus, log_limit, drop, last_of, logged, publish, deliver, or_nobody, event, subscribe,
}

length-drop : {A : Type 0} (n : ℕ) (xs : List A) → length (drop n xs) ≡ length xs - n
unfolding drop
length-drop zero xs = omega arith
length-drop (suc n) [] = omega arith
length-drop (suc n) (x ∷ xs) = let rest = length-drop n xs in omega arith

length-snoc : {A : Type 0} (xs : List A) (x : A) → length (xs ++ x ∷ []) ≡ suc (length xs)
length-snoc [] x = refl
length-snoc (y ∷ xs) x = ap suc (length-snoc xs x)

drop-snoc :
    {A : Type 0} (n : ℕ) (xs : List A) (x : A)
    → n ≤ length xs
    → drop n (xs ++ x ∷ []) ≡ drop n xs ++ x ∷ []
unfolding drop
drop-snoc zero xs x h = refl
drop-snoc (suc n) [] x h = absurd (omega arith)
drop-snoc (suc n) (y ∷ xs) x h = drop-snoc n xs x (omega arith)

take_before : {A : Type 0} → ℕ → List A → List A
take_before zero xs = []
take_before (suc n) [] = []
take_before (suc n) (x ∷ xs) = x ∷ take_before n xs

before-drop : {A : Type 0} (n : ℕ) (xs : List A) → xs ≡ take_before n xs ++ drop n xs
unfolding drop take_before
before-drop zero xs = refl
before-drop (suc n) [] = refl
before-drop (suc n) (x ∷ xs) = ap (λ l. x ∷ l) (before-drop n xs)

-- The log is within its limit, ends with the new event, and before it has the newest of the old ones.
pub record Appended {A : Type 0} (old : List (Event A)) (e : Event A) (new : List (Event A))
    : Type 0 where
  pub forgotten : List (Event A)
  pub older : List (Event A)
  pub is_new : new ≡ older ++ e ∷ []
  pub is_old : old ≡ forgotten ++ older
  pub is_bounded : length new ≤ log_limit
  pub is_full : (forgotten ≡ []) ⊎ (length new ≡ log_limit)

logged-Appended :
    {A : Type 0} (e : Event A) (log : List (Event A))
    → length log ≤ log_limit
    → Appended log e (logged e log)
unfolding logged last_of
logged-Appended e log h =
    let snoc = length-snoc log e in
    if-elim (Appended log e) (ltb log_limit (length (log ++ e ∷ [])))
      (λ more.
        let n = length (log ++ e ∷ []) - log_limit in
        let kept = length-drop n (log ++ e ∷ []) in
        let size : length (drop n (log ++ e ∷ [])) ≡ log_limit =
          ground (arith, more, h, snoc, kept) in
        record {
          forgotten = take_before n log;
          older = drop n log;
          is_new = drop-snoc n log e (ground (arith, more, h, snoc));
          is_old = before-drop n log;
          is_bounded = omega arith;
          is_full = inr size;
        })
      (λ less. record {
        forgotten = [];
        older = log;
        is_new = refl;
        is_old = refl;
        is_bounded = ground (arith, less);
        is_full = inl refl;
      })

module _ {A S : Type 0} where
  -- Publishing keeps the log within its limit of 2000 events: it appends the new event, and forgets
  -- the oldest events only where the log would grow beyond the limit, which it then fills.
  pub publish-Appended :
      (topic : String) (payload : A) (source : String) (now : ℕ) (b : EventBus A S) (s : S)
      → length b.log ≤ log_limit
      → Appended b.log (event topic payload source now) (publish topic payload source now b s).0.log
  unfolding publish
  publish-Appended topic payload source now b s h =
      logged-Appended (event topic payload source now) b.log h

  deliver-append :
      (fs : List (Event A → S → S)) (f : Event A → S → S) (e : Event A) (s : S)
      → deliver (fs ++ f ∷ []) e s ≡ f e (deliver fs e s)
  unfolding deliver
  deliver-append [] f e s = refl
  deliver-append (g ∷ fs) f e s = deliver-append fs f e (g e s)

  subscribers-other :
      (topic other : String) (f : Event A → S → S) (b : EventBus A S)
      → str_eq topic other ≡ false
      → or_nobody (lookup other (subscribe topic f b).subs) ≡ or_nobody (lookup other b.subs)
  unfolding subscribe
  subscribers-other topic other f b h =
      ground
        (arith, h, lookup-insert topic other (or_nobody (lookup topic b.subs) ++ f ∷ []) b.subs)

  subscribers-own :
      (topic other : String) (f : Event A → S → S) (b : EventBus A S)
      → str_eq topic other ≡ true
      → or_nobody (lookup other (subscribe topic f b).subs)
        ≡ or_nobody (lookup other b.subs) ++ f ∷ []
  unfolding subscribe
  subscribers-own topic other f b h = ground (
    arith,
    h,
    eq_iff topic other,
    lookup-insert topic other (or_nobody (lookup topic b.subs) ++ f ∷ []) b.subs,
  )

  delivered-to :
      (topic other : String) (f : Event A → S → S) (b : EventBus A S) (e : Event A) (s : S)
      → let earlier = deliver (or_nobody (lookup other b.subs)) e s in
        deliver (or_nobody (lookup other (subscribe topic f b).subs)) e s
        ≡ (if str_eq topic other then f e earlier else earlier)
  delivered-to topic other f b e s =
      let earlier = deliver (or_nobody (lookup other b.subs)) e s in
      if-elim (λ x. deliver (or_nobody (lookup other (subscribe topic f b).subs)) e s ≡ x)
        (str_eq topic other)
        (λ y.
          ap (λ fs. deliver fs e s) (subscribers-own topic other f b y)
          ∙ deliver-append (or_nobody (lookup other b.subs)) f e s)
        (λ n. ap (λ fs. deliver fs e s) (subscribers-other topic other f b n))

  -- A subscriber of a topic is called by the next event of that topic, after those who subscribed to
  -- it before and before those of "*"; an event of another topic but "*" does not call it.
  pub subscribe-publish :
      (topic other : String) (f : Event A → S → S) (payload : A) (source : String) (now : ℕ)
      (b : EventBus A S) (s : S)
      → str_eq topic "*" ≡ false
      → let e = event other payload source now in
        let earlier = deliver (or_nobody (lookup other b.subs)) e s in
        (publish other payload source now (subscribe topic f b) s).1
        ≡ deliver
            (or_nobody (lookup "*" b.subs))
            e
            (if str_eq topic other then f e earlier else earlier)
  unfolding publish subscribe
  subscribe-publish topic other f payload source now b s h =
      let e = event other payload source now in
      ap (λ any. deliver any e (deliver (or_nobody (lookup other (subscribe topic f b).subs)) e s))
        (subscribers-other topic "*" f b h)
      ∙ ap (λ own. deliver (or_nobody (lookup "*" b.subs)) e own) (delivered-to topic other f b e s)
