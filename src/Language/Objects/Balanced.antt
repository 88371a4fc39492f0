-- ===== src/Language/Objects/Balanced.antt =====
-- What `_first_json_object` finds.
use Prim.Native.Char.{Char}
use droid_os.Prelude.{
  ℕ, suc, ◌≤◌, ◌+◌, ◌-◌, ◌==◌, ◌≡◌, refl, Bool, true, false, Option, none, some, List, [], ◌∷◌,
  ◌++◌, arith, ap, if◌then◌else◌, Option-cases, Bool-cases, if-elim, inl, inr,
}
use droid_os.Language.Objects.{opens, closes, behind, scan, load_or, first_object}

-- how many characters of the text pass a test
unfoldable pub count : (Char → Bool) → List Char → ℕ
count p [] = 0
count p (c ∷ cs) = let rest = count p cs in if p c then suc rest else rest

module _ {O : Type 0} (loads : List Char → Option O) where
  -- the text has that slice, which is balanced and which `loads` reads as that object
  pub record FoundIn (text : List Char) (o : O) : Type 0 where
    pub before : List Char
    pub slice : List Char
    pub after : List Char
    pub is_part : text ≡ before ++ slice ++ after
    pub is_balanced : count opens slice ≡ count closes slice
    pub is_read : loads slice ≡ some o

-- The text has the slice before `after`, and from that depth the slice leads to 0.
record Part (d : ℕ) (text slice : List Char) : Type 0 where
  after : List Char
  is_prefix : text ≡ slice ++ after
  leads_to_0 : d + count opens slice ≡ count closes slice

abbrev Sliced : ℕ → List Char → Option (List Char) → Type 0
Sliced d text none = Unit
Sliced d text (some s) = Part d text s

behind-Sliced :
    (d e : ℕ) (c : Char) (cs : List Char) (o : Option (List Char))
    → ((s : List Char)
        → e + count opens s ≡ count closes s
        → d + count opens (c ∷ s) ≡ count closes (c ∷ s))
    → Sliced e cs o
    → Sliced d (c ∷ cs) (behind c o)
behind-Sliced d e c cs none f p = tt
behind-Sliced d e c cs (some s) f p = record {
  after = p.after;
  is_prefix = ap (λ x. c ∷ x) p.is_prefix;
  leads_to_0 = f s p.leads_to_0;
}

last-Sliced :
    (d : ℕ) (c : Char) (cs : List Char)
    → 1 ≤ d
    → opens c ≡ false
    → closes c ≡ true
    → ((d - 1) == 0) ≡ true
    → Sliced d (c ∷ cs) (some (c ∷ []))
unfolding count
last-Sliced d c cs p o e z = record {
  after = cs;
  is_prefix = refl;
  leads_to_0 = ground (arith, p, o, e, z);
}

scan-Sliced : (d : ℕ) (cs : List Char) → 1 ≤ d → Sliced d cs (scan d cs)
unfolding scan count
scan-Sliced d [] p = tt
scan-Sliced d (c ∷ cs) p =
    if-elim (Sliced d (c ∷ cs)) (opens c)
      (λ o.
        behind-Sliced d (suc d) c cs (scan (suc d) cs) (λ s h. ground (arith, o, h))
          (scan-Sliced (suc d) cs (omega arith)))
      (λ o.
        if-elim (Sliced d (c ∷ cs)) (closes c)
          (λ e.
            if-elim (Sliced d (c ∷ cs)) ((d - 1) == 0) (λ z. last-Sliced d c cs p o e z)
              (λ z.
                behind-Sliced d (d - 1) c cs (scan (d - 1) cs) (λ s h. ground (arith, p, o, e, h))
                  (scan-Sliced (d - 1) cs (ground (arith, p, z)))))
          (λ e.
            behind-Sliced d d c cs (scan d cs) (λ s h. ground (arith, o, e, h))
              (scan-Sliced d cs p)))

-- from the depth 0, at an opening brace
slice-Sliced : (c : Char) (cs : List Char) → opens c ≡ true → Sliced 0 (c ∷ cs) (scan 0 (c ∷ cs))
unfolding scan count
slice-Sliced c cs o =
    if-elim (Sliced 0 (c ∷ cs)) (opens c)
      (λ _.
        behind-Sliced 0 1 c cs (scan 1 cs) (λ s h. ground (arith, o, h))
          (scan-Sliced 1 cs (omega arith)))
      (λ n. absurd (ground (arith, o, n)))

module _ {O : Type 0} (loads : List Char → Option O) where
  load_or-FoundIn :
      (text : List Char) (found : Option (List Char)) (next : Option O) (o : O)
      → Sliced 0 text found
      → (next ≡ some o → FoundIn loads text o)
      → load_or loads found next ≡ some o
      → FoundIn loads text o
  load_or-FoundIn text none next o p later h = later h
  load_or-FoundIn text (some s) next o p later h = elim (Option-cases (loads s)) [
    | inl e ↦ later (ground (arith, h, e))
    | inr (a, e) ↦
        let level = p.leads_to_0 in
        record {
          before = [];
          slice = s;
          after = p.after;
          is_part = p.is_prefix;
          is_balanced = omega arith;
          is_read = ground (arith, h, e);
        }
  ]

  later-FoundIn :
      (c : Char) (cs : List Char) (o : O) → FoundIn loads cs o → FoundIn loads (c ∷ cs) o
  later-FoundIn c cs o f = record {
    before = c ∷ f.before;
    slice = f.slice;
    after = f.after;
    is_part = ap (λ x. c ∷ x) f.is_part;
    is_balanced = f.is_balanced;
    is_read = f.is_read;
  }

  -- An object that is found in the answer of a model is read from a part of that answer in which as
  -- many braces open as close.
  pub first_object-FoundIn :
      (text : List Char) (o : O) → first_object loads text ≡ some o → FoundIn loads text o
  unfolding first_object
  first_object-FoundIn [] o h = absurd (ground (arith, h))
  first_object-FoundIn (c ∷ cs) o h = elim (Bool-cases (opens c)) [
    | inl q ↦
        load_or-FoundIn (c ∷ cs) (scan 0 (c ∷ cs)) (first_object loads cs) o (slice-Sliced c cs q)
          (λ r. later-FoundIn c cs o (first_object-FoundIn cs o r)) (ground (arith, q, h))
    | inr q ↦ later-FoundIn c cs o (first_object-FoundIn cs o (ground (arith, q, h)))
  ]
