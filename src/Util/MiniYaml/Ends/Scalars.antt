-- ===== src/Util/MiniYaml/Ends/Scalars.antt =====
-- util/miniyaml.py: the fuel of `scalar` is one unit for each character and one more, which is enough.
use droid_os.Prelude.{
  ℕ, zero, suc, ◌+◌, ◌≤◌, ◌<◌, ◌≡◌, refl, Bool, true, false, not, ◌&&◌, List, [], ◌∷◌, ◌++◌, Option,
  none, some, ◌==◌, is_some, length, All, inl, inr, Bool-cases, Option-cases, arith,
}
use droid_os.Util.MiniYaml.Text.{
  Text, strip_left, strip_right, strip, is_space, without_first, without_last,
}
use droid_os.Util.MiniYaml.Values.{Value, Conversions}
use droid_os.Util.MiniYaml.Lines.{quote_single, quote_double}
use droid_os.Util.MiniYaml.Scalars.{
  flow_parts, split_flow, word_value, is_quoted, is_flow, inside, scalar_each, scalar_on, scalar,
  flow_list,
}

length-append : (s t : Text) → length (s ++ t) ≡ length s + length t
length-append [] t = omega arith
length-append (c ∷ s) t = omega (arith, length-append s t)

length-strip_left : (p : ℕ → Bool) (t : Text) → length (strip_left p t) ≤ length t
unfolding strip_left
length-strip_left p [] = omega arith
length-strip_left p (c ∷ t) = ground (arith, length-strip_left p t)

length-strip_right : (p : ℕ → Bool) (t : Text) → length (strip_right p t) ≤ length t
unfolding strip_right
length-strip_right p [] = omega arith
length-strip_right p (c ∷ t) = ground (arith, length-strip_right p t)

length-strip : (t : Text) → length (strip t) ≤ length t
unfolding strip
length-strip t =
    omega (arith, length-strip_left is_space t, length-strip_right is_space (strip_left is_space t))

length-without_last : (t : Text) → length (without_last t) ≤ length t
unfolding without_last
length-without_last [] = omega arith
length-without_last (c ∷ []) = omega arith
length-without_last (c ∷ d ∷ t) = omega (arith, length-without_last (d ∷ t))

length-inside : (t : Text) → length (inside t) ≤ length t
unfolding inside without_first
length-inside t = ground (arith, length-without_last t)

-- brackets leave less than the token
length-inside_lt : (t : Text) → is_flow t ≡ true → length (inside t) < length t
unfolding is_flow inside without_first without_last
length-inside_lt [] h = ground arith
length-inside_lt (c ∷ []) h = ground arith
length-inside_lt (c ∷ d ∷ t) h = omega (arith, length-without_last (d ∷ t))

flow_parts_short :
    (n : ℕ) (single double : Bool) (buf inner : Text)
    → length buf + length inner ≤ n
    → All (λ part. length part ≤ n) (flow_parts single double buf inner)
unfolding flow_parts
flow_parts_short n single double buf [] h = ground (arith, length-strip buf)
flow_parts_short n single double buf (c ∷ inner) h =
    let single' = quote_single c single double in
    let double' = quote_double c single double in
    elim (Bool-cases (c == b',' && not single' && not double')) [
      | inl ends ↦
          rw (ends, All, flow_parts)
            (
              omega (arith, length-strip buf),
              flow_parts_short n single' double' [] inner (omega arith),
            )
      | inr goes ↦
          rw (goes, All, flow_parts)
            (flow_parts_short n single' double' (buf ++ c ∷ []) inner
              (omega (arith, length-append buf (c ∷ []))))
    ]

scalar_each-Returns :
    (read : Text → Option Value) (parts : List Text)
    → All (λ part. is_some (read part) ≡ true) parts
    → is_some (scalar_each read parts) ≡ true
unfolding scalar_each
scalar_each-Returns read [] h = refl
scalar_each-Returns read (part ∷ parts) h = ground (arith, scalar_each-Returns read parts h.1)

All-scalar :
    (py : Conversions) (fuel : ℕ)
    → ((t : Text) → length t < fuel → is_some (scalar_on py fuel t) ≡ true)
    → (n : ℕ) → n < fuel
    → (parts : List Text) → All (λ part. length part ≤ n) parts
    → All (λ part. is_some (scalar_on py fuel part) ≡ true) parts
All-scalar py fuel reads n h [] short = tt
All-scalar py fuel reads n h (part ∷ parts) short =
    (reads part (omega arith), All-scalar py fuel reads n h parts short.1)

flow_list-Returns :
    (parts : Option (List Value)) → is_some parts ≡ true → is_some (flow_list parts) ≡ true
unfolding flow_list
flow_list-Returns none h = h
flow_list-Returns (some values) h = refl

scalar_on-Returns :
    (py : Conversions) (fuel : ℕ) (text : Text)
    → length text < fuel
    → is_some (scalar_on py fuel text) ≡ true
unfolding scalar_on split_flow
scalar_on-Returns py zero text h = absurd (omega arith)
scalar_on-Returns py (suc fuel) text h =
    let token = strip text in
    elim (Option-cases (word_value token)) [
      | inr (value, word) ↦ rw (word, scalar_on)
      | inl other ↦ elim (Bool-cases (is_quoted token)) [
        | inl quoted ↦ rw (other, quoted, scalar_on)
        | inr bare ↦ elim (Bool-cases (is_flow token)) [
          | inr single ↦ rw (other, bare, single, scalar_on)
          | inl flow ↦
              let inner = strip (inside token) in
              let short : length inner < fuel = omega (
                arith,
                length-strip (inside token),
                length-inside_lt token flow,
                length-strip text,
              ) in
              rw (other, bare, flow, scalar_on)
                (flow_list-Returns (scalar_each (scalar_on py fuel) (split_flow inner)) (
                  scalar_each-Returns (scalar_on py fuel) (split_flow inner) (
                    All-scalar py fuel (scalar_on-Returns py fuel) (length inner) short
                      (split_flow inner)
                      (flow_parts_short (length inner) false false [] inner (omega arith)))))
        ]
      ]
    ]

-- the value is read: `scalar` hands out enough fuel
pub scalar-Returns : (py : Conversions) (text : Text) → is_some (scalar py text) ≡ true
unfolding scalar
scalar-Returns py text = scalar_on-Returns py (suc (length text)) text (omega arith)
