-- ===== src/Util/MiniYaml/Ends/Blocks.antt =====
-- util/miniyaml.py: the fuel of `parse_lines` is enough, since each call leaves fewer lines.
use Prim.Native.Nat.{◌*◌}
use droid_os.Prelude.{
  ℕ, zero, suc, ◌+◌, ◌≤◌, ◌<◌, ◌≡◌, not, ◌&&◌, ◌||◌, List, [], ◌∷◌, some, ◌==◌, ltb, is_nil, length,
  Result, ok, err, ◌>>=◌, ◌≢◌, inl, inr, Bool-cases, Option-cases, arith,
}
use droid_os.Util.MiniYaml.Text.{Text, strip, before, after}
use droid_os.Util.MiniYaml.Values.{Value, Items, nil, Fields, end, Conversions, assign, append_item}
use droid_os.Util.MiniYaml.Lines.{Line, clean_lines, deeper, past_deeper, block_scalar_kind}
use droid_os.Util.MiniYaml.Scalars.{scalar}
use droid_os.Util.MiniYaml.Parser.{
  Fault, out_of_fuel, Parsed, is_item, opens_item, opens_block, first_indent, read_scalar,
  entry_value, is_inline_map, item_value, map_fault, drop_dash, parse_block, parse_map, parse_list,
  finish, parse_lines, parse,
}
use droid_os.Util.MiniYaml.Ends.Scalars.{scalar-Returns}

-- The run kept within its fuel, and `P` holds of what it returned, if it returned.
pub data Ends {ℓ κ} {A : Type ℓ} (P : A → Type κ) : Result Fault A → Type (ℓ ⊔ κ) where
  returns : {a : A} → P a → Ends P (ok a)
  raises : {e : Fault} → e ≢ out_of_fuel → Ends P (err e)

module _ {ℓ κ} {A : Type ℓ} {P : A → Type κ} where
  Ends-ne-out_of_fuel : {r : Result Fault A} → Ends P r → r ≢ err out_of_fuel
  Ends-ne-out_of_fuel (returns h) = cc
  Ends-ne-out_of_fuel (raises h) = λ e. h (cc e)

  Ends-bind {ℓ' κ'} :
      {B : Type ℓ'} {Q : B → Type κ'} {r : Result Fault A} (f : A → Result Fault B)
      → Ends P r
      → ((a : A) → P a → Ends Q (f a))
      → Ends Q (r >>= f)
  Ends-bind f (returns {a} h) k = k a h
  Ends-bind f (raises h) k = raises h

-- At most `n` lines are left.
abbrev Leaves : ℕ → Value × List Line → Type 0
Leaves n parsed = length parsed.1 ≤ n

length-deeper : (indent : ℕ) (lines : List Line) → length (deeper indent lines) ≤ length lines
unfolding deeper
length-deeper indent [] = omega arith
length-deeper indent (line ∷ lines) = ground (arith, length-deeper indent lines)

length-past_deeper :
    (indent : ℕ) (lines : List Line) → length (past_deeper indent lines) ≤ length lines
unfolding past_deeper
length-past_deeper indent [] = omega arith
length-past_deeper indent (line ∷ lines) = ground (arith, length-past_deeper indent lines)

module _ (py : Conversions) where
  read_scalar-Ends : (text : Text) → Ends (λ value. Unit {0}) (read_scalar py text)
  unfolding read_scalar
  read_scalar-Ends text = elim (Option-cases (scalar py text)) [
    | inl stuck ↦ absurd (ground (arith, scalar-Returns py text))
    | inr (value, read) ↦ rw (read, read_scalar) (returns tt)
  ]

  scalar_step-Ends :
      (text : Text) (lines : List Line)
      → Ends (Leaves (length lines)) (read_scalar py text >>= λ value. ok (value, lines))
  scalar_step-Ends text lines =
      Ends-bind _ (read_scalar-Ends text) λ value read. returns (omega arith)

  entry_value-Ends :
      (block : List Line → ℕ → Parsed) (indent : ℕ) (rest : Text) (lines : List Line)
      → ((at : ℕ) → Ends (Leaves (length lines)) (block lines at))
      → Ends (Leaves (length lines)) (entry_value py block indent rest lines)
  unfolding entry_value
  entry_value-Ends block indent rest lines ends = elim (Option-cases (block_scalar_kind rest)) [
    | inr ((style, chomp_strip), header) ↦
        rw (header, entry_value) (returns (length-past_deeper indent lines))
    | inl none_given ↦ elim (Bool-cases (is_nil rest)) [
      | inr given ↦ rw (none_given, given, entry_value) (scalar_step-Ends rest lines)
      | inl empty ↦ elim (Bool-cases (opens_block indent lines)) [
        | inl opens ↦ rw (none_given, empty, opens, entry_value) (ends (first_indent lines))
        | inr closed ↦ rw (none_given, empty, closed, entry_value) (returns (omega arith))
      ]
    ]
  ]

  item_value-Ends :
      (mapping : List Line → ℕ → Parsed) (indent : ℕ) (item : Text) (lines : List Line)
      → ((sub : List Line) (at : ℕ)
          → length sub ≤ suc (length lines)
          → Ends (Leaves (suc (length lines))) (mapping sub at))
      → Ends (Leaves (length lines)) (item_value py mapping indent item lines)
  unfolding item_value
  item_value-Ends mapping indent item lines ends = elim (Bool-cases (is_inline_map item)) [
    | inr single ↦ rw (single, item_value) (scalar_step-Ends item lines)
    | inl inline ↦
        rw (inline, item_value)
          (Ends-bind _
            (ends ((indent + 2, item) ∷ deeper indent lines) (indent + 2)
              (omega (arith, length-deeper indent lines)))
            λ parsed left. returns (length-past_deeper indent lines))
  ]

  map_fault-ne-out_of_fuel :
      (indent : ℕ) (line : Line) (fault : Fault)
      → map_fault indent line ≡ some fault
      → fault ≢ out_of_fuel
  unfolding map_fault
  map_fault-ne-out_of_fuel indent (at, content) fault h = λ e. ground arith

  -- what is left of `lines` is left of more lines
  Ends-le : {m n : ℕ} {r : Parsed} → m ≤ n → Ends (Leaves m) r → Ends (Leaves n) r
  Ends-le h (returns left) = returns (omega arith)
  Ends-le h (raises e) = raises e

  mutual
    unfolding parse_block

    parse_block-Ends :
        (fuel : ℕ) (lines : List Line) (indent : ℕ)
        → 3 * length lines + 2 < fuel
        → Ends (Leaves (length lines)) (parse_block py fuel lines indent)
    parse_block-Ends zero lines indent h = absurd (omega arith)
    parse_block-Ends (suc fuel) lines indent h = elim (Bool-cases (opens_item lines)) [
      | inl item ↦ rw (item, parse_block) (parse_list-Ends fuel lines indent nil (omega arith))
      | inr key ↦ rw (key, parse_block) (parse_map-Ends fuel lines indent end (omega arith))
    ]

    parse_map-Ends :
        (fuel : ℕ) (lines : List Line) (indent : ℕ) (result : Fields)
        → 3 * length lines < fuel
        → Ends (Leaves (length lines)) (parse_map py fuel lines indent result)
    parse_map-Ends zero lines indent result h = absurd (omega arith)
    parse_map-Ends (suc fuel) [] indent result h = returns (omega arith)
    parse_map-Ends (suc fuel) (line ∷ lines) indent result h =
        elim (Bool-cases (ltb line.0 indent)) [
          | inl shallow ↦ rw (shallow, parse_map) (returns (omega arith))
          | inr inside ↦ elim (Option-cases (map_fault indent line)) [
            | inr (fault, wrong) ↦
                rw (inside, wrong, parse_map)
                  (raises (map_fault-ne-out_of_fuel indent line fault wrong))
            | inl right ↦
                rw (inside, right, parse_map)
                  (Ends-bind _
                    (entry_value-Ends (parse_block py fuel) indent (strip (after b':' line.1)) lines
                      λ at. parse_block-Ends fuel lines at (omega arith))
                    λ parsed left. Ends-le (omega arith) (
                      parse_map-Ends fuel parsed.1 indent
                        (assign (strip (before b':' line.1)) parsed.0 result) (omega arith)))
          ]
        ]

    parse_list-Ends :
        (fuel : ℕ) (lines : List Line) (indent : ℕ) (result : Items)
        → 3 * length lines + 1 < fuel
        → Ends (Leaves (length lines)) (parse_list py fuel lines indent result)
    parse_list-Ends zero lines indent result h = absurd (omega arith)
    parse_list-Ends (suc fuel) [] indent result h = returns (omega arith)
    parse_list-Ends (suc fuel) (line ∷ lines) indent result h =
        elim (Bool-cases (ltb line.0 indent || not (is_item line.1) && line.0 == indent)) [
          | inl done ↦ rw (done, parse_list) (returns (omega arith))
          | inr goes ↦ elim (Bool-cases (ltb indent line.0)) [
            | inl deep ↦ rw (goes, deep, parse_list) (raises (cc))
            | inr level ↦
                rw (goes, level, parse_list)
                  (Ends-bind _
                    (item_value-Ends (λ sub at. parse_map py fuel sub at end) indent
                      (strip (drop_dash line.1)) lines
                      λ sub at short. Ends-le short (parse_map-Ends fuel sub at end (omega arith)))
                    λ parsed left. Ends-le (omega arith) (
                      parse_list-Ends fuel parsed.1 indent (append_item result parsed.0)
                        (omega arith)))
          ]
        ]

  parse_lines-Ends : (lines : List Line) → Ends (λ value. Unit {0}) (parse_lines py lines)
  unfolding parse_lines finish
  parse_lines-Ends [] = returns tt
  parse_lines-Ends (line ∷ lines) =
      Ends-bind (finish py)
        (parse_block-Ends (3 * length (line ∷ lines) + 3) (line ∷ lines) line.0 (omega arith))
        λ (value, left) h. finish-Ends value left
    where
      finish-Ends :
          (value : Value) (left : List Line) → Ends (λ v. Unit {0}) (finish py (value, left))
      finish-Ends value [] = returns tt
      finish-Ends value (next ∷ left) = raises (cc)

  -- Reading any text ends, with a value or with one of the parser's errors: the fuel that the
  -- model hands out never runs out.
  pub parse_terminates : (text : Text) → parse py text ≢ err out_of_fuel
  unfolding parse
  parse_terminates text = Ends-ne-out_of_fuel (parse_lines-Ends (clean_lines text))
