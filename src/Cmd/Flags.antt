-- ===== src/Cmd/Flags.antt =====
-- What cmd/dokploy-migrator/main.go uses of Go's package `flag`: a FlagSet with ExitOnError whose
-- flags take a text or a number.
use dokploymigrator.Base.{
  ℕ, Text, codes, List, [], ◌∷◌, Option, none, some, ◌||◌, ◌==◌, ◌!=◌, nat_eq, text_eq,
  if◌then◌else◌, ℤ, Result, ok, err,
}

pub data Kind : Type 0 where
  text_flag int_flag : Kind

pub data Value : Type 0 where
  text_value : Text → Value
  int_value : ℤ → Value

-- The flags that are defined, by name.
abbrev pub Formal : Type 0
Formal = List (Text × Kind)

-- How one argument reads: no flag, the mark `--`, a flag that is malformed, or a flag with the value
-- behind its `=`, where there is one.
pub data Argument : Type 0 where
  operand terminator malformed : Argument
  named : Text → Option Text → Argument

abbrev onto_name : ℕ → Text × Option Text → Text × Option Text
onto_name c (name, value) = (c ∷ name, value)

cut_equals : Text → Text × Option Text
cut_equals [] = ([], none)
cut_equals (c ∷ s) = let rest = cut_equals s in if c == b'=' then ([], some s) else onto_name c rest

read_name : Text → Argument
unfolding cut_equals
read_name [] = malformed
read_name (c ∷ s) =
    if c == b'-' || c == b'='
    then malformed
    else let (name, value) = cut_equals (c ∷ s) in named name value

unfoldable pub read_argument : Text → Argument
unfolding read_name
read_argument [] = operand
read_argument (c ∷ []) = operand
read_argument (c ∷ d ∷ s) =
    if c != b'-'
    then operand
    else if d != b'-'
    then read_name (d ∷ s)
    else if s == []
    then terminator
    else read_name s

-- Where the parser stands: before an argument, behind a flag that waits for its value, behind the
-- last flag, or at the end of the program with an exit status.
pub data Cursor : Type 0 where
  before_argument : List (Text × Value) → Cursor
  before_value : Text → Kind → List (Text × Value) → Cursor
  behind_flags : List (Text × Value) → Cursor
  exiting : ℕ → Cursor

find_kind : Formal → Text → Option Kind
find_kind [] name = none
find_kind ((other, kind) ∷ formal) name = if other == name then some kind else find_kind formal name

-- `parse_int` is `strconv.ParseInt(s, 0, 64)`.
module _ (parse_int : Text → Option ℤ) (formal : Formal) where
  set_flag : Text → Kind → Text → List (Text × Value) → Cursor
  set_flag name text_flag s values = before_argument ((name, text_value s) ∷ values)
  set_flag name int_flag s values = elim (parse_int s) [
    | none ↦ exiting 2
    | some n ↦ before_argument ((name, int_value n) ∷ values)
  ]

  take_flag : Text → Option Text → Option Kind → List (Text × Value) → Cursor
  unfolding set_flag
  take_flag name value none values =
      if name == codes "help" || name == codes "h" then exiting 0 else exiting 2
  take_flag name none (some kind) values = before_value name kind values
  take_flag name (some s) (some kind) values = set_flag name kind s values

  take_argument : Argument → List (Text × Value) → Cursor
  unfolding take_flag find_kind
  take_argument operand values = behind_flags values
  take_argument terminator values = behind_flags values
  take_argument malformed values = exiting 2
  take_argument (named name value) values = take_flag name value (find_kind formal name) values

  advance : Cursor → Text → Cursor
  unfolding take_argument set_flag read_argument
  advance (before_argument values) s = take_argument (read_argument s) values
  advance (before_value name kind values) s = set_flag name kind s values
  advance (behind_flags values) s = behind_flags values
  advance (exiting status) s = exiting status

  advance_all : Cursor → List Text → Cursor
  unfolding advance
  advance_all cursor [] = cursor
  advance_all cursor (arg ∷ args) = advance_all (advance cursor arg) args

  values_at : Cursor → Result ℕ (List (Text × Value))
  values_at (before_argument values) = ok values
  values_at (before_value name kind values) = err 2
  values_at (behind_flags values) = ok values
  values_at (exiting status) = err status

  -- The values that were set, the last one first, or an exit status.
  unfoldable pub parse : List Text → Result ℕ (List (Text × Value))
  unfolding advance_all values_at
  parse args = values_at (advance_all (before_argument []) args)

abbrev pub text_or : Text → Value → Text
text_or fallback (text_value s) = s
text_or fallback (int_value n) = fallback

abbrev pub int_or : ℤ → Value → ℤ
int_or fallback (text_value s) = fallback
int_or fallback (int_value n) = n

unfoldable pub text_of : List (Text × Value) → Text → Text → Text
text_of [] name fallback = fallback
text_of ((other, value) ∷ values) name fallback =
    let rest = text_of values name fallback in
    if other == name then text_or fallback value else rest

unfoldable pub int_of : List (Text × Value) → Text → ℤ → ℤ
int_of [] name fallback = fallback
int_of ((other, value) ∷ values) name fallback =
    let rest = int_of values name fallback in if other == name then int_or fallback value else rest
