-- ===== src/Events/Samples.antt =====
-- An instance of the parameters of the event models: whole numbers for floats, and conversions that
-- take only what has the wanted type already.
use event_driven_data_platfo.Base.{
  ℕ, ◌+◌, ◌-◌, ◌*◌, refl, Bool, String, Option, none, some, leb, ltb, eqb,
}
use event_driven_data_platfo.Base.Int.{ℤ, pos, negsuc}
use event_driven_data_platfo.Events.Values.{
  Json, boolean, integer, number, text, Floats, Conversions, ConversionLaws,
}

abbrev whole_part : ℤ → ℕ
whole_part (pos n) = n
whole_part (negsuc _) = 0

abbrev pub floats : Floats ℕ
floats = record {
  of_int = whole_part;
  literal = λ d k. d;
  add = ◌+◌;
  sub = ◌-◌;
  mul = ◌*◌;
  le = leb;
  lt = ltb;
  is_zero = eqb 0;
  parse = λ s. none;
  truncate = λ n. some (pos n);
  parse_int = λ s. none;
}

abbrev as_text : Json ℕ → Option String
as_text (text s) = some s
as_text _ = none

abbrev as_int : Json ℕ → Option ℤ
as_int (integer n) = some n
as_int _ = none

abbrev as_float : Json ℕ → Option ℕ
as_float (number x) = some x
as_float (integer n) = some (whole_part n)
as_float _ = none

abbrev as_bool : Json ℕ → Option Bool
as_bool (boolean b) = some b
as_bool _ = none

abbrev pub conversions : Conversions ℕ
conversions = record { to_text = as_text; to_int = as_int; to_float = as_float; to_bool = as_bool }

pub conversion_laws : ConversionLaws ℕ floats conversions
conversion_laws = record {
  text_same = λ s. refl;
  int_same = λ n. refl;
  float_same = λ x. refl;
  bool_same = λ b. refl;
  float_of_int = λ n. refl;
  zero_le_zero = refl;
}
