-- ===== src/Events/Values.antt =====
-- The values of a Python payload: JSON values, with the floating-point numbers as a parameter, and
-- what the platform assumes of Python's floats and of pydantic's conversions.
use event_driven_data_platfo.Base.{
  ℕ, zero, suc, not, is_empty, ◌≡◌, Bool, true, false, String, Option, none, some,
}
use event_driven_data_platfo.Base.Int.{ℤ, pos, negsuc}

mutual
  pub data Json (F : Type 0) : Type 0 where
    null : Json F
    boolean : Bool → Json F
    integer : ℤ → Json F
    number : F → Json F
    text : String → Json F
    array : Items F → Json F
    object : Fields F → Json F

  pub data Items (F : Type 0) : Type 0 where
    nil : Items F
    cons : Json F → Items F → Items F

  pub data Fields (F : Type 0) : Type 0 where
    end : Fields F
    field : String → Json F → Fields F → Fields F

-- Python's floats: `literal d k` is the decimal literal with the digits `d`, `k` of them behind the
-- point, `parse` is `float(text)`, `truncate` and `parse_int` are `int(…)` of a float and of a text.
pub record Floats (F : Type 0) : Type 0 where
  pub of_int : ℤ → F
  pub literal : ℕ → ℕ → F
  pub add : F → F → F
  pub sub : F → F → F
  pub mul : F → F → F
  pub le : F → F → Bool
  pub lt : F → F → Bool
  pub is_zero : F → Bool
  pub parse : String → Option F
  pub truncate : F → Option ℤ
  pub parse_int : String → Option ℤ

-- pydantic's conversions in its default mode, `none` where it reports an error. A value that has the
-- wanted type already is left as it is, and a whole number becomes the float that it is.
pub record Conversions (F : Type 0) : Type 0 where
  pub to_text : Json F → Option String
  pub to_int : Json F → Option ℤ
  pub to_float : Json F → Option F
  pub to_bool : Json F → Option Bool

pub record ConversionLaws (F : Type 0) (fl : Floats F) (cv : Conversions F) : Type 0 where
  pub text_same : (s : String) → cv.to_text (text s) ≡ some s
  pub int_same : (n : ℤ) → cv.to_int (integer n) ≡ some n
  pub float_same : (x : F) → cv.to_float (number x) ≡ some x
  pub bool_same : (b : Bool) → cv.to_bool (boolean b) ≡ some b
  pub float_of_int : (n : ℤ) → cv.to_float (integer n) ≡ some (fl.of_int n)
  pub zero_le_zero : fl.le (fl.of_int (pos 0)) (fl.of_int (pos 0)) ≡ true

-- `float(value)`; `none` is the `TypeError` or `ValueError`.
unfoldable pub float_of : {F : Type 0} → Floats F → Json F → Option F
float_of f null = none
float_of f (boolean true) = some (f.of_int (pos 1))
float_of f (boolean false) = some (f.of_int (pos 0))
float_of f (integer n) = some (f.of_int n)
float_of f (number x) = some x
float_of f (text s) = f.parse s
float_of f (array _) = none
float_of f (object _) = none

-- `int(value)`
unfoldable pub int_of : {F : Type 0} → Floats F → Json F → Option ℤ
int_of f null = none
int_of f (boolean true) = some (pos 1)
int_of f (boolean false) = some (pos 0)
int_of f (integer n) = some n
int_of f (number x) = f.truncate x
int_of f (text s) = f.parse_int s
int_of f (array _) = none
int_of f (object _) = none

-- The truth value of a JSON value.
unfoldable pub is_true : {F : Type 0} → Floats F → Json F → Bool
is_true f null = false
is_true f (boolean b) = b
is_true f (integer (pos zero)) = false
is_true f (integer (pos (suc _))) = true
is_true f (integer (negsuc _)) = true
is_true f (number x) = not (f.is_zero x)
is_true f (text s) = not (is_empty s)
is_true f (array nil) = false
is_true f (array (cons _ _)) = true
is_true f (object end) = false
is_true f (object (field _ _ _)) = true
