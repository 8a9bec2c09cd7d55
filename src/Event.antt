-- ===== src/Event.antt =====
-- Event.h: the messages that the scheduler puts on the queues of the workers.
-- The payload is a folly::dynamic, a type of another library: it is an argument of the model.
use treadmill.Prelude.{◌≡◌, refl, Bool, true, false, String}
use treadmill.Prelude.Int.{ℤ}

-- folly::dynamic, as far as the code uses it, with its documented behaviour.
pub record Dynamic (D : Type 0) : Type 0 where
  pub null : D
  pub of_int : ℤ → D
  pub of_string : String → D
  pub is_int : D → Bool
  pub as_int : D → ℤ
  pub is_string : D → Bool
  pub as_string : D → String
  pub is_int-of_int : (z : ℤ) → is_int (of_int z) ≡ true
  pub as_int-of_int : (z : ℤ) → as_int (of_int z) ≡ z
  pub is_string-of_string : (s : String) → is_string (of_string s) ≡ true
  pub as_string-of_string : (s : String) → as_string (of_string s) ≡ s
  pub is_int-of_string : (s : String) → is_int (of_string s) ≡ false
  pub is_string-of_int : (z : ℤ) → is_string (of_int z) ≡ false

pub data EventType : Type 0 where
  stop : EventType
  reset : EventType
  send_request : EventType
  set_phase : EventType
  set_max_outstanding : EventType

pub record Event (D : Type 0) : Type 0 where
  pub event_type : EventType
  pub extra_data : D

-- Event(event_type), whose second argument is null by default.
abbrev pub bare : {D : Type 0} ⦃d : Dynamic D⦄ → EventType → Event D
bare ⦃d⦄ t = record { event_type = t; extra_data = d.null }

-- A small value type that meets the laws, for concrete runs.
pub data Value : Type 0 where
  nothing : Value
  whole : ℤ → Value
  text : String → Value

abbrev value_is_int : Value → Bool
value_is_int (whole z) = true
value_is_int _ = false

abbrev value_as_int : Value → ℤ
value_as_int (whole z) = z
value_as_int _ = ℤ.pos 0

abbrev value_is_string : Value → Bool
value_is_string (text s) = true
value_is_string _ = false

abbrev value_as_string : Value → String
value_as_string (text s) = s
value_as_string _ = ""

instance abbrev pub value_dynamic : Dynamic Value
value_dynamic = record {
  null = nothing;
  of_int = whole;
  of_string = text;
  is_int = value_is_int;
  as_int = value_as_int;
  is_string = value_is_string;
  as_string = value_as_string;
  is_int-of_int = λ z. refl;
  as_int-of_int = λ z. refl;
  is_string-of_string = λ s. refl;
  as_string-of_string = λ s. refl;
  is_int-of_string = λ s. refl;
  is_string-of_int = λ z. refl;
}
