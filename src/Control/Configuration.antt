-- ===== src/Control/Configuration.antt =====
-- The configuration that clients set and read.
use text.Mathlib.Text.{◌==◌ as str_eq}
use treadmill.Prelude.{
  ◌≡◌, refl, true, false, String, Option, none, some, [], ◌∷◌, arith, if◌then◌else◌, ℕ,
}
use treadmill.Prelude.Int.{ℤ}
use treadmill.Prelude.Dict.{lookup, insert, lookup-insert, lookup-nil, Dict, str_eq_self}
use treadmill.Control.{
  Control, Flags, is_nil, get_configuration, set_configuration, clear_configuration,
  configuration_empty, get_configuration_string, get_configuration_uint32, watchdog_update,
}

insert-not_nil : (k v : String) (m : Dict String) → is_nil (insert k v m) ≡ false
unfolding insert
insert-not_nil k v [] = refl
insert-not_nil k v ((j, w) ∷ m) = ground arith

module _ {D S : Type 0} (try_to_uint32 : String → Option ℕ) (flags : Flags) where
  -- A key that was set has its value, every other key what it had, and after clearing no key has
  -- one; reading changes no configuration. The getters with a default agree.
  pub get_configuration-set_configuration :
      (now later : ℤ) (key value other : String) (c : Control D S)
      → let c' : Control D S = set_configuration try_to_uint32 flags now key value c in
        ((get_configuration flags later other c').1
          ≡ (if str_eq key other then value else (get_configuration flags later other c).1))
        × ((get_configuration flags later other (clear_configuration flags now c')).1 ≡ "")
        × ((get_configuration flags later other c').0.configuration ≡ c'.configuration)
        × (get_configuration_string key "" c' ≡ value)
        × (get_configuration_string other "" c ≡ (get_configuration flags later other c).1)
        × (configuration_empty c' ≡ false)
        × (configuration_empty (clear_configuration flags now c') ≡ true)
  unfolding get_configuration set_configuration clear_configuration configuration_empty
      get_configuration_string watchdog_update
  get_configuration-set_configuration now later key value other c = (
    ground (arith, got other),
    ground (arith, lookup-nil String other),
    ground arith,
    ground (arith, got key, str_eq_self key),
    ground arith,
    ground (arith, insert-not_nil key value (watchdog_update flags now c).configuration),
    refl,
  )
    where
      got :
          (k : String)
          → lookup k (insert key value (watchdog_update flags now c).configuration) ≡ (
              if str_eq key k
              then some value
              else lookup k (watchdog_update flags now c).configuration)
      got k = lookup-insert key k value (watchdog_update flags now c).configuration

  -- The numeric getter falls back to its default for a missing key and for a value that is no
  -- uint32_t.
  pub get_configuration_uint32-set_configuration :
      (now : ℤ) (key value other : String) (default : ℕ) (c : Control D S)
      → let c' : Control D S = set_configuration try_to_uint32 flags now key value c in
        get_configuration_uint32 try_to_uint32 other default c' ≡ (
          if str_eq key other
          then elim (try_to_uint32 value) [ none ↦ default | some n ↦ n ]
          else get_configuration_uint32 try_to_uint32 other default c)
  unfolding get_configuration_uint32 set_configuration watchdog_update
  get_configuration_uint32-set_configuration now key value other default c =
      ground (arith, lookup-insert key other value (watchdog_update flags now c).configuration)
