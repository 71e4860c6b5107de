-- ===== src/Resources/Environment.antt =====
-- The runtime's environment, key by key.
use trussium_operator.Prelude.{
  ◌≡◌, refl, ◌∙◌, inl, inr, Bool-cases, subst, String, Bool, true, false, Option, none, some, arith,
  eq_iff, ◌==◌, if◌then◌else◌,
}
use mathlib.Core.Option
use trussium_operator.Prelude.Int.{ℤ}
use trussium_operator.Prelude.Text.{itoa}
use trussium_operator.Prelude.Map.{StringMap, lookup, lookup-insert}
use trussium_operator.Api.{TrussiumRuntime, RuntimeSettingsSpec}
use trussium_operator.Resources.Constants.{
  env_environment, env_runtime_host, env_runtime_port, env_provider_name, env_provider_base_url,
  env_provider_request_seconds, env_provider_stream_idle, env_runtime_shutdown_seconds,
  default_runtime_environment, default_runtime_host, runtime_http_port,
}
use trussium_operator.Resources.Config.{
  set_text, set_number, with_settings, base_data, runtime_config_data,
}

-- A field of the optional settings, printed.
abbrev pub printed : (RuntimeSettingsSpec → Option ℤ) → Option RuntimeSettingsSpec → Option String
printed field none = none
printed field (some s) = Option.map itoa (field s)

-- The table of the runtime's variables.
abbrev pub variable : TrussiumRuntime → String → Option String
variable r k =
    if env_environment == k
    then some "production"
    else if env_runtime_host == k
    then some "0.0.0.0"
    else if env_runtime_port == k
    then some (itoa runtime_http_port)
    else if env_provider_name == k
    then some r.spec.provider.type
    else if env_provider_base_url == k
    then r.spec.provider.base_url
    else if env_provider_request_seconds == k
    then printed (λ s. s.provider_request_timeout_seconds) r.spec.runtime
    else if env_provider_stream_idle == k
    then printed (λ s. s.stream_idle_timeout_seconds) r.spec.runtime
    else if env_runtime_shutdown_seconds == k
    then printed (λ s. s.shutdown_drain_timeout_seconds) r.spec.runtime
    else none

-- A write of an optional value shadows the key only where it is given.
abbrev pub shadowed : Bool → Option String → Option String → Option String
shadowed false new old = old
shadowed true none old = old
shadowed true (some v) old = some v

lookup-set_text :
    (k key : String) (o : Option String) (m : StringMap)
    → lookup k (set_text key o m) ≡ shadowed (key == k) o (lookup k m)
lookup-set_text k key none m = ground arith
lookup-set_text k key (some v) m = ground (arith, lookup-insert key k v m)

lookup-set_number :
    (k key : String) (o : Option ℤ) (m : StringMap)
    → lookup k (set_number key o m) ≡ shadowed (key == k) (Option.map itoa o) (lookup k m)
lookup-set_number k key none m = ground arith
lookup-set_number k key (some n) m = ground (arith, lookup-insert key k (itoa n) m)

lookup-with_settings :
    (k : String) (o : Option RuntimeSettingsSpec) (m : StringMap)
    → lookup k (with_settings o m)
      ≡ shadowed
          (env_runtime_shutdown_seconds == k)
          (printed (λ s. s.shutdown_drain_timeout_seconds) o)
          (shadowed
            (env_provider_stream_idle == k)
            (printed (λ s. s.stream_idle_timeout_seconds) o)
            (shadowed
              (env_provider_request_seconds == k)
              (printed (λ s. s.provider_request_timeout_seconds) o)
              (lookup k m)))
lookup-with_settings k none m = ground arith
lookup-with_settings k (some s) m =
    rw
      (
        lookup-set_number k env_runtime_shutdown_seconds,
        lookup-set_number k env_provider_stream_idle,
        lookup-set_number k env_provider_request_seconds,
      )
      refl

shadowed-none : (o : Option String) → shadowed true o none ≡ o
shadowed-none none = refl
shadowed-none (some v) = refl

-- What the writes leave at a key, in their order.
abbrev left : TrussiumRuntime → String → Option String
left r k =
    shadowed (env_runtime_shutdown_seconds == k)
      (printed (λ s. s.shutdown_drain_timeout_seconds) r.spec.runtime)
      (shadowed (env_provider_stream_idle == k)
        (printed (λ s. s.stream_idle_timeout_seconds) r.spec.runtime)
        (shadowed (env_provider_request_seconds == k)
          (printed (λ s. s.provider_request_timeout_seconds) r.spec.runtime)
          (shadowed (env_provider_base_url == k) r.spec.provider.base_url (
            if env_environment == k
            then some default_runtime_environment
            else if env_runtime_host == k
            then some default_runtime_host
            else if env_runtime_port == k
            then some (itoa runtime_http_port)
            else if env_provider_name == k
            then some r.spec.provider.type
            else none))))

-- Only one key has the literal's value.
at_key :
    (r : TrussiumRuntime) (key k : String)
    → (key == k) ≡ true
    → left r key ≡ variable r key
    → left r k ≡ variable r k
at_key r key k e h = subst (λ j. left r j ≡ variable r j) ((eq_iff key k).0 e) h

left-variable : (r : TrussiumRuntime) (k : String) → left r k ≡ variable r k
left-variable r k = elim (Bool-cases (env_provider_base_url == k)) [
  | inl e ↦ at_key r env_provider_base_url k e (shadowed-none r.spec.provider.base_url)
  | inr e1 ↦ elim (Bool-cases (env_provider_request_seconds == k)) [
    | inl e ↦ at_key r env_provider_request_seconds k e (shadowed-none _)
    | inr e2 ↦ elim (Bool-cases (env_provider_stream_idle == k)) [
      | inl e ↦ at_key r env_provider_stream_idle k e (shadowed-none _)
      | inr e3 ↦ elim (Bool-cases (env_runtime_shutdown_seconds == k)) [
        | inl e ↦ at_key r env_runtime_shutdown_seconds k e (shadowed-none _)
        | inr e4 ↦ rw (e1, e2, e3, e4) refl
      ]
    ]
  ]
]

-- The environment has exactly the variables of the table: the fixed address and port, the
-- provider's type, and each optional setting where it is given, numbers printed in decimal.
pub lookup-runtime_config_data :
    (r : TrussiumRuntime) (k : String) → lookup k (runtime_config_data r) ≡ variable r k
unfolding runtime_config_data lookup
lookup-runtime_config_data r k =
    let m = base_data r in
    lookup-with_settings k r.spec.runtime
      (set_text env_provider_base_url r.spec.provider.base_url m)
    ∙ (rw (lookup-set_text k env_provider_base_url r.spec.provider.base_url m) refl
        ∙ left-variable r k)
