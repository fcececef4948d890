-- ===== src/Domain/Config.antt =====
-- The system configuration (domain/src/system/config.rs).
use luminair_service_aws_dsq.Base.{
  Bool, List, Result, ok, err, contains, string_eq, if◌then◌else◌, ◌≡◌, true, arith,
}
use luminair_service_aws_dsq.Domain.Ids.{SystemConfigId, LocaleId}
use luminair_service_aws_dsq.Domain.Errors.{DomainError, unknown_locale}

pub record SystemConfig : Type 0 where
  pub id : SystemConfigId
  pub available_locales : List LocaleId
  pub default_locale : LocaleId

unfoldable pub new : SystemConfigId → List LocaleId → LocaleId → Result DomainError SystemConfig
new id available_locales default_locale =
    if contains available_locales default_locale
    then ok
        (record { id = id; available_locales = available_locales; default_locale = default_locale })
    else err (unknown_locale default_locale)

unfoldable pub contains_locale : SystemConfig → LocaleId → Bool
contains_locale config locale = contains config.available_locales locale

-- A configuration that `new` accepts supports its own default locale.
pub new-contains_locale :
    (id : SystemConfigId) (locales : List LocaleId) (default_locale : LocaleId)
    (config : SystemConfig)
    → new id locales default_locale ≡ ok config
    → contains_locale config config.default_locale ≡ true
unfolding new contains_locale
new-contains_locale id locales default_locale config h = ground arith
