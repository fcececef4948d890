-- ===== src/Application/SystemConfig.antt =====
-- The system configuration service (application/src/services/system_config.rs).
use luminair_service_aws_dsq.Base.{Bool, List, string_eq}
use luminair_service_aws_dsq.Domain.Ids.{LocaleId}
use luminair_service_aws_dsq.Domain.Config.{SystemConfig, contains_locale}
use luminair_service_aws_dsq.Application.Documents.{SystemContext}

record SystemConfigServiceImpl : Type 0 where
  pub context : SystemContext

abbrev get_config : SystemConfigServiceImpl → SystemConfig
get_config service = service.context.config

abbrev is_locale_supported : SystemConfigServiceImpl → LocaleId → Bool
is_locale_supported service locale = contains_locale (get_config service) locale

abbrev fallback_locale : SystemConfigServiceImpl → LocaleId
fallback_locale service = (get_config service).default_locale

abbrev supported_locales : SystemConfigServiceImpl → List LocaleId
supported_locales service = (get_config service).available_locales
