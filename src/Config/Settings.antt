-- ===== src/Config/Settings.antt =====
-- The types of internal/pkg/config/config.go; those of groups and logging are in Groups.
use e2e_framework.Prelude.{Text, Dict, ℤ, Bool}
use e2e_framework.Domain.{Duration}
use e2e_framework.Groups.{TestGroupConfig, LoggingConfig}

pub record RedisStoreConfig : Type 0 where
  pub url : Text
  pub ttl : Duration
  pub username : Text
  pub password : Text
  pub cluster_mode : Bool

pub record PostgresStoreConfig : Type 0 where
  pub dsn : Text
  pub ttl : Duration

pub record MemoryStoreConfig : Type 0 where
  pub ttl : Duration

pub record StoreConfig : Type 0 where
  pub type : Text
  pub redis : RedisStoreConfig
  pub postgres : PostgresStoreConfig
  pub memory : MemoryStoreConfig

-- The fields of the blocks `server`, `auth` and `tests` stand beside the other blocks.
pub record Config : Type 0 where
  pub port : ℤ
  pub auth_enabled : Bool
  pub jwt_secret : Text
  pub store : StoreConfig
  pub logging : LoggingConfig
  pub test_groups : Dict TestGroupConfig
  pub tests_path : Text
