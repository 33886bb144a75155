-- ===== src/Config.antt =====
-- internal/config/config.go: the configuration of the validator, read from the environment.
-- `env` gives a variable's value, empty if it is not set; ShutdownTimeout is a constant.
use east_validator.Prelude.{ℕ, Bool, not, ◌++◌, if◌then◌else◌}
use east_validator.Prelude.Int.{lt64, ◌*64◌}
use east_validator.Prelude.Text.{Text, codes, text_eq, is_empty}
use east_validator.Prelude.Parse.{parse_int}

-- `block_interval` is in nanoseconds.
pub record Config : Type 0 where
  pub http_addr : Text
  pub data_dir : Text
  pub node_id : Text
  pub node_name : Text
  pub api_secret : Text
  pub keep_recent_blocks : ℕ
  pub genesis_path : Text
  pub block_interval : ℕ
  pub auto_produce : Bool
  pub epoch_seconds : ℕ

module _ (env : Text → Text) where
  get_env : Text → Text → Text
  get_env key fallback = if is_empty (env key) then fallback else env key

  default_address : Text
  default_address =
      if is_empty (env (codes "PORT")) then codes ":8080" else codes ":" ++ env (codes "PORT")

  -- `if n <= 0 { n = otherwise }`.
  abbrev at_least_one : ℕ → ℕ → ℕ
  at_least_one n otherwise = if lt64 0 n then n else otherwise

  unfoldable pub load : Config
  unfolding get_env default_address
  load = record {
    http_addr =
        if is_empty (get_env (codes "HTTP_ADDR") (codes ""))
        then default_address
        else get_env (codes "HTTP_ADDR") (codes "");
    data_dir = get_env (codes "DATA_DIR") (codes "./data");
    node_id = get_env (codes "NODE_ID") (codes "validator-1");
    node_name = get_env (codes "NODE_NAME") (codes "east-validator");
    api_secret = get_env (codes "API_SECRET") (codes "");
    keep_recent_blocks = (parse_int (get_env (codes "KEEP_RECENT_BLOCKS") (codes "3000"))).0;
    genesis_path = get_env (codes "GENESIS_PATH") (codes "./genesis.json");
    block_interval =
        at_least_one (parse_int (get_env (codes "BLOCK_INTERVAL_SEC") (codes "120"))).0 120
        *64 1000000000;
    auto_produce = not (text_eq (get_env (codes "AUTO_PRODUCE") (codes "true")) (codes "false"));
    epoch_seconds =
        at_least_one (parse_int (get_env (codes "EPOCH_SECONDS") (codes "604800"))).0 604800;
  }
