-- ===== src/Tests/Web.antt =====
-- Runs of the theorems on the HTTP interface, at the test's data.
use east_validator.Prelude.{
  ℕ, ◌≡◌, ◌≤◌, ◌⊎◌, refl, List, [], ◌∷◌, ◌++◌, none, some, true, false, arith, length,
}
use east_validator.Prelude.Text.{Text, codes, to_lower, trim_space, text_eq}
use east_validator.Prelude.Maps.{lookup, text_key, nat_eq}
use east_validator.Prelude.Format.{hex_digit, hex_value}
use east_validator.Prelude.Parse.{show_hex, parse_uint}
use east_validator.Errors.{ok}
use east_validator.State.{BlockHeader, Store}
use east_validator.State.Blocks.{get_block}
use east_validator.Consensus.Leader.{LeaderSchedule}
use east_validator.Config.{Config}
use east_validator.Api.Server.{
  Server, World, ValidatorRegisterRequest, SeedRequest, at_seed, block_result,
}
use east_validator.Api.Rpc.{parse_block_tag, get_block_by_number}
use east_validator.Api.Rpc.Tags.{get_block_by_number-show_hex}
use east_validator.Api.Writes.{handle_register_validator}
use east_validator.Api.Routes.{is_authorized, serve}
use east_validator.Api.Routes.Guarded.{Untouched, serve-Untouched}
use east_validator.Api.Routes.Signed.{Entitled, handle_register_validator-Entitled}
use east_validator.Api.Limits.{recent}
use east_validator.Api.Limits.Window.{Ordered, passes, allow_few}
use east_validator.Tests.{alice, bob, ledger, library}

abbrev settings : Config
settings = record {
  http_addr = codes ":8080";
  data_dir = codes "./data";
  node_id = codes "validator-1";
  node_name = codes "east-validator";
  api_secret = codes "hush";
  keep_recent_blocks = 3000;
  genesis_path = codes "./genesis.json";
  block_interval = 120000000000;
  auto_produce = true;
  epoch_seconds = 604800;
}

abbrev schedule : LeaderSchedule
schedule = record { validators = bob ∷ []; local_addr = bob; wired = true }

abbrev server : Server
server = record {
  cfg = settings;
  store = ledger;
  pool = none;
  leader = some schedule;
  published = some [];
  written = [];
}

abbrev world : World
world = record { now = 1000000; oracle = []; files = λ path. none }

abbrev grab : SeedRequest
grab = record { address = bob; balance = 999; staked = 0; pending_unstake = 0; mode = [] }

is_refused : is_authorized (codes "guess") server ≡ false
unfolding is_authorized text_eq
is_refused = refl

serve-Untouched_example :
    Untouched server
      (serve library world
        (record { secret = codes "guess"; route = at_seed (some grab) })
        server).0
serve-Untouched_example =
    serve-Untouched library world (codes "guess") (at_seed (some grab)) server is_refused

abbrev enrolment : ValidatorRegisterRequest
enrolment = record { address = alice; unix_ms = 999000; signature = codes "0x01" }

handle_register_validator-Entitled_example :
    ((handle_register_validator library world (some enrolment) server).0 ≡ server)
    ⊎ Entitled library world enrolment schedule server
handle_register_validator-Entitled_example =
    handle_register_validator-Entitled library world enrolment schedule server refl

abbrev block : BlockHeader
block = record {
  height = 26;
  hash = codes "0x0b";
  prev_hash = codes "0x0a";
  state_root = codes "";
  tx_hashes = [];
  timestamp = 5;
  proposer = alice;
  tx_count = 0;
  signature = codes "0x01";
  last_commit_round = 0;
  last_commit_votes = 0;
}

abbrev with_block : Store
with_block = record ledger { blocks = (26, block) ∷ []; latest_height = some 26 }

block_is_found : get_block 26 with_block ≡ ok block
unfolding get_block lookup
block_is_found = refl

get_block_by_number-show_hex_example :
    get_block_by_number (codes "0x" ++ show_hex 26) with_block ≡ ok (block_result block)
get_block_by_number-show_hex_example =
    get_block_by_number-show_hex 26 block with_block (omega arith) (omega arith) block_is_found

-- The tag is the text "0x1a".
shown_in_hex : show_hex 26 ≡ codes "1a"
unfolding show_hex hex_digit
shown_in_hex = refl

-- A tag in decimal digits is read in hexadecimal.
decimal_is_misread : parse_block_tag (codes "10") with_block ≡ ok 16
unfolding parse_block_tag parse_uint to_lower trim_space text_eq hex_value
decimal_is_misread = refl

abbrev calls : List (ℕ × Text)
calls = (5, alice) ∷ (6, alice) ∷ (7, bob) ∷ (8, alice) ∷ (70, alice) ∷ []

calls-Ordered : Ordered 0 calls 71
unfolding Ordered
calls-Ordered =
    (omega arith, (omega arith, (omega arith, (omega arith, (omega arith, omega arith)))))

allow_few_example :
    length (recent 71 60 (passes alice calls (record { hits = []; max = 2; window = 60 }))) ≤ 2
allow_few_example = allow_few alice calls 0 71 2 60 calls-Ordered
