-- ===== src/State/Uptime.antt =====
-- internal/state/uptime.go: heartbeats and the uptime score. Times are milliseconds and all
-- numbers int64 patterns. The epoch index ("epoch:<id>:<address>") is kept by address first.
use east_validator.Prelude.{ℕ, zero, suc, not, ◌||◌, List, [], ◌∷◌, none, some, ◌==◌, if◌then◌else◌}
use east_validator.Prelude.Int.{lt64, inc64, ◌*64◌, div64}
use east_validator.Prelude.Text.{Text, codes, text_eq, to_lower, is_empty}
use east_validator.Prelude.Maps.{lookup, insert, text_key, nat_eq}
use east_validator.Errors.{Result, ok, ◌>>=◌, ◌>>◌, guard, or_fail, address_required, not_found}
use east_validator.State.{Store, HeartbeatRecord}
use east_validator.State.Accounts.{get_or}

abbrev pub tier_light : Text
tier_light = codes "light"

abbrev pub tier_full : Text
tier_full = codes "full"

abbrev hb_key : Text → Text
hb_key addr = to_lower addr

-- `if epochSeconds <= 0 { epochSeconds = 604800 }`: a week.
unfoldable pub epoch_length : ℕ → ℕ
epoch_length seconds = if lt64 0 seconds then seconds else 604800

unfoldable pub current_epoch_id : ℕ → ℕ → ℕ
unfolding epoch_length
current_epoch_id now seconds = div64 now (epoch_length seconds *64 1000)

abbrev pub blank_heartbeat : HeartbeatRecord
blank_heartbeat = record {
  address = [];
  node_id = [];
  tier = [];
  last_seen = 0;
  epoch_id = 0;
  count = 0;
  first_seen = 0;
}

-- The record after a heartbeat: a new epoch starts the count again.
unfoldable pub beat : ℕ → ℕ → Text → Text → Text → HeartbeatRecord → HeartbeatRecord
beat now epoch address node_id tier rec =
    if not (rec.epoch_id == epoch)
    then record {
      address = to_lower address;
      node_id = node_id;
      tier = tier;
      last_seen = now;
      epoch_id = epoch;
      count = 1;
      first_seen = now;
    }
    else record {
      address = to_lower address;
      node_id = node_id;
      tier = tier;
      last_seen = now;
      epoch_id = rec.epoch_id;
      count = inc64 rec.count;
      first_seen = if rec.first_seen == 0 then now else rec.first_seen;
    }

unfoldable pub record_heartbeat :
    ℕ → Text → Text → Text → ℕ → Store → Result (Store × HeartbeatRecord)
unfolding beat current_epoch_id
record_heartbeat now address node_id tier seconds s =
    let shown_tier = if text_eq tier tier_full then tier else tier_light in
    let epoch = current_epoch_id now seconds in
    let old = get_or (lookup (hb_key address) s.heartbeats) blank_heartbeat in
    let rec = beat now epoch address node_id shown_tier old in
    let scores = get_or (lookup (hb_key address) s.epoch_scores) [] in
    do
      guard (not (is_empty address)) address_required
      ok (
        record s {
          heartbeats = insert (hb_key address) rec s.heartbeats;
          epoch_scores = insert (hb_key address) (insert epoch rec scores) s.epoch_scores;
        },
        rec,
      )

unfoldable pub get_heartbeat : Text → Store → Result HeartbeatRecord
get_heartbeat address s = or_fail (lookup (hb_key address) s.heartbeats) not_found

-- The ratio is a float in the source: here it is the fraction `count / expected`, at most 1.
pub record UptimeScore : Type 0 where
  pub heartbeat : HeartbeatRecord
  pub ratio_num : ℕ
  pub ratio_den : ℕ

-- One heartbeat in three minutes is expected.
unfoldable pub expected_beats : ℕ → ℕ
unfolding epoch_length
expected_beats seconds =
    let expected = div64 (epoch_length seconds) 180 in if lt64 expected 1 then 1 else expected

unfoldable pub get_uptime_score : Text → ℕ → Store → Result UptimeScore
unfolding get_heartbeat expected_beats
get_uptime_score address seconds s = do
  rec ← get_heartbeat address s
  let expected = expected_beats seconds
  ok (record {
    heartbeat = rec;
    ratio_num = if lt64 expected rec.count then expected else rec.count;
    ratio_den = expected;
  })

-- The records of one epoch, at most `room` of them. The order of the keys is that of the list.
scores_of : ℕ → ℕ → List (Text × List (ℕ × HeartbeatRecord)) → List HeartbeatRecord
scores_of epoch zero m = []
scores_of epoch (suc room) [] = []
scores_of epoch (suc room) ((address, scores) ∷ m) =
    let skipped = scores_of epoch (suc room) m in
    let more = scores_of epoch room m in
    elim (lookup epoch scores) [ none ↦ skipped | some rec ↦ rec ∷ more ]

-- `limit` is an int.
unfoldable pub list_epoch_scores : ℕ → ℕ → Store → List HeartbeatRecord
unfolding scores_of
list_epoch_scores epoch limit s =
    scores_of epoch (if not (lt64 0 limit) || lt64 500 limit then 100 else limit) s.epoch_scores
