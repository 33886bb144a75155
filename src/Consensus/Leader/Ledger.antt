-- ===== src/Consensus/Leader/Ledger.antt =====
-- leader.go and uptime.go: the parts of the store that reading the schedule and recording a heartbeat
-- leave as they are.
use east_validator.Prelude.{
  ℕ, ◌≡◌, refl, ◌∙◌, inl, inr, List, [], ◌∷◌, Option, none, some, Bool-cases,
}
use east_validator.Prelude.Text.{Text, is_empty}
use east_validator.Errors.{or_else, Result, ok}
use east_validator.State.{Store, JailRecord, HeartbeatRecord}
use east_validator.Prelude.Maps.{lookup, text_key}
use mathlib.Core.Path.{subst}
use east_validator.State.{normalize_addr}
use east_validator.State.Roster.{is_jailed, drop_expired, is_expired, jail_key, unjail_validator}
use east_validator.State.Uptime.{record_heartbeat}
use east_validator.Consensus.Leader.{
  LeaderSchedule, eligible_among, eligible_validators, stats, leader_for_height, is_local_leader,
}

-- The chain, the accounts, the supply and the validator set are the same.
pub record SameLedger (before after : Store) : Type 0 where
  pub accounts : after.accounts ≡ before.accounts
  pub buckets : after.buckets ≡ before.buckets
  pub blocks : after.blocks ≡ before.blocks
  pub block_txs : after.block_txs ≡ before.block_txs
  pub tx_index : after.tx_index ≡ before.tx_index
  pub latest_height : after.latest_height ≡ before.latest_height
  pub validator_set : after.validator_set ≡ before.validator_set

abbrev pub same : (s : Store) → SameLedger s s
same s = record {
  accounts = refl;
  buckets = refl;
  blocks = refl;
  block_txs = refl;
  tx_index = refl;
  latest_height = refl;
  validator_set = refl;
}

unjail_validator-SameLedger : (addr : Text) (s : Store) → SameLedger s (unjail_validator addr s)
unfolding unjail_validator
unjail_validator-SameLedger addr s = record {
  accounts = refl;
  buckets = refl;
  blocks = refl;
  block_txs = refl;
  tx_index = refl;
  latest_height = refl;
  validator_set = refl;
}

SameLedger-trans : (a b c : Store) → SameLedger a b → SameLedger b c → SameLedger a c
SameLedger-trans a b c f g = record {
  accounts = g.accounts ∙ f.accounts;
  buckets = g.buckets ∙ f.buckets;
  blocks = g.blocks ∙ f.blocks;
  block_txs = g.block_txs ∙ f.block_txs;
  tx_index = g.tx_index ∙ f.tx_index;
  latest_height = g.latest_height ∙ f.latest_height;
  validator_set = g.validator_set ∙ f.validator_set;
}

drop_expired-SameLedger :
    (now : ℕ) (addr : Text) (o : Option JailRecord) (s : Store)
    → SameLedger s (drop_expired now addr o s)
drop_expired-SameLedger now addr none s = same s
drop_expired-SameLedger now addr (some rec) s = elim (Bool-cases (is_expired now rec)) [
  | inl e ↦ rw e (unjail_validator-SameLedger addr s)
  | inr e ↦ rw e (same s)
]

is_jailed-SameLedger : (now : ℕ) (addr : Text) (s : Store) → SameLedger s (is_jailed now addr s).0
unfolding is_jailed
is_jailed-SameLedger now addr s =
    drop_expired-SameLedger now (normalize_addr addr)
      (lookup (jail_key (normalize_addr addr)) s.jail) s

eligible_among-SameLedger :
    (now : ℕ) (addrs : List Text) (s : Store) → SameLedger s (eligible_among now addrs s).0
unfolding eligible_among
eligible_among-SameLedger now [] s = same s
eligible_among-SameLedger now (addr ∷ addrs) s =
    let checked = (is_jailed now addr s).0 in
    SameLedger-trans s checked (eligible_among now addrs checked).0
      (is_jailed-SameLedger now addr s) (eligible_among-SameLedger now addrs checked)

pub eligible_validators-SameLedger :
    (now : ℕ) (l : LeaderSchedule) (s : Store) → SameLedger s (eligible_validators now l s).0
unfolding eligible_validators
eligible_validators-SameLedger now l s = elim (Bool-cases l.wired) [
  | inl e ↦ rw e (eligible_among-SameLedger now l.validators s)
  | inr e ↦ rw e (same s)
]

pub stats-SameLedger :
    (now height : ℕ) (l : LeaderSchedule) (s : Store) → SameLedger s (stats now height l s).0
unfolding stats
stats-SameLedger now height l s = eligible_validators-SameLedger now l s

pub is_local_leader-SameLedger :
    (now height : ℕ) (l : LeaderSchedule) (s : Store)
    → SameLedger s (is_local_leader now height l s).0
unfolding is_local_leader leader_for_height
is_local_leader-SameLedger now height l s =
    let first = (eligible_validators now l s).0 in
    SameLedger-trans s first (eligible_validators now l first).0
      (eligible_validators-SameLedger now l s) (eligible_validators-SameLedger now l first)

heartbeats_only :
    {hb : List (Text × HeartbeatRecord)} {scores : List (Text × List (ℕ × HeartbeatRecord))}
    (s : Store)
    → SameLedger s (record s { heartbeats = hb; epoch_scores = scores })
heartbeats_only {hb} {scores} s = record {
  accounts = refl;
  buckets = refl;
  blocks = refl;
  block_txs = refl;
  tx_index = refl;
  latest_height = refl;
  validator_set = refl;
}

pub record_heartbeat-SameLedger :
    (now : ℕ) (address node_id tier : Text) (seconds : ℕ) (s : Store) (r : Store × HeartbeatRecord)
    → record_heartbeat now address node_id tier seconds s ≡ ok r
    → SameLedger s r.0
unfolding record_heartbeat
record_heartbeat-SameLedger now address node_id tier seconds s r recorded =
    elim (Bool-cases (is_empty address)) [
      | inl e ↦ cc (rw e at recorded)
      | inr e ↦
          subst (λ (x : Result (Store × HeartbeatRecord)). SameLedger s (or_else x r).0)
            (rw e at recorded) (heartbeats_only s)
    ]
