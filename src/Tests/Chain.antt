-- ===== src/Tests/Chain.antt =====
-- Runs of the theorems on snapshots, on catching up and on the producer, at the test's data.
use east_validator.Prelude.{
  none, ℕ, zero, suc, ◌+◌, ◌≡◌, ◌<◌, ◌≤◌, refl, [], ◌∷◌, Option, some, true, false, arith,
}
use east_validator.Prelude.Text.{codes, text_eq, to_lower, trim_space, is_empty}
use east_validator.Prelude.Maps.{lookup, text_key, nat_eq}
use east_validator.Errors.{ok}
use east_validator.State.{BlockHeader, Store, open_store, normalize_addr}
use east_validator.State.Accounts.{get_or, get_account}
use east_validator.State.Accounts.Lookup.{IsNormal}
use east_validator.State.Blocks.{get_latest_height}
use east_validator.State.Backup.{is_used, export_backup, import_full_snapshot}
use east_validator.State.Backup.Import.{other_chain, import_full_snapshot-is_used}
use east_validator.State.Backup.RoundTrip.{OnceEach, import_full_snapshot-export_backup}
use east_validator.P2p.BlockSync.{BlockAnnounce}
use east_validator.Sync.{HttpReply, is_over, unfinished}
use east_validator.Sync.Archive.{ArchiveBlock, ArchiveRangeResponse, sync_from_archive}
use east_validator.Sync.Archive.Vetting.{Vetted, sync_from_archive-Vetted}
use east_validator.Sync.Archive.Enough.{sync_from_archive-is_over}
use east_validator.Sync.Peers.{Peer, sync_from_peers}
use east_validator.Sync.Peers.Stale.{sync_from_peers_stale}
use east_validator.Sync.Peers.Answers.{serving, Holds}
use east_validator.Sync.Peers.Honest.{Synced, sync_from_peers-Synced}
use east_validator.Mempool.{add, new, default_config}
use east_validator.Consensus.Producer.{Producer, try_seal}
use east_validator.Consensus.Producer.Ticks.{Ticked, try_seal-Ticked}
use east_validator.Tests.{pay, alice, bob, bob_account, ledger, library}

abbrev header_at : ℕ → BlockHeader
header_at height = record {
  height = height;
  hash = codes "0x0b";
  prev_hash = codes "0x0a";
  state_root = codes "";
  tx_hashes = [];
  timestamp = 5;
  proposer = alice;
  tx_count = 0;
  signature = codes "0x01";
  last_commit_round = 0;
  last_commit_votes = 0;
}

-- A store with two blocks, and one that has only bob's account.
abbrev tall : Store
tall = record ledger { blocks = (1, header_at 1) ∷ (2, header_at 2) ∷ []; latest_height = some 2 }

abbrev short : Store
short = record open_store { accounts = (bob, record bob_account { balance = 77 }) ∷ [] }

alice-is_used : is_used (get_account alice ledger) ≡ true
unfolding get_account lookup normalize_addr to_lower trim_space text_eq
alice-is_used = refl

import_full_snapshot-is_used_example :
    get_account alice (import_full_snapshot 9 (some (export_backup 9 10 short)) false ledger).0
    ≡ get_account alice ledger
import_full_snapshot-is_used_example =
    import_full_snapshot-is_used 9 (export_backup 9 10 short) alice ledger alice-is_used

tall-IsNormal : IsNormal tall
unfolding normalize_addr to_lower trim_space
tall-IsNormal = (refl, (refl, tt))

tall-OnceEach : OnceEach tall.accounts
unfolding OnceEach lookup text_eq
tall-OnceEach = (refl, (refl, tt))

alice_is_named : is_empty (normalize_addr alice) ≡ false
unfolding normalize_addr to_lower trim_space
alice_is_named = refl

is_tall : get_latest_height tall ≡ 2
unfolding get_latest_height
is_tall = refl

same_chain : other_chain (export_backup 9 10 tall) short ≡ false
unfolding export_backup
same_chain = refl

import_full_snapshot-export_backup_example :
    (get_account alice (import_full_snapshot 9 (some (export_backup 9 10 tall)) true short).0
      ≡ get_or (lookup (normalize_addr alice) tall.accounts) (get_account alice short))
    × ((get_latest_height (import_full_snapshot 9 (some (export_backup 9 10 tall)) true short).0
          ≡ get_latest_height tall)
        × ((import_full_snapshot 9 (some (export_backup 9 10 tall)) true short).0.buckets
            ≡ short.buckets))
import_full_snapshot-export_backup_example =
    import_full_snapshot-export_backup 9 9 10 alice tall short tall-IsNormal tall-OnceEach
      alice_is_named (ground (arith, is_tall)) same_chain

abbrev archived : ℕ → ArchiveBlock
archived height = record {
  success = true;
  height = height;
  hash = codes "0x0b";
  previous_hash = codes "0x0a";
  merkle_root = [];
  validator = alice;
  timestamp = 5;
  signature = codes "0x01";
  transactions = [];
}

abbrev archive : ℕ → ℕ → Option (HttpReply ArchiveRangeResponse)
archive from to = some (record {
  status = 200;
  decoded = some (record { blocks = archived from ∷ archived to ∷ []; error = [] });
})

sync_from_archive-Vetted_example :
    Vetted library alice short
      (sync_from_archive library archive alice 2 (codes "http://archive") 700 short).0
sync_from_archive-Vetted_example =
    sync_from_archive-Vetted library archive alice 2 (codes "http://archive") 700 short refl

sync_from_archive-is_over_example :
    is_over (sync_from_archive library archive alice 2 (codes "http://archive") 700 short).1 ≡ true
sync_from_archive-is_over_example =
    sync_from_archive-is_over library archive alice 2 (codes "http://archive") 700 short
      (omega arith) (omega arith)

abbrev stale_block : BlockAnnounce
stale_block = record {
  height = 2;
  hash = codes "0x0b";
  prev_hash = codes "0x0a";
  timestamp = 5;
  proposer = alice;
  signature = codes "0x01";
  tx_hashes = [];
}

abbrev stale_peer : Peer
stale_peer call from to = ok (stale_block ∷ [])

sync_from_peers_stale_example :
    sync_from_peers 1000 (some (stale_peer ∷ [])) 9 tall ≡ (tall, unfinished)
sync_from_peers_stale_example =
    sync_from_peers_stale stale_block stale_peer [] 1000 9 tall (λ call from to. refl)
      (omega (arith, is_tall)) (omega (arith, is_tall)) (omega arith)

tall-Holds : (height : ℕ) → 0 < height → height ≤ 2 → Holds tall height
unfolding Holds lookup
tall-Holds zero low high = absurd (omega (arith, low))
tall-Holds (suc zero) low high = (header_at 1, (refl, refl))
tall-Holds (suc (suc zero)) low high = (header_at 2, (refl, refl))
tall-Holds (suc (suc (suc n))) low high = absurd (omega (arith, high))

is_short : get_latest_height short ≡ 0
unfolding get_latest_height
is_short = refl

sync_from_peers-Synced_example :
    Synced tall
      (get_latest_height short + 1)
      2
      (sync_from_peers 2 (some (serving tall ∷ [])) 2 short)
sync_from_peers-Synced_example =
    sync_from_peers-Synced tall [] 2 2 short (omega arith) (omega (arith, is_short))
      (omega (arith, is_short))
      (λ height low high. tall-Holds height (omega (arith, low, is_short)) high)

abbrev producer : Producer
producer = record {
  interval = 120000;
  max_txs = 100;
  last_external = none;
  leader = none;
  pool = some (add library [] 6000 (some pay) (new default_config) tall).0;
  store = tall;
  announced = [];
  has_p2p = true;
}

try_seal-Ticked_example : Ticked producer (try_seal library [] [] alice 7000 producer)
try_seal-Ticked_example = try_seal-Ticked library [] [] alice 7000 producer
