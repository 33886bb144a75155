-- ===== src/Consensus/Leader.antt =====
-- internal/consensus/leader.go and jail.go: the proposer's schedule. `now` is the wall clock; looking
-- up the jail may drop expired records, so the store is threaded through.
pub mod Rotation
pub mod Ledger
use east_validator.Prelude.{
  ℕ, zero, suc, ◌%◌, ◌≡◌, refl, Bool, true, false, not, ◌&&◌, ◌||◌, List, [], ◌∷◌, ◌++◌, Option,
  none, some, arith, length, get_elem?, if◌then◌else◌,
}
use east_validator.Prelude.Int.{lt64}
use east_validator.Prelude.Text.{Text, codes, text_eq, text_lt, equal_fold, is_empty}
use east_validator.Prelude.Format.{show_nat, show_int32}
use east_validator.State.{Store, ValidatorSetRecord, normalize_addr}
use east_validator.State.Accounts.{get_or, get_account}
use east_validator.State.Roster.{
  member, normalize_all, save_validator_set, is_jailed, jail_validator,
}
use east_validator.Errors.{Error, Result, ok, err, no_store}

-- `wired` says that the store is set.
pub record LeaderSchedule : Type 0 where
  pub validators : List Text
  pub local_addr : Text
  pub wired : Bool

unfoldable pub new_leader_schedule : Text → LeaderSchedule
new_leader_schedule local = record {
  validators = [];
  local_addr = normalize_addr local;
  wired = false;
}

unfoldable pub set_store : LeaderSchedule → LeaderSchedule
set_store l = record l { wired = true }

unfoldable pub set_local_address : Text → LeaderSchedule → LeaderSchedule
set_local_address addr l = record l { local_addr = normalize_addr addr }

abbrev pub is_some {ℓ} : {A : Type ℓ} → Option A → Bool
is_some none = false
is_some (some a) = true

-- The loop over the registered validators.
unfoldable pub eligible_among : ℕ → List Text → Store → Store × List Text
eligible_among now [] s = (s, [])
eligible_among now (addr ∷ addrs) s =
    let (checked, jailed) = is_jailed now addr s in
    let (after, rest) = eligible_among now addrs checked in
    let acc = get_account addr checked in
    let min = checked.min_validator_stake in
    (after, if is_some jailed || (lt64 0 min && lt64 acc.staked min) then rest else addr ∷ rest)

unfoldable pub eligible_validators : ℕ → LeaderSchedule → Store → Store × List Text
unfolding eligible_among
eligible_validators now l s =
    if l.wired then eligible_among now l.validators s else (s, l.validators)

unfoldable pub insert_sorted : Text → List Text → List Text
insert_sorted a [] = a ∷ []
insert_sorted a (b ∷ bs) = if text_lt b a then b ∷ insert_sorted a bs else a ∷ b ∷ bs

-- sort.Strings.
unfoldable pub sort_strings : List Text → List Text
unfolding insert_sorted
sort_strings [] = []
sort_strings (a ∷ as') = insert_sorted a (sort_strings as')

abbrev is_nil : List Text → Bool
is_nil [] = true
is_nil (a ∷ more) = false

unfoldable pub set_validators : ℕ → List Text → LeaderSchedule → Store → LeaderSchedule × Store
unfolding sort_strings
set_validators now addrs l s =
    let list = sort_strings (normalize_all [] addrs) in
    (
      record l { validators = list },
      if l.wired && not (is_nil list) then save_validator_set now list s else s,
    )

load_record : Option ValidatorSetRecord → LeaderSchedule → LeaderSchedule × Bool
load_record none l = (l, false)
load_record (some rec) l =
    if is_nil rec.addresses
    then (l, false)
    else (record l { validators = sort_strings rec.addresses }, true)

unfoldable pub load_from_store : LeaderSchedule → Store → LeaderSchedule × Bool
unfolding load_record
load_from_store l s = if l.wired then load_record s.validator_set l else (l, false)

unfoldable pub is_eligible : Text → LeaderSchedule → Store → Result Bool
is_eligible addr l s =
    if l.wired
    then ok (not (lt64 (get_account addr s).staked s.min_validator_stake))
    else err no_store

unfoldable pub add_validator : Text → LeaderSchedule → LeaderSchedule
unfolding sort_strings
add_validator address l =
    let addr = normalize_addr address in
    if is_empty addr || member addr l.validators
    then l
    else record l { validators = sort_strings (l.validators ++ addr ∷ []) }

unfoldable pub without : Text → List Text → List Text
without addr [] = []
without addr (v ∷ vs) = if text_eq v addr then without addr vs else v ∷ without addr vs

unfoldable pub remove_validator : Text → LeaderSchedule → LeaderSchedule
unfolding without
remove_validator addr l = record l { validators = without (normalize_addr addr) l.validators }

unfoldable pub leader_of : Text → ℕ → List Text → Text
leader_of local height [] = local
leader_of local height (a ∷ []) = a
leader_of local height (a ∷ b ∷ more) =
    get_or (get_elem? (a ∷ b ∷ more) (height % length (a ∷ b ∷ more))) local

unfoldable pub leader_for_height : ℕ → ℕ → LeaderSchedule → Store → Store × Text
unfolding leader_of
leader_for_height now height l s =
    let (after, eligible) = eligible_validators now l s in
    (after, leader_of l.local_addr height eligible)

unfoldable pub is_local_leader : ℕ → ℕ → LeaderSchedule → Store → Store × Bool
is_local_leader now height l s =
    let (first, leader) = leader_for_height now height l s in
    let (after, eligible) = eligible_validators now l first in
    (after, if is_empty l.local_addr then is_nil eligible else equal_fold leader l.local_addr)

pub record LeaderStats : Type 0 where
  pub mode : Text
  pub validator_count : ℕ
  pub registered_validators : List Text
  pub eligible_validators : List Text
  pub local_address : Text
  pub next_height : ℕ
  pub next_leader : Text
  pub is_local_leader : Bool

abbrev mode_of : List Text → Text
mode_of [] = codes "solo"
mode_of (a ∷ []) = codes "single"
mode_of (a ∷ b ∷ more) = codes "round_robin"

unfoldable pub stats : ℕ → ℕ → LeaderSchedule → Store → Store × LeaderStats
unfolding leader_of
stats now next_height l s =
    let (after, eligible) = eligible_validators now l s in
    let leader = leader_of l.local_addr next_height eligible in
    (
      after,
      record {
        mode = mode_of eligible;
        validator_count = length eligible;
        registered_validators = l.validators;
        eligible_validators = eligible;
        local_address = l.local_addr;
        next_height = next_height;
        next_leader = leader;
        is_local_leader =
            is_nil eligible || is_empty l.local_addr || equal_fold leader l.local_addr;
      },
    )

-- 24 hours, in milliseconds.
abbrev pub default_jail_duration : ℕ
default_jail_duration = 86400000

unfoldable pub jail_on_equivocation : ℕ → Text → ℕ → ℕ → Text → Text → Store → Result Store
jail_on_equivocation now voter height round hash_a hash_b s =
    jail_validator now voter (codes "equivocation")
      (codes "equivocation height="
        ++ (show_nat height
            ++ (codes " round="
                ++ (show_int32 round
                    ++ (codes " hash_a=" ++ (hash_a ++ (codes " hash_b=" ++ hash_b)))))))
      default_jail_duration s
