-- ===== src/State/Roster.antt =====
-- internal/state/validators.go: the persisted validator set and the jail. Times are milliseconds,
-- as int64 patterns; `now` is the wall clock.
pub mod Jail
use east_validator.Prelude.{
  ℕ, zero, suc, ◌≡◌, refl, Bool, true, false, not, ◌&&◌, ◌||◌, List, [], ◌∷◌, Option, none, some,
  arith, length, if◌then◌else◌,
}
use east_validator.Prelude.Int.{lt64, ◌+64◌, inc64}
use east_validator.Prelude.Text.{text_lt, Text, text_eq, text_lt, to_lower, is_empty}
use east_validator.Prelude.Maps.{lookup, insert, delete, text_key}
use east_validator.Errors.{Error, Result, ok, err, ◌>>=◌, ◌>>◌, guard, address_required}
use east_validator.State.{Store, ValidatorSetRecord, JailRecord, normalize_addr}

unfoldable pub member : Text → List Text → Bool
member a [] = false
member a (b ∷ bs) = text_eq b a || member a bs

-- The first loop of SaveValidatorSet; `seen` is `uniq`.
unfoldable pub normalize_all : List Text → List Text → List Text
unfolding member
normalize_all seen [] = []
normalize_all seen (addr ∷ addrs) =
    let a = normalize_addr addr in
    let rest = normalize_all seen addrs in
    let with_a = a ∷ normalize_all (a ∷ seen) addrs in
    if is_empty a || member a seen then rest else with_a

-- One round of the exchange sort: position i against all later ones, which swap when smaller.
exchange_round : Text → List Text → Text × List Text
exchange_round x [] = (x, [])
exchange_round x (y ∷ ys) =
    let (least, rest) = exchange_round (if text_lt y x then y else x) ys in
    (least, (if text_lt y x then x else y) ∷ rest)

exchange_sort : ℕ → List Text → List Text
exchange_sort zero xs = xs
exchange_sort (suc fuel) [] = []
exchange_sort (suc fuel) (x ∷ xs) =
    let (least, rest) = exchange_round x xs in least ∷ exchange_sort fuel rest

-- The double loop; each round settles one place, so the length is fuel enough.
unfoldable pub stable_order : List Text → List Text
unfolding exchange_sort exchange_round
stable_order xs = exchange_sort (length xs) xs

unfoldable pub get_validator_set : Store → Option ValidatorSetRecord
get_validator_set s = s.validator_set

abbrev next_epoch : Option ValidatorSetRecord → ℕ
next_epoch none = 1
next_epoch (some rec) = inc64 rec.epoch

unfoldable pub save_validator_set : ℕ → List Text → Store → Store
unfolding normalize_all stable_order
save_validator_set now addrs s = record s {
  validator_set = some (record {
    addresses = stable_order (normalize_all [] addrs);
    updated_at = now;
    epoch = next_epoch s.validator_set;
  });
}

abbrev pub jail_key : Text → Text
jail_key addr = to_lower addr

-- `duration` is in milliseconds.
unfoldable pub jail_validator : ℕ → Text → Text → Text → ℕ → Store → Result Store
jail_validator now address reason evidence duration s =
    let addr = normalize_addr address in
    do
      guard (not (is_empty addr)) address_required
      let rec : JailRecord = record {
        address = addr;
        reason = reason;
        jailed_at = now;
        until = if lt64 0 duration then now +64 duration else 0;
        evidence = evidence;
      }
      ok (record s { jail = insert (jail_key addr) rec s.jail })

unfoldable pub unjail_validator : Text → Store → Store
unjail_validator addr s = record s { jail = delete (jail_key (normalize_addr addr)) s.jail }

abbrev pub is_expired : ℕ → JailRecord → Bool
is_expired now rec = lt64 0 rec.until && lt64 rec.until now

-- What IsJailed answers for the record that it finds.
abbrev pub active_record : ℕ → Option JailRecord → Option JailRecord
active_record now none = none
active_record now (some rec) = if is_expired now rec then none else some rec

abbrev pub drop_expired : ℕ → Text → Option JailRecord → Store → Store
drop_expired now addr none s = s
drop_expired now addr (some rec) s = if is_expired now rec then unjail_validator addr s else s

-- An expired record is removed on the way.
unfoldable pub is_jailed : ℕ → Text → Store → Store × Option JailRecord
unfolding unjail_validator
is_jailed now address s =
    let addr = normalize_addr address in
    let found = lookup (jail_key addr) s.jail in
    (drop_expired now addr found s, active_record now found)

active_first : ℕ → ℕ → List (Text × JailRecord) → List JailRecord
active_first now zero recs = []
active_first now (suc limit) [] = []
active_first now (suc limit) ((key, rec) ∷ recs) =
    let skipped = active_first now (suc limit) recs in
    let taken = rec ∷ active_first now limit recs in if is_expired now rec then skipped else taken

-- Badger iterates in the order of the keys.
insert_by_key : Text × JailRecord → List (Text × JailRecord) → List (Text × JailRecord)
insert_by_key e [] = e ∷ []
insert_by_key e (d ∷ ds) = if text_lt d.0 e.0 then d ∷ insert_by_key e ds else e ∷ d ∷ ds

sort_by_key : List (Text × JailRecord) → List (Text × JailRecord)
unfolding insert_by_key
sort_by_key [] = []
sort_by_key (e ∷ es) = insert_by_key e (sort_by_key es)

-- `limit` is an int.
unfoldable pub list_jailed : ℕ → ℕ → Store → List JailRecord
unfolding active_first sort_by_key
list_jailed now limit s =
    active_first now (if not (lt64 0 limit) || lt64 500 limit then 100 else limit)
      (sort_by_key s.jail)
