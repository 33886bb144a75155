-- ===== src/Tx.antt =====
-- internal/tx/tx.go: transactions, their hash, and the checks that need no state.
use east_validator.Prelude.{ℕ, Bool, ap, ◌≡◌, true, false, not, ◌++◌, arith, ◌==◌, if◌then◌else◌}
use mathlib.Core.Path.{subst}
use east_validator.Prelude.Int.{lt64, le64}
use east_validator.Prelude.Text.{Text, codes, equal_fold, is_empty, trim_space}
use east_validator.Prelude.Format.{show_nat, show_int64, hex_encode, quote}
use east_validator.Crypto.{Crypto, build_tx_message, build_mint_message, verify_eip191}
use east_validator.Errors.{
  or_else, >>=-eq-ok, Error, Result, ok, err, ◌>>=◌, ◌>>◌, guard, from_required, negative_amount,
  to_required, amount_not_positive, over_claim_max, payload_required, invalid_payload, wrong_bucket,
  oracle_signature_required, oracle_not_set, oracle_mismatch, unknown_tx_type, signature_required,
  signature_mismatch,
}

-- `unknown` carries a type text that is none of the five.
pub data TxType : Type 0 where
  transfer request_unstake claim_unstake stake claim_mining : TxType
  unknown : Text → TxType

type_text : TxType → Text
type_text transfer = codes "transfer"
type_text request_unstake = codes "request_unstake"
type_text claim_unstake = codes "claim_unstake"
type_text stake = codes "stake"
type_text claim_mining = codes "claim_mining"
type_text (unknown s) = s

abbrev pub subunits_per_east : ℕ
subunits_per_east = 1000000

abbrev pub max_human_per_claim : ℕ
max_human_per_claim = 1000000

pub record ClaimMiningPayload : Type 0 where
  pub bucket : Text
  pub epoch_id : ℕ
  pub oracle_signature : Text

-- The `any` of the payload: absent, a value that does not decode to the payload's shape, or one
-- that does.
pub data Payload : Type 0 where
  absent undecodable : Payload
  decoded : ClaimMiningPayload → Payload

-- `amount` and `timestamp` are int64 patterns, `nonce` is a uint64.
pub record Transaction : Type 0 where
  pub type : TxType
  pub from : Text
  pub to : Text
  pub amount : ℕ
  pub nonce : ℕ
  pub timestamp : ℕ
  pub signature : Text
  pub payload : Payload

-- json.Marshal of the `hashable` struct.
marshal_hashable : Transaction → Text
unfolding type_text
marshal_hashable t =
    codes "{\"type\":"
    ++ (quote (type_text t.type)
        ++ (codes ",\"from\":"
            ++ (quote t.from
                ++ (codes ",\"to\":"
                    ++ (quote t.to
                        ++ (codes ",\"amount\":"
                            ++ (show_int64 t.amount
                                ++ (codes ",\"nonce\":"
                                    ++ (show_nat t.nonce
                                        ++ (codes ",\"timestamp\":"
                                            ++ (show_int64 t.timestamp ++ codes "}")))))))))))

abbrev mining_name : Text
mining_name = codes "mining"

parse_fields : ClaimMiningPayload → Result ClaimMiningPayload
parse_fields p =
    let bucket = if is_empty p.bucket then mining_name else p.bucket in
    do
      guard (equal_fold bucket mining_name) wrong_bucket
      guard (not (is_empty p.oracle_signature)) oracle_signature_required
      ok (record p { bucket = mining_name })

unfoldable pub parse_claim_mining_payload : Payload → Result ClaimMiningPayload
unfolding parse_fields
parse_claim_mining_payload absent = err payload_required
parse_claim_mining_payload undecodable = err invalid_payload
parse_claim_mining_payload (decoded p) = parse_fields p

-- `env` is the value of MINING_ORACLE_ADDRESS.
unfoldable pub mining_oracle_address : Text → Text
mining_oracle_address env = trim_space env

module _ (lib : Crypto) where
  unfoldable pub tx_hash : Transaction → Text
  unfolding marshal_hashable
  tx_hash t = hex_encode (lib.sha256 (marshal_hashable t))

  unfoldable pub verify_signature : Transaction → Result (Unit {0})
  verify_signature t = do
    guard (not (is_empty t.signature)) signature_required
    matches ← verify_eip191 lib (build_tx_message (tx_hash t)) t.signature t.from
    guard matches signature_mismatch

  validate_claim : Text → Transaction → Result (Unit {0})
  validate_claim env t = do
    guard (lt64 0 t.amount) amount_not_positive
    guard (le64 t.amount max_human_per_claim) over_claim_max
    p ← parse_claim_mining_payload t.payload
    let oracle = mining_oracle_address env
    guard (not (is_empty oracle)) oracle_not_set
    matches ←
        verify_eip191 lib (build_mint_message p.bucket t.from t.amount t.nonce p.epoch_id)
          p.oracle_signature oracle
    guard matches oracle_mismatch

  -- The `switch` of ValidateBasic.
  unfoldable pub validate_type : TxType → Text → Transaction → Result (Unit {0})
  unfolding validate_claim
  validate_type transfer env t = do
    guard (not (is_empty t.to)) to_required
    guard (lt64 0 t.amount) amount_not_positive
  validate_type request_unstake env t = guard (lt64 0 t.amount) amount_not_positive
  validate_type claim_unstake env t = guard (lt64 0 t.amount) amount_not_positive
  validate_type stake env t = guard (lt64 0 t.amount) amount_not_positive
  validate_type claim_mining env t = validate_claim env t
  validate_type (unknown s) env t = err unknown_tx_type

  -- The receiver's timestamp is filled in: the result is the transaction after the call.
  unfoldable pub validate_basic : Text → ℕ → Transaction → Result Transaction
  unfolding validate_type verify_signature
  validate_basic env now t = do
    guard (not (is_empty t.from)) from_required
    guard (not (lt64 t.amount 0)) negative_amount
    let stamped : Transaction = record t {
      timestamp = if t.timestamp == 0 then now else t.timestamp;
    }
    validate_type stamped.type env stamped
    verify_signature stamped
    ok stamped

  -- What an accepted transaction of each type satisfies beyond its amount. `env` is the oracle's
  -- address.
  pub TypeSound : Text → TxType → Transaction → Type 0
  TypeSound env transfer t = is_empty t.to ≡ false
  TypeSound env claim_mining t =
      (p : ClaimMiningPayload) × (parse_claim_mining_payload t.payload ≡ ok p)
      × (is_empty (mining_oracle_address env) ≡ false)
      × (verify_eip191 lib (build_mint_message p.bucket t.from t.amount t.nonce p.epoch_id)
            p.oracle_signature (mining_oracle_address env)
          ≡ ok true)
  TypeSound env (unknown s) t = ⊥
  TypeSound env _ t = Unit {0}

  guard_passed : (b : Bool) (e : Error) {u : Unit {0}} → guard b e ≡ ok u → b ≡ true
  guard_passed b e h = ground arith

  verified :
      (r : Result Bool) (e : Error) {u : Unit {0}}
      → (do matches ← r; guard matches e) ≡ ok u
      → r ≡ ok true
  verified r e h = ground arith

  validate_type-TypeSound :
      (ty : TxType) (env : Text) (t : Transaction)
      → validate_type ty env t ≡ ok tt
      → TypeSound env ty t
  unfolding validate_type TypeSound validate_claim
  validate_type-TypeSound transfer env t h = ground arith
  validate_type-TypeSound request_unstake env t h = tt
  validate_type-TypeSound claim_unstake env t h = tt
  validate_type-TypeSound stake env t h = tt
  validate_type-TypeSound claim_mining env t h =
      let (u₁, e₁, h₁) = >>=-eq-ok (guard (lt64 0 t.amount) amount_not_positive) _ h in
      let (u₂, e₂, h₂) =
        >>=-eq-ok (guard (le64 t.amount max_human_per_claim) over_claim_max) _ h₁ in
      let (p, e₃, h₃) = >>=-eq-ok (parse_claim_mining_payload t.payload) _ h₂ in
      let oracle = mining_oracle_address env in
      let (u₄, e₄, h₄) = >>=-eq-ok (guard (not (is_empty oracle)) oracle_not_set) _ h₃ in
      (p, e₃, ground (arith, e₄), verified _ oracle_mismatch h₄)
  validate_type-TypeSound (unknown s) env t h = absurd cc

  signed_by_sender :
      (t : Transaction)
      → verify_signature t ≡ ok tt
      → verify_eip191 lib (build_tx_message (tx_hash t)) t.signature t.from ≡ ok true
  unfolding verify_signature
  signed_by_sender t h =
      let (u, e, h₁) = >>=-eq-ok (guard (not (is_empty t.signature)) signature_required) _ h in
      verified _ signature_mismatch h₁

  validate_basic_parts :
      (env : Text) (now : ℕ) (t t' : Transaction)
      → validate_basic env now t ≡ ok t'
      → (validate_type t'.type env t' ≡ ok tt) × (verify_signature t' ≡ ok tt)
  unfolding validate_basic
  validate_basic_parts env now t t' h =
      let stamped : Transaction = record t {
        timestamp = if t.timestamp == 0 then now else t.timestamp;
      } in
      let (u₁, e₁, h₁) = >>=-eq-ok (guard (not (is_empty t.from)) from_required) _ h in
      let (u₂, e₂, h₂) = >>=-eq-ok (guard (not (lt64 t.amount 0)) negative_amount) _ h₁ in
      let (u₃, typed, h₃) = >>=-eq-ok (validate_type t.type env stamped) _ h₂ in
      let (u₄, signed, h₄) = >>=-eq-ok (verify_signature stamped) _ h₃ in
      subst
        (λ (x : Transaction). (validate_type x.type env x ≡ ok tt) × (verify_signature x ≡ ok tt))
        (ap (λ r. or_else r t) h₄) (typed, signed)

  validate_basic_amounts :
      (env : Text) (now : ℕ) (t t' : Transaction)
      → validate_basic env now t ≡ ok t'
      → (is_empty t.from ≡ false)
        × (lt64 0 t.amount ≡ true)
        × (t.type ≡ claim_mining → le64 t.amount max_human_per_claim ≡ true)
        × (t' ≡ record t { timestamp = t'.timestamp })
  unfolding validate_basic
  validate_basic_amounts env now t t' h = ground arith

  -- Every accepted transaction has a sender, a positive amount and, for a claim, an amount within
  -- the limit of one claim; only the timestamp may differ from the input; the signature over the
  -- hash of what is accepted is the sender's; the type is one of the five; a transfer has a
  -- recipient; and a claim has a payload whose mint message the configured oracle has signed.
  pub validate_basic_sound :
      (env : Text) (now : ℕ) (t t' : Transaction)
      → validate_basic env now t ≡ ok t'
      → (is_empty t.from ≡ false)
        × (lt64 0 t.amount ≡ true)
        × (t.type ≡ claim_mining → le64 t.amount max_human_per_claim ≡ true)
        × (t' ≡ record t { timestamp = t'.timestamp })
        × (verify_eip191 lib (build_tx_message (tx_hash t')) t'.signature t'.from ≡ ok true)
        × TypeSound env t'.type t'
  validate_basic_sound env now t t' h =
      let (from, amount, limit, same) = validate_basic_amounts env now t t' h in
      let (typed, signed) = validate_basic_parts env now t t' h in
      (
        from,
        amount,
        limit,
        same,
        signed_by_sender t' signed,
        validate_type-TypeSound t'.type env t' typed,
      )
