-- ===== src/Api/Routes/Signed.antt =====
-- internal/api/server.go: the two routes that write without the secret ask for a signature.
use east_validator.Prelude.{
  ℕ, ◌≡◌, refl, sym, ap, inl, inr, ◌⊎◌, Bool, true, false, Option, none, some, arith,
}
use east_validator.Prelude.Text.{Text}
use mathlib.Core.Path.{subst}
use mathlib.Core.Bool.{false≢true}
use east_validator.Crypto.{
  Crypto, verify_eip191, build_heartbeat_message, build_validator_register_message,
}
use east_validator.Errors.{Result, ok, err}
use east_validator.Consensus.Leader.{LeaderSchedule, is_eligible}
use east_validator.Api.Server.{Server, World, HeartbeatRequest, ValidatorRegisterRequest, Response}
use east_validator.Api.Writes.{
  is_stale, is_verified, signed_refusal, heartbeat_past, handle_heartbeat, register_with,
  register_past, register_in, handle_register_validator,
}

-- The message is signed by the address, and its time is within five minutes of the clock.
pub record Vouched (lib : Crypto) (w : World) (address signature : Text) (unix_ms : ℕ)
    (message : Text) : Type 0 where
  pub signed : verify_eip191 lib message signature address ≡ ok true
  pub fresh : is_stale w.now unix_ms ≡ false

is_verified-true : (r : Result Bool) → is_verified r ≡ true → r ≡ ok true
is_verified-true (ok b) h = ap ok h
is_verified-true (err e) h = absurd (false≢true h)

signed_refusal-none :
    (lib : Crypto) (w : World) (address signature : Text) (unix_ms : ℕ) (message : Text)
    → signed_refusal lib w address signature unix_ms message ≡ none
    → (is_verified (verify_eip191 lib message signature address) ≡ true)
      × (is_stale w.now unix_ms ≡ false)
unfolding signed_refusal
signed_refusal-none lib w address signature unix_ms message passed =
    (ground (arith, passed), ground (arith, passed))

vouched :
    (lib : Crypto) (w : World) (address signature : Text) (unix_ms : ℕ) (message : Text)
    → signed_refusal lib w address signature unix_ms message ≡ none
    → Vouched lib w address signature unix_ms message
vouched lib w address signature unix_ms message passed =
    let both = signed_refusal-none lib w address signature unix_ms message passed in
    record {
      signed = is_verified-true (verify_eip191 lib message signature address) both.0;
      fresh = both.1;
    }

past_refusal :
    (w : World) (o : Option Response) (req : HeartbeatRequest) (s : Server)
    → ((heartbeat_past w o req s).0 ≡ s) ⊎ (o ≡ none)
past_refusal w none req s = inr refl
past_refusal w (some refused) req s = inl refl

-- A heartbeat that changes anything is signed by its address, over the address, the node's id and
-- a time within five minutes of the clock.
pub handle_heartbeat-Vouched :
    (lib : Crypto) (w : World) (req : HeartbeatRequest) (s : Server)
    → ((handle_heartbeat lib w (some req) s).0 ≡ s)
      ⊎ Vouched lib w req.address req.signature req.unix_ms
          (build_heartbeat_message req.address req.node_id req.unix_ms)
unfolding handle_heartbeat
handle_heartbeat-Vouched lib w req s =
    let message = build_heartbeat_message req.address req.node_id req.unix_ms in
    let tests = signed_refusal lib w req.address req.signature req.unix_ms message in
    elim (past_refusal w tests req s) [
      | inl same ↦ inl same
      | inr passed ↦ inr (vouched lib w req.address req.signature req.unix_ms message passed)
    ]

register_with_eligible :
    (w : World) (req : ValidatorRegisterRequest) (l : LeaderSchedule) (r : Result Bool) (s : Server)
    → ((register_with w req l r s).0 ≡ s) ⊎ (r ≡ ok true)
register_with_eligible w req l (err e) s = inl refl
register_with_eligible w req l (ok false) s = inl refl
register_with_eligible w req l (ok true) s = inr refl

-- What a registration that changes anything has.
pub Entitled : Crypto → World → ValidatorRegisterRequest → LeaderSchedule → Server → Type 0
Entitled lib w req l s =
    Vouched lib w req.address req.signature req.unix_ms
      (build_validator_register_message req.address req.unix_ms)
    × (is_eligible req.address l s.store ≡ ok true)

register_past-Entitled :
    (lib : Crypto) (w : World) (o : Option Response) (req : ValidatorRegisterRequest)
    (l : LeaderSchedule) (s : Server)
    → o
      ≡ signed_refusal lib w req.address req.signature req.unix_ms
          (build_validator_register_message req.address req.unix_ms)
    → ((register_past w o req l s).0 ≡ s) ⊎ Entitled lib w req l s
unfolding Entitled
register_past-Entitled lib w (some refused) req l s is = inl refl
register_past-Entitled lib w none req l s is =
    elim (register_with_eligible w req l (is_eligible req.address l s.store) s) [
      | inl same ↦ inl same
      | inr eligible ↦ inr (
        vouched lib w req.address req.signature req.unix_ms
            (build_validator_register_message req.address req.unix_ms) (sym is),
        eligible,
      )
    ]

-- A registration that changes anything is signed by its address, over the address and a time within
-- five minutes of the clock, and the address has the stake that the schedule asks for.
pub handle_register_validator-Entitled :
    (lib : Crypto) (w : World) (req : ValidatorRegisterRequest) (l : LeaderSchedule) (s : Server)
    → s.leader ≡ some l
    → ((handle_register_validator lib w (some req) s).0 ≡ s) ⊎ Entitled lib w req l s
unfolding handle_register_validator
handle_register_validator-Entitled lib w req l s scheduled =
    subst
      (λ (o : Option LeaderSchedule).
        ((register_in lib w (some req) o s).0 ≡ s) ⊎ Entitled lib w req l s)
      (sym scheduled)
      (register_past-Entitled lib w
        (signed_refusal lib w req.address req.signature req.unix_ms
          (build_validator_register_message req.address req.unix_ms))
        req l s refl)
