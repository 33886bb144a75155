-- ===== src/Api/Writes.antt =====
-- internal/api/server.go: the handlers that a node or a wallet calls to write.
use east_validator.Prelude.{
  ℕ, ◌+◌, ◌%◌, Bool, true, false, not, ◌||◌, List, [], ◌∷◌, ◌++◌, Option, none, some, ltb, ◌==◌,
  if◌then◌else◌,
}
use east_validator.Prelude.Int.{two63, two64, inc64}
use east_validator.Prelude.Text.{Text, codes, text_eq, is_empty}
use east_validator.Crypto.{
  Crypto, verify_eip191, build_heartbeat_message, build_validator_register_message,
}
use east_validator.Errors.{Result, ok, err}
use east_validator.Tx.{Transaction, tx_hash, validate_basic}
use east_validator.State.{Store, HeartbeatRecord}
use east_validator.State.Apply.{apply_tx}
use east_validator.State.Blocks.{get_latest_height}
use east_validator.State.Uptime.{record_heartbeat, tier_light, tier_full}
use east_validator.Mempool.{Mempool, add}
use east_validator.Consensus.Leader.{
  LeaderSchedule, stats, is_eligible, add_validator, set_validators,
}
use east_validator.Api.Server.{
  refuse, HeartbeatMsg, Server, World, HeartbeatRequest, ValidatorRegisterRequest, Response, answer,
  http_error, first_refusal, heartbeat_body, tx_body, leader_body,
}

-- `age < -5*time.Minute || age > 5*time.Minute`, on int64 milliseconds, shifted to be in order. The
-- source's clock is finer than a millisecond.
abbrev pub is_stale : ℕ → ℕ → Bool
is_stale now unix_ms =
    let clock = (now + two63) % two64 in
    let stamp = (unix_ms + two63) % two64 in
    ltb (clock + 300000) stamp || ltb (stamp + 300000) clock

abbrev pub is_verified : Result Bool → Bool
is_verified (ok b) = b
is_verified (err e) = false

abbrev tier_of : HeartbeatRequest → Text
tier_of req = if text_eq req.tier (codes "full") then tier_full else tier_light

abbrev publish : HeartbeatMsg → Option (List HeartbeatMsg) → Option (List HeartbeatMsg)
publish m none = none
publish m (some sent) = some (sent ++ m ∷ [])

abbrev pub no_schedule : Server → Server × Response
no_schedule s = (s, http_error (codes "leader schedule not enabled") 503)

abbrev pub beaten : HeartbeatRequest → Server → Store × HeartbeatRecord → Server × Response
beaten req s (after, rec) = (
  record s {
    store = after;
    published =
        publish
          (record {
            address = req.address;
            node_id = req.node_id;
            tier = tier_of req;
            height = get_latest_height after;
          })
          s.published;
  },
  answer (heartbeat_body rec),
)

abbrev pub record_with :
    HeartbeatRequest → Result (Store × HeartbeatRecord) → Server → Server × Response
record_with req (ok recorded) s = beaten req s recorded
record_with req (err e) s = refuse s e 400

module _ (w : World) where
  abbrev pub registered : Text → LeaderSchedule → Server → Server × Response
  registered address l s =
      let listed = add_validator address l in
      let (after, shown) = stats w.now (inc64 (get_latest_height s.store)) listed s.store in
      (record s { leader = some listed; store = after }, answer (leader_body shown))

  abbrev set_in : Option (List Text) → LeaderSchedule → Server → Server × Response
  set_in none l s = (s, http_error (codes "invalid json") 400)
  set_in (some addrs) l s =
      let (listed, saved) = set_validators w.now addrs l s.store in
      let (after, shown) = stats w.now (inc64 (get_latest_height saved)) listed saved in
      (record s { leader = some listed; store = after }, answer (leader_body shown))

  unfoldable pub handle_set_validators : Option (List Text) → Server → Server × Response
  handle_set_validators addrs s = elim (s.leader) [
    | none ↦ no_schedule s
    | some l ↦ set_in addrs l s
  ]

  -- Past the tests, of which one may refuse.
  abbrev pub heartbeat_past : Option Response → HeartbeatRequest → Server → Server × Response
  heartbeat_past (some refused) req s = (s, refused)
  heartbeat_past none req s =
      record_with req
        (record_heartbeat w.now req.address req.node_id (tier_of req) s.cfg.epoch_seconds s.store) s

  abbrev pub register_with :
      ValidatorRegisterRequest → LeaderSchedule → Result Bool → Server → Server × Response
  register_with req l (err e) s = refuse s e 500
  register_with req l (ok true) s = registered req.address l s
  register_with req l (ok false) s =
      (s, http_error (codes "address does not meet minimum validator stake") 403)

  abbrev pub register_past :
      Option Response → ValidatorRegisterRequest → LeaderSchedule → Server → Server × Response
  register_past (some refused) req l s = (s, refused)
  register_past none req l s = register_with req l (is_eligible req.address l s.store) s

module _ (lib : Crypto) (w : World) where
  -- The tests on an address, a signature and a time, which two handlers share.
  unfoldable pub signed_refusal : Text → Text → ℕ → Text → Option Response
  unfolding first_refusal
  signed_refusal address signature unix_ms message = first_refusal (
      (is_empty address, http_error (codes "address required") 400)
      ∷ (is_empty signature, http_error (codes "signature required") 400)
      ∷ (unix_ms == 0, http_error (codes "unix_ms required") 400)
      ∷ (is_stale w.now unix_ms, http_error (codes "unix_ms outside 5-minute freshness window") 400)
      ∷ (
        not (is_verified (verify_eip191 lib message signature address)),
        http_error (codes "invalid signature") 401,
      )
      ∷ [])

  unfoldable pub handle_heartbeat : Option HeartbeatRequest → Server → Server × Response
  unfolding signed_refusal
  handle_heartbeat none s = (s, http_error (codes "invalid json") 400)
  handle_heartbeat (some req) s =
      heartbeat_past w
        (signed_refusal req.address req.signature req.unix_ms
          (build_heartbeat_message req.address req.node_id req.unix_ms))
        req s

  abbrev pub register_body :
      Option ValidatorRegisterRequest → LeaderSchedule → Server → Server × Response
  register_body none l s = (s, http_error (codes "invalid json") 400)
  register_body (some req) l s =
      register_past w
        (signed_refusal req.address req.signature req.unix_ms
          (build_validator_register_message req.address req.unix_ms))
        req l s

  abbrev pub register_in :
      Option ValidatorRegisterRequest → Option LeaderSchedule → Server → Server × Response
  register_in req none s = no_schedule s
  register_in req (some l) s = register_body req l s

  unfoldable pub handle_register_validator :
      Option ValidatorRegisterRequest → Server → Server × Response
  unfolding signed_refusal
  handle_register_validator req s = register_in req s.leader s

  abbrev queue_tx : Transaction → Mempool → Server → Server × Response
  queue_tx t pool s =
      let (after, added) = add lib w.oracle w.now (some t) pool s.store in
      elim added [
        | ok h ↦ (record s { pool = some after }, answer (tx_body h t.type (codes "queued")))
        | err e ↦ refuse (record s { pool = some after }) e 400
      ]

  abbrev apply_now : Transaction → Server → Server × Response
  apply_now t s = elim (apply_tx t s.store) [
    | ok after ↦
        (record s { store = after }, answer (tx_body (tx_hash lib t) t.type (codes "applied")))
    | err e ↦ refuse s e 400
  ]

  abbrev submit_valid : Transaction → Server → Server × Response
  submit_valid t s = elim (s.pool) [ some pool ↦ queue_tx t pool s | none ↦ apply_now t s ]

  unfoldable pub handle_submit_tx : Option Transaction → Server → Server × Response
  handle_submit_tx none s = (s, http_error (codes "invalid json") 400)
  handle_submit_tx (some t) s = elim (validate_basic lib w.oracle w.now t) [
    | ok valid ↦ submit_valid valid s
    | err e ↦ refuse s e 400
  ]
