-- ===== src/Consensus/Bft/Steps/Counted.antt =====
-- bft.go: which votes are in the two maps of an engine.
use east_validator.Prelude.{
  ℕ, ◌≡◌, refl, inl, inr, Bool, true, false, List, [], ◌∷◌, ◌++◌, none, arith, All, Bool-cases,
  if◌then◌else◌, ◌||◌,
}
use east_validator.Prelude.Text.{Text, text_eq, text_eq_iff, is_empty}
use east_validator.Prelude.Maps.{lookup, insert, lookup-insert, text_key}
use east_validator.Crypto.{Crypto}
use east_validator.Consensus.Vote.{Vote, VoteType, prevote, precommit, other, sign_vote}
use east_validator.Consensus.Bft.{
  Engine, Node, Message, vote_msg, publish, record_own, broadcast_vote, own_vote, enter_prevote,
  with_engine, prevote_choice, prevote_step,
}
use east_validator.Errors.{Result, ok, err}

-- Every vote of the map has the type, the height and the round.
abbrev pub OfRound : VoteType → ℕ → ℕ → List (Text × Vote) → Type 0
OfRound type height round =
    All (λ (e : Text × Vote). (e.1.type ≡ type) × (e.1.height ≡ height) × (e.1.round ≡ round))

-- No voter has two votes in the map.
abbrev pub Once : List (Text × Vote) → Type 0
Once [] = Unit
Once ((voter, v) ∷ votes) = (lookup voter votes ≡ none) × Once votes

-- What an engine may count: votes of its own height and round, one for each voter.
abbrev pub Counted : Engine → Type 0
Counted e =
    OfRound prevote e.height e.round e.prevotes
    × OfRound precommit e.height e.round e.precommits
    × Once e.prevotes
    × Once e.precommits

pub insert-OfRound :
    (type : VoteType) (height round : ℕ) (voter : Text) (v : Vote) (votes : List (Text × Vote))
    → (v.type ≡ type) × (v.height ≡ height) × (v.round ≡ round)
    → OfRound type height round votes
    → OfRound type height round (insert voter v votes)
unfolding insert
insert-OfRound type height round voter v [] fits all = (fits, tt)
insert-OfRound type height round voter v ((k, w) ∷ votes) fits all =
    elim (Bool-cases (text_eq k voter)) [
      | inl e ↦ rw e (fits, all.1)
      | inr e ↦ rw e (all.0, insert-OfRound type height round voter v votes fits all.1)
    ]

pub insert-Once :
    (voter : Text) (v : Vote) (votes : List (Text × Vote))
    → Once votes
    → Once (insert voter v votes)
unfolding insert lookup
insert-Once voter v [] once = (refl, tt)
insert-Once voter v ((k, w) ∷ votes) once = elim (Bool-cases (text_eq k voter)) [
  | inl e ↦ rw e once
  | inr e ↦ rw e (
    ground
        (arith, lookup-insert voter k v votes, once.0, e, text_eq_iff k voter, text_eq_iff voter k),
    insert-Once voter v votes once.1,
  )
]

pub if-Counted :
    (b : Bool) (m n : Node)
    → Counted m.engine
    → Counted n.engine
    → Counted (if b then m else n).engine
if-Counted true m n hm hn = hm
if-Counted false m n hm hn = hn

pub publish-Counted : (m : Message) (n : Node) → Counted n.engine → Counted (publish m n).engine
publish-Counted m n h = if-Counted n.has_p2p (record n { out = n.out ++ m ∷ [] }) n h h

module _ (lib : Crypto) where
  record_own-Counted :
      (type : VoteType) (v : Vote) (n : Node)
      → (v.type ≡ type) × (v.height ≡ n.engine.height) × (v.round ≡ n.engine.round)
      → Counted n.engine
      → Counted (record_own lib type (ok v) n).engine
  unfolding record_own own_vote
  record_own-Counted prevote v n fits (p, c, op, oc) =
      publish-Counted (vote_msg v) (with_engine (own_vote prevote v n.engine) n) (
        insert-OfRound prevote n.engine.height n.engine.round n.engine.local_addr v
            n.engine.prevotes fits p,
        c,
        insert-Once n.engine.local_addr v n.engine.prevotes op,
        oc,
      )
  record_own-Counted precommit v n fits (p, c, op, oc) =
      publish-Counted (vote_msg v) (with_engine (own_vote precommit v n.engine) n) (
        p,
        insert-OfRound precommit n.engine.height n.engine.round n.engine.local_addr v
            n.engine.precommits fits c,
        op,
        insert-Once n.engine.local_addr v n.engine.precommits oc,
      )
  record_own-Counted (other t) v n fits h = publish-Counted (vote_msg v) n h

  sign_vote-round :
      (type : VoteType) (height round : ℕ) (hash voter key : Text) (now : ℕ) (v : Vote)
      → sign_vote lib type height round hash voter key now ≡ ok v
      → (v.type ≡ type) × (v.height ≡ height) × (v.round ≡ round)
  unfolding sign_vote
  sign_vote-round type height round hash voter key now v h = ground (arith, h)

  own_vote-Counted :
      (type : VoteType) (hash : Text) (now : ℕ) (n : Node) (r : Result Vote)
      → sign_vote lib type n.engine.height n.engine.round hash n.engine.local_addr n.engine.priv_key
          now
        ≡ r
      → Counted n.engine
      → Counted (record_own lib type r n).engine
  unfolding record_own
  own_vote-Counted type hash now n (err x) e h = h
  own_vote-Counted type hash now n (ok v) e h =
      record_own-Counted type v n
        (sign_vote-round type n.engine.height n.engine.round hash n.engine.local_addr
          n.engine.priv_key now v e)
        h

  pub broadcast_vote-Counted :
      (now : ℕ) (type : VoteType) (hash : Text) (n : Node)
      → Counted n.engine
      → Counted (broadcast_vote lib now type hash n).engine
  unfolding broadcast_vote
  broadcast_vote-Counted now type hash n h =
      if-Counted (is_empty n.engine.priv_key || is_empty n.engine.local_addr) n _ h
        (own_vote-Counted type hash now n _ refl h)

  pub enter_prevote-Counted :
      (now : ℕ) (n : Node) → Counted n.engine → Counted (enter_prevote lib now n).engine
  unfolding enter_prevote prevote_choice
  enter_prevote-Counted now n h =
      broadcast_vote-Counted now prevote (prevote_choice n.engine n.engine.proposal)
        (with_engine (record n.engine { step = prevote_step }) n) h
