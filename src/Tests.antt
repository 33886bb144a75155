-- ===== src/Tests.antt =====
-- Concrete data for the tests: two accounts, a transfer, and functions in place of the ones of
-- go-ethereum and the standard library.
mod Ledger
mod Proofs
mod Rounds
mod Pool
mod Chain
mod Web
mod Agreement
use east_validator.Prelude.{
  ℕ, zero, suc, ◌+◌, ◌%◌, ◌≡◌, ◌<◌, List, [], ◌∷◌, ◌++◌, Option, none, some, true, false, arith,
  length, All,
}
use east_validator.Prelude.Text.{Text, codes}
use east_validator.Prelude.Format.{IsByte}
use east_validator.Crypto.{Crypto}
use east_validator.Genesis.{Bucket}
use east_validator.Tx.{Transaction, TxType, transfer, claim_mining, stake, absent}
use east_validator.State.{Account, Store, open_store}

abbrev pub alice : Text
alice = codes "0xaa"

abbrev pub bob : Text
bob = codes "0xbb"

abbrev pub alice_account : Account
alice_account = record { balance = 100; staked = 0; pending_unstake = 0; nonce = 0 }

abbrev pub bob_account : Account
bob_account = record { balance = 5; staked = 0; pending_unstake = 0; nonce = 0 }

abbrev pub mining : Bucket
mining = record { name = codes "mining"; cap = 300000000; minted = 7 }

abbrev pub ledger : Store
ledger = record open_store {
  accounts = (alice, alice_account) ∷ (bob, bob_account) ∷ [];
  buckets = (codes "mining", mining) ∷ [];
}

abbrev pub pay : Transaction
pay = record {
  type = transfer;
  from = alice;
  to = bob;
  amount = 30;
  nonce = 1;
  timestamp = 1000;
  signature = codes "0x01";
  payload = absent;
}

-- A digest of 32 bytes that tells texts of different length apart.
abbrev pub zeros : ℕ → List ℕ
zeros zero = []
zeros (suc n) = 0 ∷ zeros n

abbrev pub digest : List ℕ → List ℕ
digest x = (length x % 256) ∷ zeros 31

abbrev pub library : Crypto
library = record {
  sha256 = digest;
  keccak256 = digest;
  hexutil_decode = λ t. some (zeros 65);
  hexutil_encode = λ b. codes "0x01";
  sig_to_address = λ d sig. some alice;
  sign_digest = λ d key. some (zeros 65);
  key_address = λ key. some alice;
}
