-- ===== src/Crypto.antt =====
-- internal/crypto/eip191.go: the messages that are signed, signature recovery and checking.
-- go-ethereum and crypto/sha256 are not part of the repository: they are the parameter `Crypto`.
pub mod Recovery
use east_validator.Prelude.{
  ℕ, ◌+◌, ◌-◌, Bool, List, [], ◌∷◌, ◌++◌, Option, length, take, drop, leb, ◌==◌, if◌then◌else◌,
}
use east_validator.Prelude.Text.{Text, codes, equal_fold}
use east_validator.Prelude.Format.{show_nat, show_int64}
use east_validator.Errors.{
  Result, ok, ◌>>=◌, ◌>>◌, guard, or_fail, invalid_signature_hex, bad_signature_length,
  unrecoverable_key, invalid_private_key,
}

-- What the program calls of crypto/sha256, hexutil and go-ethereum's crypto package. A private key
-- is a hexadecimal text, a signature 65 bytes, an address the text of its checksummed form.
pub record Crypto : Type 0 where
  pub sha256 : List ℕ → List ℕ
  pub keccak256 : List ℕ → List ℕ
  pub hexutil_decode : Text → Option (List ℕ)
  pub hexutil_encode : List ℕ → Text
  pub sig_to_address : List ℕ → List ℕ → Option Text
  pub sign_digest : List ℕ → Text → Option (List ℕ)
  pub key_address : Text → Option Text

-- strings.TrimPrefix(key, "0x").
abbrev pub trim_0x : Text → Text
trim_0x (a ∷ b ∷ s) = if a == b'0' then (if b == b'x' then s else a ∷ b ∷ s) else a ∷ b ∷ s
trim_0x s = s

unfoldable pub build_chain_signing_message : ℕ → Text → Text
build_chain_signing_message height block_hash =
    codes "EASTCHAIN_BLOCK|" ++ (show_nat height ++ (codes "|" ++ block_hash))

pub build_proposal_message : Text → ℕ → Text → Text
build_proposal_message proposal_id height block_hash =
    codes "EASTCHAIN_PROPOSAL|"
    ++ (proposal_id ++ (codes "|" ++ (show_nat height ++ (codes "|" ++ block_hash))))

unfoldable pub build_tx_message : Text → Text
build_tx_message tx_hash = codes "EASTCHAIN_TX|" ++ tx_hash

pub build_heartbeat_message : Text → Text → ℕ → Text
build_heartbeat_message address node_id unix_ms =
    codes "EASTCHAIN_HEARTBEAT|"
    ++ (address ++ (codes "|" ++ (node_id ++ (codes "|" ++ show_int64 unix_ms))))

pub build_validator_register_message : Text → ℕ → Text
build_validator_register_message address unix_ms =
    codes "EASTCHAIN_VALIDATOR_REGISTER|" ++ (address ++ (codes "|" ++ show_int64 unix_ms))

unfoldable pub build_mint_message : Text → Text → ℕ → ℕ → ℕ → Text
build_mint_message bucket beneficiary amount nonce epoch_id =
    codes "EASTCHAIN_MINT|"
    ++ (bucket
        ++ (codes "|"
            ++ (beneficiary
                ++ (codes "|"
                    ++ (show_int64 amount
                        ++ (codes "|"
                            ++ (show_nat nonce ++ (codes "|" ++ show_int64 epoch_id))))))))

-- "\x19Ethereum Signed Message:\n" with the message's length.
pub personal_message : Text → Text
personal_message message =
    25 ∷ (codes "Ethereum Signed Message:\n" ++ (show_nat (length message) ++ message))

-- `if sig[64] >= 27 { sig[64] -= 27 }` on a list of 65 bytes, and `sig[64] += 27` on a byte.
abbrev pub change_head : (ℕ → ℕ) → List ℕ → List ℕ
change_head f [] = []
change_head f (v ∷ rest) = f v ∷ rest

unfoldable pub at_64 : (ℕ → ℕ) → List ℕ → List ℕ
at_64 f sig = take 64 sig ++ change_head f (drop 64 sig)

abbrev pub lower_v : ℕ → ℕ
lower_v v = if leb 27 v then v - 27 else v

module _ (lib : Crypto) where
  unfoldable pub recover_address : Text → Text → Result Text
  recover_address message signature_hex = do
    sig ← or_fail (lib.hexutil_decode signature_hex) invalid_signature_hex
    guard (length sig == 65) bad_signature_length
    or_fail (lib.sig_to_address (lib.keccak256 (personal_message message)) (at_64 lower_v sig))
        unrecoverable_key

  unfoldable pub verify_eip191 : Text → Text → Text → Result Bool
  verify_eip191 message signature_hex expected_address = do
    recovered ← recover_address message signature_hex
    ok (equal_fold recovered expected_address)

  unfoldable pub sign_eip191 : Text → Text → Result Text
  sign_eip191 message private_key_hex = do
    sig ←
        or_fail
          (lib.sign_digest (lib.keccak256 (personal_message message)) (trim_0x private_key_hex))
          invalid_private_key
    ok (lib.hexutil_encode (at_64 (λ v. v + 27) sig))

  unfoldable pub address_from_private_key : Text → Result Text
  address_from_private_key private_key_hex =
      or_fail (lib.key_address (trim_0x private_key_hex)) invalid_private_key
