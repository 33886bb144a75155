-- ===== src/Crypto/Recovery.antt =====
-- internal/crypto/eip191.go: what is signed recovers the address of the key.
use east_validator.Prelude.{
  Bool-cases, inl, inr, true, false, ℕ, zero, suc, ◌+◌, ◌≤◌, ◌≡◌, refl, sym, ap, ◌∙◌, List, [], ◌∷◌,
  ◌++◌, Option, none, some, All, arith, length, take, drop, length-append, All-append,
}
use east_validator.Prelude.Text.{Text, is_empty}
use east_validator.Prelude.Format.{IsByte}
use east_validator.Errors.{Error, or_else, ok, or_fail, >>=-eq-ok, invalid_private_key}
use east_validator.Crypto.{
  Crypto, personal_message, trim_0x, at_64, lower_v, recover_address, sign_eip191,
  address_from_private_key,
}

-- What the program relies on of go-ethereum: hexutil.Decode inverts hexutil.Encode and refuses the
-- empty text, and crypto.Sign gives 64 bytes and a recovery bit of 0 or 1, from which SigToPub gives
-- the public key back.
pub record Signing (lib : Crypto) : Type 0 where
  pub decode_encode :
      (bs : List ℕ) → All IsByte bs → lib.hexutil_decode (lib.hexutil_encode bs) ≡ some bs
  pub decode_empty : lib.hexutil_decode [] ≡ none
  pub sign_recovers :
      (digest : List ℕ) (key : Text) (sig : List ℕ)
      → lib.sign_digest digest key ≡ some sig
      → (rs : List ℕ) × (v : ℕ) × (a : Text) × (sig ≡ rs ++ v ∷ [])
        × (length rs ≡ 64)
        × All IsByte rs
        × (v ≤ 1)
        × (lib.key_address key ≡ some a)
        × (lib.sig_to_address digest sig ≡ some a)

take-whole : (xs ys : List ℕ) (n : ℕ) → length xs ≡ n → take n (xs ++ ys) ≡ xs
take-whole [] ys zero e = refl
take-whole [] ys (suc n) e = absurd (omega (arith, e))
take-whole (x ∷ xs) ys zero e = absurd (omega (arith, e))
take-whole (x ∷ xs) ys (suc n) e = rw (take-whole xs ys n (omega (arith, e)))

drop-whole : (xs ys : List ℕ) (n : ℕ) → length xs ≡ n → drop n (xs ++ ys) ≡ ys
drop-whole [] ys zero e = refl
drop-whole [] ys (suc n) e = absurd (omega (arith, e))
drop-whole (x ∷ xs) ys zero e = absurd (omega (arith, e))
drop-whole (x ∷ xs) ys (suc n) e = drop-whole xs ys n (omega (arith, e))

at_64-last :
    (f : ℕ → ℕ) (rs : List ℕ) (v : ℕ) → length rs ≡ 64 → at_64 f (rs ++ v ∷ []) ≡ rs ++ f v ∷ []
unfolding at_64
at_64-last f rs v e = rw (take-whole rs (v ∷ []) 64 e, drop-whole rs (v ∷ []) 64 e)

or_fail-eq-ok {ℓ} :
    {A : Type ℓ} (o : Option A) (e : Error) {x : A} → or_fail o e ≡ ok x → o ≡ some x
or_fail-eq-ok none e h = cc
or_fail-eq-ok (some x) e h = cc

empty_text : (s : Text) → is_empty s ≡ true → s ≡ []
empty_text [] e = refl
empty_text (c ∷ s) e = cc

module _ (lib : Crypto) (signing : Signing lib) where
  encoded_named : (bs : List ℕ) → All IsByte bs → is_empty (lib.hexutil_encode bs) ≡ false
  encoded_named bs bytes = elim (Bool-cases (is_empty (lib.hexutil_encode bs))) [
    | inl e ↦
        let none_of : lib.hexutil_decode (lib.hexutil_encode bs) ≡ none =
          ap lib.hexutil_decode (empty_text _ e) ∙ signing.decode_empty in
        absurd (let both = sym none_of ∙ signing.decode_encode bs bytes in cc)
    | inr e ↦ e
  ]

  -- The digest's recovery, from a signature's bytes.
  recovers :
      (message : Text) (rs : List ℕ) (v : ℕ) (a : Text)
      → length rs ≡ 64
      → All IsByte rs
      → v ≤ 1
      → lib.sig_to_address (lib.keccak256 (personal_message message)) (rs ++ v ∷ []) ≡ some a
      → recover_address lib message (lib.hexutil_encode (rs ++ (v + 27) ∷ [])) ≡ ok a
  unfolding recover_address
  recovers message rs v a long bytes small found =
      let lowered : lower_v (v + 27) ≡ v = ground arith in
      let whole : length (rs ++ (v + 27) ∷ []) ≡ 65 =
        omega (arith, long, length-append rs ((v + 27) ∷ [])) in
      rw
        (
          signing.decode_encode (rs ++ (v + 27) ∷ [])
              (All-append IsByte rs _ bytes (omega arith, tt)),
          whole,
          at_64-last lower_v rs (v + 27) long,
          lowered,
          found,
        )
        refl

  -- A signature that is made with a key is not empty and recovers the address of the key.
  pub recover_address-sign_eip191 :
      (message key sig : Text)
      → sign_eip191 lib message key ≡ ok sig
      → (a : Text) × (address_from_private_key lib key ≡ ok a)
        × (recover_address lib message sig ≡ ok a)
        × (is_empty sig ≡ false)
  unfolding sign_eip191 address_from_private_key
  recover_address-sign_eip191 message key sig h =
      let digest = lib.keccak256 (personal_message message) in
      let (raw, e, h₁) =
        >>=-eq-ok (or_fail (lib.sign_digest digest (trim_0x key)) invalid_private_key) _ h in
      let (rs, v, a, is, long, bytes, small, of_key, found) =
        signing.sign_recovers digest (trim_0x key) raw (or_fail-eq-ok _ _ e) in
      let written : lib.hexutil_encode (rs ++ (v + 27) ∷ []) ≡ sig =
        sym (
          ap (λ b. lib.hexutil_encode (at_64 (λ w. w + 27) b)) is
          ∙ ap lib.hexutil_encode (at_64-last (λ w. w + 27) rs v long))
        ∙ ap (λ r. or_else r []) h₁ in
      (
        a,
        rw of_key refl,
        ap (λ t. recover_address lib message t) (sym written)
            ∙ recovers message rs v a long bytes small
                (ap (λ b. lib.sig_to_address digest b) (sym is) ∙ found),
        ap is_empty (sym written)
            ∙ encoded_named (rs ++ (v + 27) ∷ []) (All-append IsByte rs _ bytes (omega arith, tt)),
      )
