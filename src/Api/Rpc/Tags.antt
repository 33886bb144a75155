-- ===== src/Api/Rpc/Tags.antt =====
-- internal/api/jsonrpc.go: how a block tag is read.
use east_validator.Prelude.{ℕ, ◌<◌, ◌≡◌, refl, ◌++◌, arith, All, false, ◌==◌}
use east_validator.Prelude.Int.{two64}
use east_validator.Prelude.Text.{is_space, text_eq, codes}
use east_validator.Prelude.Parse.{show_hex, show_hex-IsPlain, parse_uint-show_hex}
use east_validator.Prelude.Text.Plain.{IsPlain, trim_space_plain, to_lower_plain}
use east_validator.Errors.{ok}
use east_validator.State.{BlockHeader, Store}
use east_validator.State.Blocks.{get_block}
use east_validator.Api.Server.{block_result}
use east_validator.Api.Rpc.{parse_block_tag, get_block_by_number}

zero_no : (n : ℕ) → 0 < n → (n == 0) ≡ false
zero_no n tall = ground (arith, tall)

tag-IsPlain : (n : ℕ) → All IsPlain (codes "0x" ++ show_hex n)
unfolding is_space
tag-IsPlain n = ((refl, refl), ((refl, refl), show_hex-IsPlain n))

parse_block_tag-show_hex :
    (n : ℕ) (s : Store) → n < two64 → parse_block_tag (codes "0x" ++ show_hex n) s ≡ ok n
unfolding parse_block_tag text_eq
parse_block_tag-show_hex n s fits =
    rw
      (
        to_lower_plain (codes "0x" ++ show_hex n) (tag-IsPlain n),
        trim_space_plain (codes "0x" ++ show_hex n) (tag-IsPlain n),
        parse_uint-show_hex n fits,
      )
      refl

-- A block's height, written as eth_blockNumber writes it, asks eth_getBlockByNumber for that block.
-- The height is a uint64 above 0.
pub get_block_by_number-show_hex :
    (n : ℕ) (h : BlockHeader) (s : Store)
    → 0 < n
    → n < two64
    → get_block n s ≡ ok h
    → get_block_by_number (codes "0x" ++ show_hex n) s ≡ ok (block_result h)
unfolding get_block_by_number
get_block_by_number-show_hex n h s tall fits found =
    rw (parse_block_tag-show_hex n s fits, zero_no n tall, found) refl
