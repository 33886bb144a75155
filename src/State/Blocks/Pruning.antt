-- ===== src/State/Blocks/Pruning.antt =====
-- state.go: which blocks pruning keeps.
use east_validator.Prelude.Maps.{nat_eq}
