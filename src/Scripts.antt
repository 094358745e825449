-- ===== src/Scripts.antt =====
-- The scripts of scripts/.
pub mod MintToken
