-- ===== src/Primitives/Sizes.antt =====
-- The sizes of demo-circuit/src/type_mapping.rs, over those of cctp_primitives.
use zendoo_sc_cryptolib.Prelude.{ℕ, ◌+◌, ◌*◌}

-- `FIELD_SIZE`, `SCALAR_FIELD_SIZE` and `GROUP_COMPRESSED_SIZE` of cctp_primitives.
pub record ByteSizes : Type 0 where
  pub field_size : ℕ
  pub scalar_field_size : ℕ
  pub group_compressed_size : ℕ

unfoldable pub schnorr_pk_size : ByteSizes → ℕ
schnorr_pk_size S = S.group_compressed_size

unfoldable pub schnorr_sk_size : ByteSizes → ℕ
schnorr_sk_size S = S.scalar_field_size

unfoldable pub schnorr_sig_size : ByteSizes → ℕ
schnorr_sig_size S = 2 * S.field_size

unfoldable pub vrf_pk_size : ByteSizes → ℕ
vrf_pk_size S = S.group_compressed_size

unfoldable pub vrf_sk_size : ByteSizes → ℕ
vrf_sk_size S = S.scalar_field_size

unfoldable pub vrf_proof_size : ByteSizes → ℕ
vrf_proof_size S = S.group_compressed_size + 2 * S.field_size
