-- ===== src/Calls/Certificate/Binding.antt =====
-- What an accepted certificate binds: verify_naive_threshold_sig_proof of api/src/cctp_calls.rs
-- against the signatures that the circuit of demo-circuit counts.
use zendoo_sc_cryptolib.Prelude.{ℕ, ◌≤◌, ◌≡◌, ◌⊎◌, true, List, [], ◌∷◌, map, length}
use zendoo_sc_cryptolib.Prelude.Call.{ok}
use zendoo_sc_cryptolib.Primitives.{Primitives, BackwardTransfer}
use zendoo_sc_cryptolib.Primitives.Collision.{IsCollision}
use zendoo_sc_cryptolib.Primitives.Laws.{hash}
use zendoo_sc_cryptolib.Threshold.{NaiveTresholdSignature, ConstraintSystem, generate_constraints}
use zendoo_sc_cryptolib.Threshold.Soundness.{count_verified}
use zendoo_sc_cryptolib.Threshold.Trace.{Values, valid, IsTrace}
use zendoo_sc_cryptolib.Calls.{compute_msg_to_sign, bt_list_opt}
use zendoo_sc_cryptolib.Calls.Backend.{Backend}
use zendoo_sc_cryptolib.Calls.Inputs.{empty_system}

-- What the certificate's verifier hashes.
pub record Hashed (P : Primitives) (pks : List P.G2) (sc_id : P.FieldElement) (epoch : ℕ)
    (root : P.FieldElement) (btr ft : ℕ) (bts : List BackwardTransfer) (quality : ℕ) : Type 0 where
  pub mr_bt : P.FieldElement
  pub fees : P.FieldElement
  pub pks_hash : P.FieldElement
  pub sysdata_hash : P.FieldElement
  pub data_hash : P.FieldElement
  pub mr_bt_lem : P.get_bt_merkle_root (bt_list_opt P bts) ≡ ok mr_bt
  pub fees_lem : P.accumulate (btr ∷ ft ∷ []) ≡ ok (fees ∷ [])
  pub pks_hash_lem : hash P (map P.affine_x pks) ≡ ok pks_hash
  pub sysdata_hash_lem :
      hash P (sc_id ∷ P.from epoch ∷ mr_bt ∷ P.from quality ∷ root ∷ fees ∷ []) ≡ ok sysdata_hash
  pub data_hash_lem : hash P (sysdata_hash ∷ []) ≡ ok data_hash

-- An input that the circuit hashes collides with the one in its place that the verifier hashes.
pub data Clash (P : Primitives) (pks : List P.G2) (t : ℕ) (sc_id : P.FieldElement) (epoch : ℕ)
    (root : P.FieldElement) (btr ft : ℕ) (bts : List BackwardTransfer) (quality : ℕ)
    (d : Hashed P pks sc_id epoch root btr ft bts quality) (v : Values P) : Type 0 where
  on_constant :
      IsCollision P (v.pks_hash ∷ v.t ∷ []) (d.pks_hash ∷ P.from t ∷ [])
      → Clash P pks t sc_id epoch root btr ft bts quality d v
  on_keys :
      IsCollision P (map P.pk_x v.pks) (map P.affine_x pks)
      → Clash P pks t sc_id epoch root btr ft bts quality d v
  on_data :
      IsCollision P (v.sysdata_hash ∷ []) (d.sysdata_hash ∷ [])
      → Clash P pks t sc_id epoch root btr ft bts quality d v
  on_sysdata :
      IsCollision P
        (v.sc_id ∷ v.epoch_number ∷ v.mr_bt ∷ valid P v ∷ v.root ∷ v.fees ∷ [])
        (sc_id ∷ P.from epoch ∷ d.mr_bt ∷ P.from quality ∷ root ∷ d.fees ∷ [])
      → Clash P pks t sc_id epoch root btr ft bts quality d v

-- The keys and signatures of a run sign the certificate: the keys have the `x` coordinates of the
-- declared ones, in their order, the quality is the number of signatures that verify on the
-- certificate's message, each under the key beside it, and the threshold is not above the quality.
pub record IsSigned (P : Primitives) (pks : List P.G2) (t : ℕ) (sc_id : P.FieldElement) (epoch : ℕ)
    (root : P.FieldElement) (btr ft : ℕ) (bts : List BackwardTransfer) (quality : ℕ) (v : Values P)
    : Type 0 where
  pub mr_bt : P.FieldElement
  pub keys : map P.pk_x v.pks ≡ map P.affine_x pks
  pub message : compute_msg_to_sign P sc_id epoch root btr ft bts ≡ ok (mr_bt, v.message)
  pub counted : quality ≡ count_verified P v.message v.pks v.sigs
  pub enough : t ≤ quality

-- A run of the circuit for that many keys behind a certificate: its constraints hold, its public inputs
-- are the constant and the hash of the certificate's data, and it signs the certificate, or one of its
-- hash inputs collides with the verifier's.
pub record IsBacked (P : Primitives) (pks : List P.G2) (t : ℕ) (constant sc_id : P.FieldElement)
    (epoch : ℕ) (root : P.FieldElement) (btr ft : ℕ) (bts : List BackwardTransfer) (quality : ℕ)
    : Type 0 where
  pub c : NaiveTresholdSignature P
  pub cs : ConstraintSystem P
  pub v : Values P
  pub d : Hashed P pks sc_id epoch root btr ft bts quality
  pub max_pks : c.max_pks ≡ length pks
  pub runs : generate_constraints P c (empty_system P) ≡ ok cs
  pub trace : IsTrace P c (empty_system P) cs v
  pub satisfied : cs.satisfied ≡ true
  pub inputs : cs.inputs ≡ constant ∷ d.data_hash ∷ []
  pub signed :
      Clash P pks t sc_id epoch root btr ft bts quality d v
      ⊎ IsSigned P pks t sc_id epoch root btr ft bts quality v
