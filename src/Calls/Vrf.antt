-- ===== src/Calls/Vrf.antt =====
-- The output of a proof: `vrf_prove` and `vrf_proof_to_hash` of api/src/cctp_calls.rs.
use zendoo_sc_cryptolib.Prelude.{ℕ, ◌≡◌, Option, none, some, List}
use zendoo_sc_cryptolib.Prelude.Call.{ok, invert, ok-injective}
use zendoo_sc_cryptolib.Primitives.{Primitives}
use zendoo_sc_cryptolib.Primitives.Laws.{absorb}
use zendoo_sc_cryptolib.Calls.{vrf_prove, vrf_proof_to_hash, unwrap_coords}

-- What the library promises of the proofs by one pair of keys: the output of a proof is the hash of the
-- message and the coordinates of the proof's point.
pub record VrfLaws (P : Primitives) (sk : P.ScalarFieldElement) (pk : P.G2) : Type 0 where
  pub vrf_proof_to_hash-prove :
      (rng : ℕ) (message : P.FieldElement) (proof : P.VrfProof) (gamma : List P.FieldElement)
      → P.vrf_prove rng (P.into_projective pk) sk message ≡ ok proof
      → P.gamma_coords proof ≡ some gamma
      → P.vrf_proof_to_hash (P.into_projective pk) message proof
        ≡ P.finalize (absorb P (P.update (P.init_constant_length 3 none) message) gamma)

module _ (P : Primitives) where
  unwrap_coords-eq_ok :
      (o : Option (List P.FieldElement)) (a : List P.FieldElement)
      → unwrap_coords P o ≡ ok a
      → o ≡ some a
  unwrap_coords-eq_ok none a h = cc
  unwrap_coords-eq_ok (some b) a h = cc

  -- The output that `vrf_prove` computes itself is the one that the library gives for the proof.
  pub vrf_proof_to_hash-vrf_prove :
      (rng : ℕ) (message : P.FieldElement) (sk : P.ScalarFieldElement) (pk : P.G2)
      (proof : P.VrfProof) (output : P.FieldElement)
      → VrfLaws P sk pk
      → vrf_prove P rng message sk pk ≡ ok (proof, output)
      → vrf_proof_to_hash P message pk proof ≡ ok output
  unfolding vrf_prove vrf_proof_to_hash
  vrf_proof_to_hash-vrf_prove rng message sk pk proof output laws h =
      invert (P.vrf_prove rng (P.into_projective pk) sk message) _ h λ made h0 h1.
        invert (unwrap_coords P (P.gamma_coords made)) _ h1 λ gamma h2 h3.
          invert (P.finalize (absorb P (P.update (P.init_constant_length 3 none) message) gamma)) _
            h3
            λ out h4 h5.
              let same = ok-injective h5 in
              let law =
                laws.vrf_proof_to_hash-prove rng message made gamma h0
                  (unwrap_coords-eq_ok (P.gamma_coords made) gamma h2) in
              cc (same, law, h4)
