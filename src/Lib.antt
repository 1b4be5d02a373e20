-- ===== src/Lib.antt =====
-- zendoo-sc-cryptolib: the Rust behind a sidechain's Java library. A verification of the code that
-- the repository itself holds, over parameters for the libraries that it calls.
--
-- The program's parts, and the files that model them:
--   * Threshold: demo-circuit/src/naive_threshold_sig/mod.rs, the circuit that shows that enough of a
--     list of signers signed a certificate. The struct and its `new`, `get_instance_for_setup`, and
--     `generate_constraints` in full, in the order of the source, assertions and missing assignments
--     included. A constraint system is its public inputs and whether the equations enforced so far
--     hold; a gadget gives the value that it allocates. Its children: Trace (a run as the values of
--     its variables), Count (the sum of the verdicts), Fees (the packed fees), Comparison (the bits of
--     the difference), Soundness.
--   * Calls: api/src/cctp_calls.rs, the calls behind the Java interface. `create_circuit` is the part of
--     `create_naive_threshold_sig_proof` before the keys are read; Calls/Proofs has the whole
--     function and the verification (Returned: what their results stand for), over Calls/Backend, the
--     proving system. Calls/Inputs, Difference, Tally, Completeness and Insufficient lead from a call to
--     its circuit. Calls/Certificate composes the two calls, over the laws of an argument system
--     (ProofLaws), in Made and Accepted for an honest certificate and in Binding for an accepted one.
--   * Setup: demo-circuit/src/lib.rs, `generate_circuit_keypair`, with the disk as a state.
--   * Jni: api/src/exception.rs, how a native method ends. A native method is a function from a world
--     (the pending Java exception, and the boxes by address) to an exit, which is a value, a panic or
--     undefined behaviour, and a world. `ffi_export` is the macro of that name.
--   * Jni/Pointer and its siblings: api/src/lib.rs, the helpers and the exported functions, one module
--     for each Java package or class.
--   * Jni/Session: what Java can do with all of that, which is any sequence of exported functions. Its
--     calls are listed in Jni/Methods, by package, with what each frees. Jni/Invariant has the invariant
--     of the boxes, a rule for each way to build a native method, and what the helpers do, for a box that
--     Java still owns; Jni/Session/Handles puts this together. Jni/Defined has the same for
--     memory safety: what Java's handles must be for a method not to read or free a box that is not
--     there, and Jni/Session/Defined the theorem for every method.
--   * Jni/Points: an object whose handle is live, and in Fresh the objects of fresh boxes, with which
--     Jni/Schnorr/Signed and Jni/Vrf/Hashed follow a signature and a proof from call to call; the
--     output of a proof is that of Calls/Vrf. Jni/Poseidon/Updates and Jni/MerkleTree/Operations follow
--     an object through a list of calls, and Jni/Roundtrip a value through bytes. Jni/SigProof/Honest
--     composes the two methods of a certificate, and Short has one with too few signatures. Accepted,
--     Verified and Finished, below several of these, say what a true answer of a method stands for.
--   * Constants: demo-circuit/src/constants/mod.rs, the null key and the table of the group hash. Its
--     child Table says what the table holds, over the multiples of a point.
--   * Primitives: the libraries (fields, curves, Poseidon, Schnorr, the VRF, gadgets) as a record of
--     operations, the sizes of demo-circuit/src/type_mapping.rs over them in Primitives/Sizes, the laws
--     that the theorems use of them in Primitives/Laws, and what a collision of the hash is in
--     Primitives/Collision. Random numbers are seeds that a caller gives.
--   * Prelude: errors and panics as values, words and casts, bits, logarithms. Examples: a toy
--     library, machine and disk at which the theorems apply.
--
-- How they interact: an exported function reads its arguments through Jni/Pointer, calls Calls or
-- Setup, and boxes the answer; Calls builds the circuit of Threshold and hands it to the backend. A
-- panic anywhere below ends in `ffi_export`.
--
-- Bounds: the number of keys is at most 2 ^ 63, which fits the allocations of the machine; fees,
-- thresholds and epochs are words of their Rust types, and `as` casts wrap. Every loop is structural
-- recursion on a list or on a count; the only fuel is that of `next_power_of_two` and
-- `trailing_zeros`, 64 steps for the bits of a word.
--
-- Addresses are given out in order and never again, so a freed box stays recognisable; a real
-- allocator may give its address to a new box. The handles that a session keeps are never freed
-- in it. Undefined behaviour is reading or freeing an address without a box of the type. Calls
-- run one after the other; Rust's rules on aliased references and calls from several threads are
-- not modelled.
--
-- Not modelled: the cryptography of the libraries, what is printed, the Java classes, the tests, and
-- ouroboros, example calls that the workspace does not build. Texts of panics stand without formatted
-- numbers, and a Java string that is not UTF-8 is a failure of `get_string` with the text of that one.
pub mod Prelude
pub mod Primitives
pub mod Constants
pub mod Threshold
pub mod Calls
pub mod Setup
pub mod Jni
pub mod Examples
