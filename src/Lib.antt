-- ===== src/Lib.antt =====
-- A model of the shielded ledger in crates/, from its hashing to its consensus, with the theorems
-- that make it correct. The program is a node's core: notes are committed into an append-only tree,
-- a transaction spends two notes by revealing their nullifiers and proves the spend against a
-- sealed anchor of the tree, an anti-spam lane limits the rate, consensus orders the transactions
-- of a checkpoint, and the ledger applies them and mints the validators' rewards. A wallet decrypts
-- its notes, chooses inputs and builds transactions.
--
-- The files, each with the code that it is about:
--   Base          shared names, Boolean tests, lists, Result, bytes and machine words
--   Primitives    crates/primitives/src/lib.rs: hash_parts, derive_key, ds
--   Interfaces    crates/interfaces/src/lib.rs: the shared types, SpendPublicInputs::encode
--   Notes         crates/notes/src/lib.rs: commitment, nullifier, dummy, rho_transfer, rho_mint
--   Tree          crates/tree/src/lib.rs: CommitmentTree (append, root, witness, seal,
--                 anchor_valid) and verify_path
--   Emission      crates/emission/src/lib.rs: emission_at, distribute, reward_descriptor
--   Quota         crates/antispam-quota/src/lib.rs: the field, signal, RateProof, admit
--   Pow           crates/antispam-pow/src/lib.rs: solve and verify
--   Keys          crates/keys/src/lib.rs: SpendingKey, viewing keys, Address (encode, decode)
--   Encryption    crates/encryption/src/lib.rs: encrypt_note, try_decrypt, scan
--   Tx            crates/tx/src/lib.rs: encode, decode, binding_digest, validate_stateless
--   ProverDev     crates/prover-dev/src/lib.rs: check_spend_statement, prove, DevVerifier
--   State         crates/state/src/lib.rs: Ledger (genesis and the loop of a checkpoint);
--                 State/Checkpoint: apply_checkpoint, audit_supply; State/Conservation: the
--                 value of the notes behind its leaves
--   Wallet        crates/wallet/src/lib.rs: select_inputs, observe_nullifiers, build_transfer
--   Storage       crates/storage/src/lib.rs: Store (open, commit_checkpoint, load_tree)
--   Persistence   crates/state/src/lib.rs: Ledger's persist and restore
--   Consensus     crates/consensus/src/lib.rs: commit_order, Cluster
--   Knockout      crates/knockout/src/lib.rs: the baseline; Knockout/Mutations: run_knockouts
--   Node          crates/node/src/main.rs: Demo (checkpoint, anchor) and run_demo
--   Testkit       crates/testkit/src/lib.rs: the golden vectors
--   Examples      a toy hash, test data, and each theorem at work on them
-- The other child modules of a part hold its proofs, and are named for what they prove.
--
-- How the code is rendered. A struct is a record, an enum a data type, a Vec or an array of bytes a
-- list of numbers; the newtypes over 32 bytes are byte strings, and where a theorem needs their size
-- it is a hypothesis (Is32, IsTx, IsNote). The integers are natural numbers, with `% 2 ^ 64` where
-- the code's arithmetic can leave the range, as in a release build. A HashSet is a list, a HashMap
-- an association list, a BTreeMap the list of its entries in order. A method that takes `&mut self`
-- returns the new state. The loop of apply_checkpoint is `stage_all`: `judge` gives the registry and
-- the reason of a rejection for one transaction, and `stage` updates the loop's variables.
--
-- BLAKE3 is third-party code and the parameter Blake3: a digest of 32 bytes for each context and
-- input. Since its digests are short, some inputs must share one, and that some do says nothing. A
-- theorem on what a hash binds therefore concludes "or these inputs collide" (Collides), of inputs
-- that it names: the parts of the transactions, encodings or notes in question, the nodes on two
-- paths, or what the witness of a transaction of the run hashes.
--
-- X25519, ML-KEM-768, ChaCha20-Poly1305 and hexadecimal text are the parameter Ciphers: the
-- operations, with the laws that both sides agree and that the sizes are what the crates document.
--
-- The verifier of a spend is the code's trait SpendVerifier, a record of its operation. Each theorem
-- says whether it is about any verifier, the development verifier, or one that is sound for the
-- statement, which a proof system is to be; the development verifier's tag proves nothing, as its
-- comment says.
--
-- Fuel: `solve` runs at most 2^64 rounds, which is every nonce; every other loop is structural.
--
-- The database redb is third-party code and the parameter Redb: its types and the calls that
-- crates/storage makes, each of which may fail, so that every operation has its error path. A call
-- that writes gives the transaction's state after it. What redb documents is the hypothesis
-- IsWorking (Storage/Working): no failure, and tables that are ordered maps (Storage/Tables). The
-- Examples give a database in memory that satisfies it.
--
-- The devnet's log and errors are the values that its texts show. A panic of the code is an error
-- value: `stop` in the wallet, `stopped` in the devnet, `none` in the knockout harness.
--
-- Not modelled: crates/sim, whose statistics are floating-point numbers that it prints;
-- bench/circuit-bench, which measures a STARK prover of a third party.
pub mod Base
pub mod Primitives
pub mod Interfaces
pub mod Notes
pub mod Tree
pub mod Emission
pub mod Quota
pub mod Pow
pub mod Keys
pub mod Encryption
pub mod Tx
pub mod ProverDev
pub mod State
pub mod Wallet
pub mod Storage
pub mod Persistence
pub mod Consensus
pub mod Examples
pub mod Knockout
pub mod Node
pub mod Testkit
