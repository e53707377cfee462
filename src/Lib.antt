-- ===== src/Lib.antt =====
-- hpke-rs: hybrid public key encryption (RFC 9180) over an exchangeable crypto provider.
--
-- The library sets up a sender and a receiver, each of which gets an encryption context, and
-- seals, opens and exports with it. The set-up calls a Diffie-Hellman KEM and then the key
-- schedule; both call a labelled key derivation; all of them call a provider through a trait.
--
-- Traits models the crate traits/src: Error (error.rs), Types (types.rs) and Crypto (lib.rs), where
-- the trait `HpkeCrypto` is a record of operations that every later module takes as a parameter.
-- What a provider documents is in the records IsDiffieHellman, IsSeeded, IsKdf, IsAead,
-- IsExactAead and IsTotalAead there and in IsPanicFree of DhKem.Returns, which the theorems that
-- need them take as hypotheses. Making a generator panics on a system with no randomness to give,
-- which `new` and every clone of a configuration do; IsSeeded says that it does not.
-- Util, Kdf, DhKem and Kem model src/util.rs, src/kdf.rs, src/dh_kem.rs and src/kem.rs.
-- Hpke models src/lib.rs: Errors, Mode, Keys, Config (`Hpke` itself), Context, Schedule
-- (`key_schedule`), Setup (`setup_sender`, `setup_receiver` and the making of keys), SingleShot,
-- Display (the texts), Tls (the codec of public keys) and TestUtil. RustCrypto models
-- rust_crypto_provider/src: Aead (aead.rs), Hkdf (hkdf.rs), Prng and Provider (lib.rs), over the
-- crates that it calls, which are the parameters of Libs. Evercrypt models
-- evercrypt_provider/src/lib.rs in the same way. Rand is the crate rand_chacha, from which both
-- providers draw; their generators are the same code, modelled once. Fuzz models
-- fuzz/fuzz_targets/base.rs. A function has the name that it has in the source, but for `open`,
-- which is `open_message`; a method of a type that shares its name has the type's name in front.
--
-- Other modules are about these together. Hpke.Lifetime is the life of a context: a set-up returns
-- it, and steps of `seal` and `open` follow. Hpke.Sessions is that of a configuration, whose steps
-- are the calls of its methods, and Hpke.Threads is about set-ups of several threads, whose draws
-- and remainders interleave. Hpke.Channel is about the contexts of the two sides: its children
-- are on conversations, on the nonces that are used, on what a receiver accepts, and on exports.
-- Hpke.Delivery goes from the set-up to the last message. Hpke.Suites is about the separation of
-- all key derivations of the crate, and Hpke.NoPanic about arbitrary inputs.
--
-- A result is an `Outcome`: a value, an error or a panic. A method that changes its object is a
-- function from the state to an outcome and the state. `Hpke` holds its generator behind a lock,
-- which a panic under the lock poisons, and reads the randomness of the system: a `Session` has
-- both. A `Build` says whether the
-- assertions and the overflow checks of a debug build are there and which features are on, and
-- has the standard library's `Debug` texts; theorems hold for every build where they do not say
-- otherwise. Bytes are lists of numbers, and the counter of a context is a number that the
-- increment keeps below 2 ^ 32.
--
-- The rejection loop for P-256 keys in DhKem runs on fuel of 256, one unit for each counter. No
-- other definition has fuel.
--
-- Not modelled: the derived traits of serde and `Zeroize`, the re-exports of src/prelude.rs, the
-- benchmarks and the tests.
pub mod Prelude
pub mod Build
pub mod Traits
pub mod Util
pub mod Kdf
pub mod DhKem
pub mod Kem
pub mod Hpke
mod Tests
pub mod Rand
pub mod RustCrypto
pub mod Evercrypt
pub mod Fuzz
