-- ===== src/Tests/Lifetimes.antt =====
-- The lives of contexts and of configurations over the toy provider.
use hpke_rs.Prelude.{
  ◌<◌, replicate, ◌^◌, ◌%◌, ◌≡◌, ◌≢◌, ◌↔◌, inl, refl, List, [], ◌∷◌, none, some, ok, panic, length,
  arith,
}
use hpke_rs.Prelude.Bytes.{Bytes, IsBytes, u16_to_be_bytes}
use hpke_rs.Build.{debug_build}
use hpke_rs.Traits.Types.{dh_kem_25519, aes128_gcm, private_key_len}
use hpke_rs.Kdf.{labeled_info}
use hpke_rs.Kdf.Separation.{ExpandLabel, ExtractLabel}
use hpke_rs.DhKem
use hpke_rs.Kem
use hpke_rs.Hpke.Context
use hpke_rs.Hpke.Context.{Context, compute_nonce}
use hpke_rs.Hpke.Keys.{HpkeKeyPair, key_pair_new}
use hpke_rs.Hpke.Lifetime.{IsSound, Reach, Step, Started, Reach-IsSound, compute_nonce-IsBytes}
use hpke_rs.Hpke.Channel.{seal_all, open_all}
use hpke_rs.Hpke.Channel.Nonces.{Event, AllDistinct, used_nonces, used_nonces-AllDistinct}
use hpke_rs.Hpke.Channel.Exports.{export-Reach}
use hpke_rs.Hpke.Channel.Authentic.{open_all_iff}
use hpke_rs.Hpke.Channel.Progress.{seal_all-progress}
use hpke_rs.Hpke.Suites.{Suite, SameSuite, labeled_info-SameSuite, labeled_ikm-SameSuite}
use hpke_rs.Hpke.Setup.Returns.{Fills}
use hpke_rs.Hpke.NoPanic.{single_shot-returns}
use hpke_rs.Hpke.Setup
use hpke_rs.Prelude.State.{◌>>=◌}
use hpke_rs.Hpke.Threads.{setup_rest, setup_rest-Calls}
use hpke_rs.Hpke.Schedule.Agreement.{Agrees}
use hpke_rs.Hpke.Setup.{Session, random, setup_sender}
use hpke_rs.Hpke.Setup.Agreement.{IsKeyPair}
use hpke_rs.Hpke.Setup.KeyPairs.{pair-IsKeyPair}
use hpke_rs.Hpke.Sessions.{Call, Calls}
use hpke_rs.Hpke.SingleShot.{seal, open_message}
use hpke_rs.Tests.Toy.{
  toy, toy-IsKdf, toy-IsSeeded, toy-IsAead, toy-IsExactAead, toy-IsTotalAead, toy-IsPanicFree,
  sender, sk_r, pk_r, sk_s, a_psk, a_psk_id,
}
use hpke_rs.Tests.Started.{
  info, started, first, enc, started_lem, messages, peer, peer-Agrees, sealed,
}

-- A message, and a ciphertext that no one sealed.
after_message : Context toy
after_message = (Context.seal debug_build toy [] (4 ∷ []) first).1

after_forgery : Context toy
unfolding after_message
after_forgery = (Context.open_message debug_build toy [] (9 ∷ []) after_message).1

began : Started debug_build toy first
began = Started.by_sender sender pk_r info (some a_psk) (some a_psk_id) (some sk_s) enc started_lem

calls : Reach debug_build toy first after_forgery
unfolding after_message after_forgery
calls = Reach.next (Reach.next Reach.here (Step.sealed [] (4 ∷ []))) (Step.opened [] (9 ∷ []))

Reach-IsSound_example :
    IsSound toy after_forgery
    × (after_forgery ≡ record first { sequence_number = after_forgery.sequence_number })
Reach-IsSound_example = Reach-IsSound debug_build toy toy-IsKdf began calls

first-IsSound : IsSound toy first
first-IsSound = (Reach-IsSound debug_build toy toy-IsKdf began Reach.here).0

first-seals : first.hpke.aead_id ≡ aes128_gcm
unfolding first started
first-seals = refl

compute_nonce-IsBytes_example :
    (nonce : Bytes) × (compute_nonce debug_build toy first ≡ ok nonce)
    × (length nonce ≡ 12)
    × IsBytes nonce
compute_nonce-IsBytes_example =
    compute_nonce-IsBytes debug_build toy first first-IsSound (λ e. cc first-seals)

-- A forged ciphertext between two messages.
abbrev events : List Event
events = Event.sealing [] (4 ∷ []) ∷ Event.opening [] (9 ∷ []) ∷ Event.sealing [] (4 ∷ []) ∷ []

used_nonces-AllDistinct_example : AllDistinct (used_nonces debug_build toy events first)
unfolding first started
used_nonces-AllDistinct_example =
    used_nonces-AllDistinct debug_build toy events first (omega arith) (omega arith) (omega arith)

export-Reach_example :
    Context.export debug_build toy after_forgery (3 ∷ []) 20
    ≡ Context.export debug_build toy peer (3 ∷ []) 20
unfolding first started
export-Reach_example =
    export-Reach debug_build toy (3 ∷ []) 20 (omega arith) peer-Agrees calls Reach.here

open_all_iff_example :
    ((open_all debug_build toy sealed peer).0 ≡ ok messages)
    ↔ ((seal_all debug_build toy messages first).0 ≡ ok sealed)
open_all_iff_example =
    open_all_iff debug_build toy toy-IsAead toy-IsExactAead messages sealed first peer peer-Agrees
      (omega arith)

seal_all-progress_example :
    (cts : List (Bytes × Bytes)) × ((seal_all debug_build toy messages first).0 ≡ ok cts)
    × (length cts ≡ length messages)
unfolding first started
seal_all-progress_example =
    seal_all-progress debug_build toy (λ alg aad msg. length msg < 2 ^ 32) toy-IsTotalAead messages
      first first-IsSound (λ e. cc) (omega arith) (omega arith)

-- Lengths of 1 and of 2 ^ 16 + 1 are written alike.
labeled_info-SameSuite_example :
    (1 % 2 ^ 16 ≡ 65537 % 2 ^ 16)
    × SameSuite debug_build toy (Suite.kem dh_kem_25519) (Suite.kem dh_kem_25519)
    × (ExpandLabel.sec ≡ ExpandLabel.sec)
    × (◌≡◌ {A = Bytes} (8 ∷ []) (8 ∷ []))
labeled_info-SameSuite_example =
    labeled_info-SameSuite debug_build toy 1 65537 (Suite.kem dh_kem_25519) (Suite.kem dh_kem_25519)
      ExpandLabel.sec ExpandLabel.sec (8 ∷ []) (8 ∷ [])
      (unfold labeled_info u16_to_be_bytes in refl)

labeled_ikm-SameSuite_example :
    SameSuite debug_build toy (Suite.hpke sender.hpke) (Suite.hpke sender.hpke)
    × (ExtractLabel.secret ≡ ExtractLabel.secret)
    × (◌≡◌ {A = Bytes} (8 ∷ []) (8 ∷ []))
labeled_ikm-SameSuite_example =
    labeled_ikm-SameSuite debug_build toy (Suite.hpke sender.hpke) (Suite.hpke sender.hpke)
      ExtractLabel.secret ExtractLabel.secret (8 ∷ []) (8 ∷ []) refl

sender-Fills : Fills debug_build toy sender 32
unfolding random
sender-Fills = (λ h. cc, λ bytes h. ground arith)

-- An opener that is given bytes of no sender.
single_shot-returns_example :
    ((seal debug_build toy pk_r info [] (4 ∷ []) none none none sender).0 ≢ panic)
    × ((open_message debug_build toy (1 ∷ []) sk_r info [] (4 ∷ []) none none none sender).0
        ≢ panic)
unfolding private_key_len
single_shot-returns_example =
    single_shot-returns debug_build toy toy-IsPanicFree toy-IsSeeded toy-IsKdf sender pk_r sk_r
      (1 ∷ []) info [] (4 ∷ []) none none none none tt (λ e. cc) sender-Fills

-- Another thread draws and makes a key pair between the two parts of a set-up.
setup_rest-Calls_example :
    ((random debug_build toy 32
          >>= setup_rest debug_build toy pk_r info (some a_psk) (some a_psk_id) (some sk_s))
        sender
      ≡ setup_sender debug_build toy pk_r info (some a_psk) (some a_psk_id) (some sk_s) sender)
    × (ctx' : Context toy) × ((setup_rest debug_build toy pk_r info
          (some a_psk)
          (some a_psk_id)
          (some sk_s)
          (replicate 32 7)
          (Setup.generate_key_pair debug_build toy
            (random debug_build toy 4 (random debug_build toy 32 sender).1).1).1).0
        ≡ ok (enc, ctx'))
    × Agrees first ctx'
unfolding random private_key_len
setup_rest-Calls_example =
    setup_rest-Calls debug_build toy toy-IsSeeded sender
      (Setup.generate_key_pair debug_build toy
        (random debug_build toy 4 (random debug_build toy 32 sender).1).1).1
      pk_r info (some a_psk) (some a_psk_id) (some sk_s) (replicate 32 7) enc first refl
      (Calls.next (Calls.next Calls.here (Call.drew 4)) Call.generated) started_lem

a_pair : HpkeKeyPair
a_pair = record { private_key = record { value = 7 ∷ [] }; public_key = record { value = 21 ∷ [] } }

pair-IsKeyPair_example : IsKeyPair toy dh_kem_25519 a_pair.private_key a_pair.public_key
unfolding a_pair Setup.generate_key_pair Kem.key_gen DhKem.key_gen key_pair_new
pair-IsKeyPair_example = pair-IsKeyPair debug_build toy sender [] a_pair (inl refl)
