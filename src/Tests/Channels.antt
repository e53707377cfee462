-- ===== src/Tests/Channels.antt =====
-- Sessions over the toy provider, in the mode with both kinds of authentication.
use hpke_rs.Prelude.{
  ◌⊎◌, ◌^◌, ◌-◌, ◌++◌, ◌≡◌, refl, [], ◌∷◌, some, Outcome, ok, unwrap_or, replicate, arith,
}
use hpke_rs.Prelude.Bytes.{Bytes, u32_to_be_bytes}
use hpke_rs.Build.{debug_build, release_build}
use hpke_rs.Util
use hpke_rs.Hpke.Errors.{HpkeError}
use hpke_rs.Hpke.Context
use hpke_rs.Hpke.Context.{Context, nonce_at, compute_nonce, increment_seq}
use hpke_rs.Hpke.Schedule.Agreement.{Agrees}
use hpke_rs.Hpke.Setup.{setup_receiver}
use hpke_rs.Hpke.Setup.Agreement.{setup_receiver-setup_sender}
use hpke_rs.Hpke.Channel.{seal_all, open_all, open_all-seal_all, seal_last, seal_open_failed, IsOk}
use hpke_rs.Hpke.SingleShot.{seal, open_message, send_export, receiver_export}
use hpke_rs.Hpke.SingleShot.RoundTrip.{open-seal_once, receiver_export-send_export}
use hpke_rs.Tests.Toy.{
  toy, toy-IsDiffieHellman, toy-IsSeeded, toy-IsAead, sender, receiver, sk_r, pk_r, sk_s, pk_s,
  a_psk, a_psk_id,
}
use hpke_rs.Tests.Started.{
  same_config, info, started, first, enc, started_lem, messages, peer, peer-Agrees, sealed,
  sealed_lem,
}

setup_receiver-setup_sender_example :
    (ctx' : Context toy) × ((setup_receiver debug_build toy enc sk_r info
        (some a_psk)
        (some a_psk_id)
        (some pk_s)
        receiver).0
      ≡ ok ctx')
    × Agrees first ctx'
setup_receiver-setup_sender_example =
    setup_receiver-setup_sender debug_build toy toy-IsDiffieHellman toy-IsSeeded sender receiver
      pk_r sk_r info (some a_psk) (some a_psk_id) (some sk_s) (some pk_s) enc first same_config refl
      refl started_lem

open_all-seal_all_example :
    ((open_all debug_build toy sealed peer).0 ≡ ok messages)
    × Agrees (seal_all debug_build toy messages first).1 (open_all debug_build toy sealed peer).1
open_all-seal_all_example =
    open_all-seal_all debug_build toy toy-IsAead messages sealed first peer peer-Agrees
      (omega arith) sealed_lem

seal_open_failed_example :
    (IsOk (Context.seal debug_build toy [] (4 ∷ []) first).0
      ⊎ ((Context.seal debug_build toy [] (4 ∷ []) first).1 ≡ first))
    × (IsOk (Context.open_message debug_build toy [] (4 ∷ []) first).0
        ⊎ ((Context.open_message debug_build toy [] (4 ∷ []) first).1 ≡ first))
seal_open_failed_example = seal_open_failed debug_build toy first [] (4 ∷ [])

-- The last counter of a `u32`.
abbrev last_context : Context toy
last_context = record {
  key = [];
  nonce = replicate 12 0;
  exporter_secret = [];
  sequence_number = 2 ^ 32 - 1;
  hpke = sender.hpke;
}

seal_last_example :
    Context.seal release_build toy [] (4 ∷ []) last_context
    ≡ (ok (1020 ∷ 4 ∷ []), record last_context { sequence_number = 0 })
unfolding compute_nonce nonce_at Util.xor_bytes u32_to_be_bytes
seal_last_example =
    seal_last release_build toy last_context [] (4 ∷ []) (replicate 8 0 ++ replicate 4 255)
      (1020 ∷ 4 ∷ []) (λ e. cc) refl refl refl

-- The same inputs in one call on each side.
once : Outcome HpkeError (Bytes × Bytes)
unfolding started seal Context.seal compute_nonce nonce_at Util.xor_bytes u32_to_be_bytes
    increment_seq
once =
    (seal debug_build toy pk_r info (6 ∷ []) (7 ∷ 8 ∷ []) (some a_psk) (some a_psk_id) (some sk_s)
      sender).0

once_lem :
    (seal debug_build toy pk_r info
      (6 ∷ [])
      (7 ∷ 8 ∷ [])
      (some a_psk)
      (some a_psk_id)
      (some sk_s)
      sender).0
    ≡ ok ((unwrap_or once ([], [])).0, (unwrap_or once ([], [])).1)
unfolding once
once_lem = refl

open-seal_once_example :
    (open_message debug_build toy
      (unwrap_or once ([], [])).0
      sk_r
      info
      (6 ∷ [])
      (unwrap_or once ([], [])).1
      (some a_psk)
      (some a_psk_id)
      (some pk_s)
      receiver).0
    ≡ ok (7 ∷ 8 ∷ [])
open-seal_once_example =
    open-seal_once debug_build toy toy-IsDiffieHellman toy-IsSeeded toy-IsAead sender receiver pk_r
      sk_r info (6 ∷ []) (7 ∷ 8 ∷ []) (some a_psk) (some a_psk_id) (some sk_s) (some pk_s)
      (unwrap_or once ([], [])).0 (unwrap_or once ([], [])).1 same_config refl refl (omega arith)
      once_lem

exported : Outcome HpkeError (Bytes × Bytes)
unfolding started send_export Context.export
exported =
    (send_export debug_build toy pk_r info (some a_psk) (some a_psk_id) (some sk_s) (3 ∷ []) 20
      sender).0

exported_lem :
    (send_export debug_build toy pk_r info
      (some a_psk)
      (some a_psk_id)
      (some sk_s)
      (3 ∷ [])
      20
      sender).0
    ≡ ok ((unwrap_or exported ([], [])).0, (unwrap_or exported ([], [])).1)
unfolding exported
exported_lem = refl

receiver_export-send_export_example :
    (receiver_export debug_build toy
      (unwrap_or exported ([], [])).0
      sk_r
      info
      (some a_psk)
      (some a_psk_id)
      (some pk_s)
      (3 ∷ [])
      20
      receiver).0
    ≡ ok (unwrap_or exported ([], [])).1
receiver_export-send_export_example =
    receiver_export-send_export debug_build toy toy-IsDiffieHellman toy-IsSeeded sender receiver
      pk_r sk_r info (some a_psk) (some a_psk_id) (some sk_s) (some pk_s) (3 ∷ []) 20
      (unwrap_or exported ([], [])).0 (unwrap_or exported ([], [])).1 same_config refl refl
      exported_lem
