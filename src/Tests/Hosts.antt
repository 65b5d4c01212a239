-- ===== src/Tests/Hosts.antt =====
-- Witnesses of the choice of devices, of the stored identity and of the daemon's main loop.
use kmflow.Prelude.{
  All, List, [], arith, false, leb, ltb, map, none, refl, some, take, true, ℕ, ◌&&◌, ◌*◌, ◌++◌, ◌+◌,
  ◌∷◌, ◌≡◌, ◌≤◌,
}
use kmflow.Prelude.Eq.{nat_eq, ◌==◌}
use kmflow.Text.{bytes_eq, ascii, contains_text}
use kmflow.Proto.{default_config}
use kmflow.Connection.{disconnected, transition_to}
use kmflow.Evdev.{btn_extra, btn_left, ev_key}
use kmflow.Devices.{enumerate_input_devices, find_keyboard_devices, virtual_name}
use kmflow.Devices.Own.{KeepsAscii, NotOwn, enumerated-NotOwn}
use kmflow.Devices.Chosen.{
  Description, Machine, device, devices_chosen, entries_of, is_input, is_pure_keyboard, keep,
}
use kmflow.Tls.{is_known, trust_on_first_use}
use kmflow.Tls.KeyFiles.{
  Access, IdentityFiles, extract_peer_fingerprint, identity_of, load_or_generate, written,
}
use kmflow.Tls.Restart.{restarted_is_known}
use kmflow.Reconnect.{World, attempts, connect_to, refused}
use kmflow.MainLoop.{Main, Spawned, Wake, accept_failed, accepted, asked, main_run, shutdown}
use kmflow.MainLoop.Trusted.{IsTrusted, main_run-IsTrusted}
use kmflow.MainLoop.Waits.{longest_call, shutdown_ends}

-- Bytes that are all characters.
abbrev latin : List ℕ → List ℕ
latin bytes = bytes

latin-KeepsAscii : KeepsAscii latin
latin-KeepsAscii pattern bytes h = refl

-- A keyboard, a mouse, and the emulator's device, which has the keys of both.
abbrev typing : Description
typing = record {
  types = λ n. n == ev_key;
  keys = λ n. ltb n 200;
  axes = λ n. false;
  name = ascii "AT keyboard";
}

abbrev pointing : Description
pointing = record {
  types = λ n. ltb n 3;
  keys = λ n. leb btn_left n && leb n btn_extra;
  axes = λ n. ltb n 2;
  name = ascii "USB mouse";
}

abbrev replaying : Description
replaying = record {
  types = λ n. ltb n 3;
  keys = λ n. true;
  axes = λ n. ltb n 2;
  name = virtual_name;
}

abbrev machine : Machine
machine = (ascii "0", typing) ∷ (ascii "1", pointing) ∷ (ascii "2", replaying) ∷ []

devices_chosen_example :
    (enumerate_input_devices latin (entries_of machine) ≡ some (map device (keep is_input machine)))
    × (find_keyboard_devices latin (entries_of machine)
        ≡ map device (keep is_pure_keyboard machine))
devices_chosen_example = devices_chosen latin latin-KeepsAscii machine (omega arith)

machine_inputs : keep is_input machine ≡ (ascii "0", typing) ∷ (ascii "1", pointing) ∷ []
unfolding contains_text
machine_inputs = refl

machine_keyboards : keep is_pure_keyboard machine ≡ (ascii "0", typing) ∷ []
unfolding contains_text
machine_keyboards = refl

enumerated-NotOwn_example :
    All NotOwn (map device (keep is_input machine))
    × All NotOwn (find_keyboard_devices latin (entries_of machine))
enumerated-NotOwn_example =
    enumerated-NotOwn latin latin-KeepsAscii (entries_of machine)
      (map device (keep is_input machine)) devices_chosen_example.0

abbrev everything : Access
everything = record {
  reads_cert = true;
  reads_key = true;
  creates_dir = true;
  cert_write = written;
  key_write = written;
}

abbrev no_files : IdentityFiles
no_files = record { cert = none; key = none }

abbrev first_byte : List ℕ → List ℕ
first_byte bytes = take 1 bytes

restarted_is_known_example :
    let files : IdentityFiles = record { cert = some (65 ∷ []); key = some (66 ∷ []) } in
    let identity = identity_of first_byte (65 ∷ []) (66 ∷ []) in
    let shown = extract_peer_fingerprint first_byte (some (identity.cert_der ∷ [])) in
    (load_or_generate first_byte everything none files ≡ (files, some identity))
    × (shown ≡ identity.fingerprint)
    × (is_known true (trust_on_first_use true true 7 none shown) identity.fingerprint ≡ some true)
unfolding load_or_generate
restarted_is_known_example =
    restarted_is_known first_byte everything everything (some (65 ∷ [], 66 ∷ [])) none no_files
      (record { cert = some (65 ∷ []); key = some (66 ∷ []) })
      (identity_of first_byte (65 ∷ []) (66 ∷ [])) 7 none refl refl refl

abbrev deaf : World
deaf = record {
  connect = λ k. refused k;
  others = λ k s. s;
  now_us = λ k. k;
  readable = true;
  writable = true;
}

abbrev idle_main : Main
idle_main = record {
  state = disconnected;
  known = none;
  sessions = [];
  waited = 0;
  stopped = false;
}

abbrev before_shutdown : List Wake
before_shutdown = asked deaf ∷ accept_failed ∷ asked deaf ∷ []

shutdown_ends_example :
    let ended = main_run default_config (before_shutdown ++ shutdown ∷ []) idle_main in
    (main_run default_config (before_shutdown ++ shutdown ∷ asked deaf ∷ []) idle_main ≡ ended)
    × (ended.stopped ≡ true)
    × (ended.waited ≤ 0 + longest_call * 2)
shutdown_ends_example = shutdown_ends default_config before_shutdown (asked deaf ∷ []) idle_main

-- The bound is reached.
deaf_peers : (main_run default_config (before_shutdown ++ shutdown ∷ []) idle_main).waited ≡ 302
unfolding main_run connect_to attempts transition_to
deaf_peers = refl

abbrev meeting : List Wake
meeting = accepted true true 5 (ascii "unknown") ∷ asked deaf ∷ []

main_run-IsTrusted_example : IsTrusted (main_run default_config meeting idle_main)
main_run-IsTrusted_example =
    main_run-IsTrusted default_config meeting idle_main ((refl, refl), ((refl, refl), tt)) tt

meeting_session :
    map (λ (s : Spawned). s.fingerprint) (main_run default_config meeting idle_main).sessions
    ≡ ascii "unknown" ∷ []
unfolding main_run
meeting_session = refl
