-- ===== src/Tls/Trust.antt =====
-- tls.rs, TofuVerifier: who is known after a peer has been trusted.
use kmflow.Text.Search.{contains_text-append, contains_text_longer}
use mathlib.Core.List.{append_assoc}
use kmflow.Prelude.{Bool, List, [], ap, arith, none, some, sym, true, ℕ, ◌++◌, ◌≡◌}
use kmflow.Text.{ascii, contains_text, decimal}
use kmflow.Tls.{
  Identity, KnownPeers, append_entry, entry, heading, is_known, trust_on_first_use, trust_peer,
}

abbrev opening : List ℕ
opening = ascii "[[peers]]\nfingerprint = \""

abbrev closing : Identity → List ℕ
closing identity =
    ascii "\"\nhostname = \""
    ++ (identity.hostname
        ++ (ascii "\"\nlast_seen = " ++ (decimal identity.last_seen ++ ascii "\n\n")))

entry-contains :
    (content : List ℕ) (identity : Identity)
    → contains_text (content ++ entry identity) identity.fingerprint ≡ true
unfolding entry
entry-contains content identity =
    rw (sym (append_assoc content opening (identity.fingerprint ++ closing identity)))
      (contains_text-append (content ++ opening) identity.fingerprint (closing identity))

already_known :
    (now : ℕ) (content fingerprint : List ℕ)
    → contains_text content fingerprint ≡ true
    → trust_on_first_use true true now (some content) fingerprint ≡ some content
unfolding trust_on_first_use is_known
already_known now content fingerprint h = ground arith

-- After a peer has been met, with the file readable and writable, its fingerprint is known, and
-- meeting it again changes nothing.
pub trust_on_first_use_once :
    (now later : ℕ) (file : KnownPeers) (fingerprint : List ℕ)
    → let file' = trust_on_first_use true true now file fingerprint in
      (is_known true file' fingerprint ≡ some true)
      × (trust_on_first_use true true later file' fingerprint ≡ file')
unfolding trust_on_first_use is_known trust_peer append_entry
trust_on_first_use_once now later none fingerprint =
    let identity : Identity = record {
      fingerprint = fingerprint;
      hostname = [];
      last_seen = now;
    } in
    let found = entry-contains heading identity in
    (ap some found, already_known later (heading ++ entry identity) fingerprint found)
trust_on_first_use_once now later (some content) fingerprint =
    let identity : Identity = record {
      fingerprint = fingerprint;
      hostname = [];
      last_seen = now;
    } in
    let found = entry-contains content identity in
    ground (arith, found, already_known later (content ++ entry identity) fingerprint)

-- Whoever was known stays known when another peer is met, whatever fails in between.
pub trust_on_first_use_keeps :
    (readable writable : Bool) (now : ℕ) (file : KnownPeers) (fingerprint other : List ℕ)
    → is_known true file other ≡ some true
    → is_known true (trust_on_first_use readable writable now file fingerprint) other ≡ some true
unfolding trust_on_first_use is_known trust_peer append_entry
trust_on_first_use_keeps readable writable now none fingerprint other h = absurd (cc)
trust_on_first_use_keeps readable writable now (some content) fingerprint other h =
    let identity : Identity = record {
      fingerprint = fingerprint;
      hostname = [];
      last_seen = now;
    } in
    ground (arith, h, contains_text_longer content (entry identity) other)
