-- ===== src/Clipboard/Sync.antt =====
-- clipboard.rs: two machines that keep each other's clipboard.
use Prim.Native.String.{String}
use kmflow.Prelude.{
  All, Bool, List, Option, [], ap, arith, false, if◌then◌else◌, inl, none, refl, some, suc, true,
  zero, ℕ, ◌∷◌, ◌≡◌, ◌≢◌, ◌⊎◌,
}
use kmflow.Prelude.Eq.{string_eq, nat_eq}
use kmflow.Proto.{ClipboardContent, ClipboardPayload}
use kmflow.Clipboard.{SyncState, on_content, poll, receive}

-- The clipboard of a machine, and its tasks.
pub record Machine : Type 0 where
  pub clipboard : String
  pub sync : SyncState

module _ (simple_hash : String → ℕ) (peer_id : String) where
  -- The poller reads the clipboard.
  unfoldable pub poll_machine : Machine → Machine × Option ClipboardPayload
  poll_machine m =
      let (s, sent) = poll simple_hash peer_id m.sync (some m.clipboard) in
      (record m { sync = s }, sent)

  -- A payload arrives; `writes` is whether a tool took the text.
  unfoldable pub set_text : Bool → Machine → Option String → Machine
  set_text writes m none = m
  set_text writes m (some content) = if writes then record m { clipboard = content } else m

  unfoldable pub deliver : Bool → Machine → ClipboardPayload → Machine
  unfolding set_text
  deliver writes m payload =
      let (s, content) = receive simple_hash peer_id m.sync payload in
      set_text writes (record m { sync = s }) content

  -- Further polls with nothing else happening: the payloads they send.
  unfoldable pub polls : ℕ → Machine → List (Option ClipboardPayload)
  polls zero m = []
  polls (suc n) m = let (m', sent) = poll_machine m in sent ∷ polls n m'

  -- Nothing to send: the hash is that of the clipboard, or the clipboard is empty.
  abbrev IsQuiet : Machine → Type 0
  IsQuiet m = (simple_hash m.clipboard ≡ m.sync.shared_hash) ⊎ (m.clipboard ≡ "")

  IsQuiet-poll :
      (m : Machine) → IsQuiet m → ((poll_machine m).1 ≡ none) × IsQuiet (poll_machine m).0
  unfolding poll_machine poll on_content
  IsQuiet-poll m q = ground (arith, q, string_eq.beq_iff m.clipboard "")

  abbrev pub AllNone : List (Option ClipboardPayload) → Type 0
  AllNone = All (λ sent. sent ≡ none)

  quiet_polls : (n : ℕ) (m : Machine) → IsQuiet m → AllNone (polls n m)
  unfolding polls
  quiet_polls zero m q = tt
  quiet_polls (suc n) m q =
      let (silent, q') = IsQuiet-poll m q in (silent, quiet_polls n (poll_machine m).0 q')

  after_poll : (m : Machine) → IsQuiet (poll_machine m).0
  unfolding poll_machine poll on_content
  after_poll m = ground (arith, string_eq.beq_iff m.clipboard "")

  poll_new :
      (m : Machine)
      → m.clipboard ≢ ""
      → simple_hash m.clipboard ≢ m.sync.shared_hash
      → (poll_machine m).1
        ≡ some (record { origin_peer_id = peer_id; content = ClipboardContent.text m.clipboard })
  unfolding poll_machine poll on_content
  poll_new m some_text new_text = ground (arith, string_eq.beq_iff m.clipboard "")

  -- A text that arrives is in the clipboard if it could be written; the hash is its own either way.
  delivered :
      (writes : Bool) (m : Machine) (id content : String)
      → deliver writes m (record { origin_peer_id = id; content = ClipboardContent.text content })
        ≡ record {
          clipboard = if writes then content else m.clipboard;
          sync = record m.sync { shared_hash = simple_hash content };
        }
  unfolding deliver receive
  delivered true m id content = refl
  delivered false m id content = refl

  -- A new text on machine a, other than empty and with another hash than the last one, is sent
  -- at the next poll; when it has been set on machine b, both have the text, and however often they
  -- are polled then, neither sends anything: there is no echo.
  pub sync_settles :
      (a b : Machine) (n : ℕ)
      → a.clipboard ≢ ""
      → simple_hash a.clipboard ≢ a.sync.shared_hash
      → (payload : ClipboardPayload) × ((poll_machine a).1 ≡ some payload)
        × ((deliver true b payload).clipboard ≡ a.clipboard)
        × AllNone (polls n (poll_machine a).0)
        × AllNone (polls n (deliver true b payload))
  sync_settles a b n some_text new_text =
      let payload : ClipboardPayload = record {
        origin_peer_id = peer_id;
        content = ClipboardContent.text a.clipboard;
      } in
      let there = delivered true b peer_id a.clipboard in
      (
        payload,
        poll_new a some_text new_text,
        ap (λ (m : Machine). m.clipboard) there,
        quiet_polls n (poll_machine a).0 (after_poll a),
        quiet_polls n (deliver true b payload) (rw there (inl refl)),
      )

  -- A text that arrives but cannot be written counts as set all the same: at the next poll the
  -- machine sends back the text that was in its clipboard, unless that is empty or has the same
  -- hash.
  pub failed_write_sends_back :
      (b : Machine) (id content : String)
      → b.clipboard ≢ ""
      → simple_hash b.clipboard ≢ simple_hash content
      → (poll_machine (
          deliver false b
            (record { origin_peer_id = id; content = ClipboardContent.text content }))).1
        ≡ some (record { origin_peer_id = peer_id; content = ClipboardContent.text b.clipboard })
  failed_write_sends_back b id content some_text other = rw (delivered false b id content) (
      poll_new
        (record {
          clipboard = b.clipboard;
          sync = record b.sync { shared_hash = simple_hash content };
        })
        some_text other)
