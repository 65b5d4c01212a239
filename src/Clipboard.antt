-- ===== src/Clipboard.antt =====
-- crates/kmflow-daemon/src/clipboard.rs: the clipboard of one machine, polled for changes and set
-- from the peer. The hash of a text, the clipboard tools and `from_utf8_lossy` are parameters.
pub mod Sync
use Prim.Native.String.{String}
use kmflow.Prelude.{
  Bool, List, Option, [], false, if◌then◌else◌, none, not, some, true, ℕ, ◌&&◌, ◌++◌, ◌∷◌,
}
use kmflow.Prelude.Eq.{string_eq, nat_eq, ◌==◌}
use kmflow.Text.{ascii, contains_text, decimal, starts_with}
use kmflow.Proto.{ClipboardContent, ClipboardPayload, file_uri, image}

-- What the two tasks of `start_sync` share, and what the poller remembers.
pub record SyncState : Type 0 where
  pub shared_hash : ℕ
  pub error_logged : Bool

abbrev pub initial_sync : SyncState
initial_sync = record { shared_hash = 0; error_logged = false }

module _ (simple_hash : String → ℕ) (peer_id : String) where
  unfoldable pub on_content : SyncState → String → SyncState × Option ClipboardPayload
  on_content s content =
      if not (simple_hash content == s.shared_hash) && not (content == "")
      then (
        record s { shared_hash = simple_hash content },
        some (record { origin_peer_id = peer_id; content = ClipboardContent.text content }),
      )
      else (s, none)

  -- One turn of the poller: what was read, if that worked.
  unfoldable pub poll : SyncState → Option String → SyncState × Option ClipboardPayload
  unfolding on_content
  poll s none = (record s { error_logged = true }, none)
  poll s (some content) = on_content (record s { error_logged = false }) content

  -- A payload from the peer: the text to set, if there is one.
  unfoldable pub receive : SyncState → ClipboardPayload → SyncState × Option String
  receive s payload = elim payload.content [
    | ClipboardContent.text content ↦ (record s { shared_hash = simple_hash content }, some content)
    | image mime bytes ↦ (s, none)
    | file_uri uris ↦ (s, none)
  ]

-- The run of a tool: it is missing (or fails to start), fails, or succeeds with an output.
pub data ToolRun : Type 0 where
  missing failed : ToolRun
  succeeded : List ℕ → ToolRun

-- The first tool that succeeds gives the text; if none does the text is empty.
unfoldable pub read_clipboard : (List ℕ → String) → List ToolRun → String
read_clipboard from_utf8_lossy [] = ""
read_clipboard from_utf8_lossy (succeeded stdout ∷ runs) = from_utf8_lossy stdout
read_clipboard from_utf8_lossy (_ ∷ runs) = read_clipboard from_utf8_lossy runs

-- Whether one of the tools took the text.
unfoldable pub write_clipboard : List ToolRun → Bool
write_clipboard [] = false
write_clipboard (succeeded stdout ∷ runs) = true
write_clipboard (_ ∷ runs) = write_clipboard runs

-- An entry of the runtime directory: its name, and whether it is known to be a socket.
unfoldable pub is_wayland_socket : List ℕ × Bool → Bool
is_wayland_socket (name, is_socket) =
    starts_with name (ascii "wayland-")
    && not (contains_text name (ascii "lock"))
    && not (contains_text name (ascii "renderD"))
    && is_socket

unfoldable pub wayland_socket : List (List ℕ × Bool) → Option (List ℕ)
unfolding is_wayland_socket
wayland_socket [] = none
wayland_socket ((name, is_socket) ∷ entries) =
    let rest = wayland_socket entries in
    if is_wayland_socket (name, is_socket) then some name else rest

-- The environment that is added for the tools. The arguments: XDG_RUNTIME_DIR, the user id, whether
-- the runtime directory exists, WAYLAND_DISPLAY, the entries of the directory.
unfoldable pub runtime_dir : Option (List ℕ) → ℕ → List ℕ
runtime_dir none uid = ascii "/run/user/" ++ decimal uid
runtime_dir (some dir) uid = dir

unfoldable pub runtime_env : Option (List ℕ) → ℕ → Bool → List (List ℕ × List ℕ)
unfolding runtime_dir
runtime_env none uid is_dir =
    if is_dir then (ascii "XDG_RUNTIME_DIR", runtime_dir none uid) ∷ [] else []
runtime_env (some dir) uid is_dir = []

unfoldable pub display_env : Option (List ℕ) → List (List ℕ × Bool) → List (List ℕ × List ℕ)
unfolding wayland_socket
display_env (some (c ∷ display)) entries = []
display_env _ entries = elim (wayland_socket entries) [
  | none ↦ []
  | some name ↦ (ascii "WAYLAND_DISPLAY", name) ∷ []
]

unfoldable pub wayland_env :
    Option (List ℕ) → ℕ → Bool → Option (List ℕ) → List (List ℕ × Bool) → List (List ℕ × List ℕ)
unfolding runtime_env display_env
wayland_env xdg_runtime_dir uid is_dir display entries =
    runtime_env xdg_runtime_dir uid is_dir ++ display_env display entries
