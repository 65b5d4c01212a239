-- ===== src/Ipc/Exchange.antt =====
-- crates/kmflow-daemon/src/ipc.rs: one request and its response over the Unix socket, a line each;
-- and the task of crates/kmflow-daemon/src/lib.rs that serves it. serde_json is a codec.
use kmflow.Prelude.{
  All, List, Option, [], ap, arith, if◌then◌else◌, none, refl, some, ℕ, ◌++◌, ◌>>=◌, ◌∙◌, ◌∷◌, ◌≡◌,
  ◌≢◌,
}
use kmflow.Prelude.Eq.{nat_eq, ◌==◌}
use kmflow.Wire.{Codec}
use kmflow.Text.{ascii}
use kmflow.Ipc.{Answer, IpcRequest, IpcResponse}

-- `socket_path`, by XDG_RUNTIME_DIR.
unfoldable pub socket_path : Option (List ℕ) → List ℕ
socket_path none = ascii "/tmp" ++ ascii "/kmflow.sock"
socket_path (some dir) = dir ++ ascii "/kmflow.sock"

-- A line with its line feed, or what there is before the end.
unfoldable pub read_line : List ℕ → List ℕ
read_line [] = []
read_line (c ∷ stream) = let rest = read_line stream in if c == 10 then c ∷ [] else c ∷ rest

module _ {A : Type 0} (c : Codec A) where
  unfoldable pub write_line : A → Option (List ℕ)
  write_line a = do line ← c.encode a; some (line ++ 10 ∷ [])

  unfoldable pub read_message : List ℕ → Option A
  unfolding read_line
  read_message stream = c.decode (read_line stream)

-- The task of a connection: what was answered, if the request was understood, and what was written.
unfoldable pub serve :
    Codec IpcRequest → Codec IpcResponse → (IpcRequest → Answer) → List ℕ → Option Answer × List ℕ
unfolding write_line read_message
serve requests responses handle stream = elim (read_message requests stream) [
  | none ↦ (none, [])
  | some req ↦ elim (write_line responses (handle req).response) [
    | none ↦ (some (handle req), [])
    | some line ↦ (some (handle req), line)
  ]
]

-- IpcClient::send against that task: its result, and what the daemon answered to.
unfoldable pub send :
    Codec IpcRequest
    → Codec IpcResponse
    → (IpcRequest → Answer)
    → IpcRequest
    → Option IpcResponse × Option Answer
unfolding serve write_line read_message
send requests responses handle request = elim (write_line requests request) [
  | none ↦ (none, none)
  | some line ↦
      let (answer, reply) = serve requests responses handle line in
      (read_message responses reply, answer)
]

-- What serde_json does for a value without numbers that JSON lacks: its text has no line feed, and
-- reads back, also with one behind it.
pub record Carries {A : Type 0} (c : Codec A) (a : A) : Type 0 where
  pub line : List ℕ
  pub writes : c.encode a ≡ some line
  pub one_line : All (λ d. d ≢ 10) line
  pub reads : c.decode (line ++ 10 ∷ []) ≡ some a

read_line-append :
    (line rest : List ℕ) → All (λ d. d ≢ 10) line → read_line (line ++ 10 ∷ rest) ≡ line ++ 10 ∷ []
unfolding read_line
read_line-append [] rest h = refl
read_line-append (c ∷ line) rest h = ground (arith, h.0, read_line-append line rest h.1)

module _ {A : Type 0} (c : Codec A) (a : A) (k : Carries c a) where
  write_line-Carries : write_line c a ≡ some (k.line ++ 10 ∷ [])
  unfolding write_line
  write_line-Carries = rw (k.writes, ◌>>=◌) refl

  read_message-Carries : read_message c (k.line ++ 10 ∷ []) ≡ some a
  unfolding read_message
  read_message-Carries = ap c.decode (read_line-append k.line [] k.one_line) ∙ k.reads

-- If the request, and the response that the daemon gives to it, are carried by JSON, the client gets
-- that response, and the daemon has answered to that request and to no other.
pub send_lem :
    (requests : Codec IpcRequest) (responses : Codec IpcResponse) (handle : IpcRequest → Answer)
    (request : IpcRequest)
    → Carries requests request
    → Carries responses (handle request).response
    → send requests responses handle request
      ≡ (some (handle request).response, some (handle request))
unfolding send serve
send_lem requests responses handle request q r =
    rw
      (
        write_line-Carries requests request q,
        send,
        read_message-Carries requests request q,
        serve,
        write_line-Carries responses (handle request).response r,
        read_message-Carries responses (handle request).response r,
      )
      refl
