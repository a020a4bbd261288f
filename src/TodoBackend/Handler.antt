-- ===== src/TodoBackend/Handler.antt =====
-- examples/todobackend.rs: the handler (`impl Server for TodoBackend`).
use rotor_http.Prelude.{
  ℕ, if◌then◌else◌, List, [], ◌∷◌, Bytes, codes, length, take, drop, Option, none, some, Outcome,
  ret, panic, ◌>>=◌, ◌>>◌, unwrap, unwrap_ok, assert, ok, err,
}
use rotor_http.Buffer.{BufferOps}
use rotor_http.Message.{Message}
use rotor_http.RecvMode.{RecvMode, buffered}
use rotor_http.Server.Protocol.{Head}
use rotor_http.Server.Response.{status, add_header, add_length, done_headers, write_body, done}
use rotor_http.Std.Ascii.{bytes_eq}
use rotor_http.Std.Radix.{parse_u64}
use rotor_http.Std.Utf8.{is_utf8}
use rotor_http.TodoBackend.Store.{Todo, TodoPatch, Context, set_url, patch, fresh_id, put}
use rotor_http.TodoBackend.Store

-- serde_json on the types of the program, and the order of `HashMap::values`; `none` is an error.
pub record Json : Type 0 where
  pub write_list : List Todo → Option Bytes
  pub write_todo : Todo → Option Bytes
  pub write_found : Option Todo → Option Bytes
  pub read_todo : Bytes → Option Todo
  pub read_patch : Bytes → Option TodoPatch
  pub values : List (ℕ × Todo) → List Todo

pub data TodoBackend : Type 0 where
  list create clear preflight not_found : TodoBackend
  get patch_entry delete : ℕ → TodoBackend
  method_not_allowed : Bytes → TodoBackend

-- The context and the clock of a scope.
pub record Scope (Time : Type 0) : Type 0 where
  pub context : Context
  pub now : Time

-- The actions on the path `/`.
unfoldable pub list_action : Bytes → TodoBackend
list_action method =
    if bytes_eq method (codes "GET")
    then list
    else if bytes_eq method (codes "POST")
    then create
    else if bytes_eq method (codes "DELETE")
    then clear
    else method_not_allowed (codes "GET, POST, DELETE")

-- The actions on an entry.
unfoldable pub entry_action : Bytes → ℕ → TodoBackend
entry_action method id =
    if bytes_eq method (codes "GET")
    then get id
    else if bytes_eq method (codes "PATCH")
    then patch_entry id
    else if bytes_eq method (codes "DELETE")
    then delete id
    else method_not_allowed (codes "GET, PATCH, DELETE")

-- `parse().unwrap()`
abbrev pub parsed_id : Bytes → Outcome ℕ
parsed_id s = elim (parse_u64 s) [ ok n ↦ ret n | err x ↦ panic ]

unfoldable pub action : Bytes → Bytes → Outcome TodoBackend
action method path =
    if bytes_eq method (codes "OPTIONS")
    then ret preflight
    else if bytes_eq path (codes "/")
    then ret (list_action method)
    else if bytes_eq (take 6 path) (codes "/todo/")
    then (do id ← parsed_id (drop 6 path); ret (entry_action method id))
    else ret not_found

-- `add_header(name, value).unwrap()`, one after the other.
unfoldable pub add_headers :
    {Buf : Type 0} → BufferOps Buf → List (Bytes × Bytes) → Message Buf → Outcome (Message Buf)
add_headers ops [] m = ret m
add_headers ops ((name, value) ∷ hs) m = do
  (r, m') ← add_header ops name value m
  unwrap_ok r
  add_headers ops hs m'

-- A body of its length, behind the status and the headers.
unfoldable pub send :
    {Buf : Type 0}
    → BufferOps Buf
    → ℕ
    → Bytes
    → List (Bytes × Bytes)
    → Bytes
    → Message Buf
    → Outcome (Message Buf)
unfolding add_headers
send ops code reason hs body m = do
  m₁ ← status ops code reason m
  (r₂, m₂) ← add_length ops (length body) m₁
  unwrap_ok r₂
  m₃ ← add_headers ops hs m₂
  (r₄, m₄) ← done_headers ops m₃
  _expects ← unwrap_ok r₄
  m₅ ← write_body ops body m₄
  done ops m₅

abbrev pub allow_origin : Bytes × Bytes
allow_origin = (codes "Access-Control-Allow-Origin", codes "*")

abbrev pub content_type : Bytes → Bytes × Bytes
content_type value = (codes "Content-Type", value)

abbrev pub preflight_headers : List (Bytes × Bytes)
preflight_headers =
    allow_origin
    ∷ (codes "Access-Control-Allow-Methods", codes "GET, POST, DELETE, PATCH")
    ∷ (codes "Access-Control-Allow-Headers", codes "Content-Type")
    ∷ (codes "Access-Control-Max-Age", codes "60")
    ∷ []

-- `Preflight`: no body is written.
unfoldable pub send_preflight : {Buf : Type 0} → BufferOps Buf → Message Buf → Outcome (Message Buf)
unfolding add_headers
send_preflight ops m = do
  m₁ ← status ops 200 (codes "OK") m
  (r₂, m₂) ← add_length ops 0 m₁
  unwrap_ok r₂
  m₃ ← add_headers ops preflight_headers m₂
  (r₄, m₄) ← done_headers ops m₃
  _expects ← unwrap_ok r₄
  done ops m₄

-- Status, reason and body.
abbrev pub Answer : Type 0
Answer = ℕ × Bytes × Bytes

module _ (json : Json) where
  -- `Patch(id)`, with the entry that was found.
  unfoldable pub patch_found : ℕ → TodoPatch → Context → Option Todo → Outcome (Answer × Context)
  patch_found id p c none = ret ((404, codes "Not found", codes "{}"), c)
  patch_found id p c (some todo) =
      let todo' = patch p todo in
      do body ← unwrap (json.write_todo todo'); ret ((200, codes "OK", body), put id todo' c)

  unfoldable pub list_all : Context → Outcome (Answer × Context)
  list_all c = do
    body ← unwrap (json.write_list (json.values c.database))
    ret ((200, codes "OK", body), c)

  unfoldable pub create_entry : Bytes → Context → Outcome (Answer × Context)
  create_entry text c = do
    todo ← unwrap (json.read_todo text)
    (id, c₁) ← fresh_id c
    body ← unwrap (json.write_todo (set_url id todo))
    c₂ ← Store.create id (set_url id todo) c₁
    ret ((201, codes "Created", body), c₂)

  unfoldable pub get_entry : ℕ → Context → Outcome (Answer × Context)
  get_entry id c = do
    body ← unwrap (json.write_found (Store.get id c))
    ret ((200, codes "OK", body), c)

  unfoldable pub update_entry : ℕ → Bytes → Context → Outcome (Answer × Context)
  unfolding patch_found
  update_entry id text c = do p ← unwrap (json.read_patch text); patch_found id p c (Store.get id c)

module _ {Buf Time : Type 0} (ops : BufferOps Buf) (json : Json) (deadline : Time → Time) where
  -- The end of `request_received`.
  unfoldable pub send_json : Answer × Context → Message Buf → Outcome (Message Buf × Context)
  unfolding send
  send_json ((code, reason, body), c) m = do
    m' ← send ops code reason (allow_origin ∷ content_type (codes "application/json") ∷ []) body m
    ret (m', c)

  -- The match on the action.
  unfoldable pub answer :
      TodoBackend → Bytes → Message Buf → Context → Outcome (Message Buf × Context)
  unfolding list_all create_entry get_entry update_entry send_json send_preflight
  answer list text m c = do r ← list_all json c; send_json r m
  answer create text m c = do r ← create_entry json text c; send_json r m
  answer clear text m c = send_json ((200, codes "OK", codes "[]"), Store.clear c) m
  answer (get id) text m c = do r ← get_entry json id c; send_json r m
  answer (patch_entry id) text m c = do r ← update_entry json id text c; send_json r m
  answer (delete id) text m c = send_json ((200, codes "OK", codes "{}"), Store.delete id c) m
  answer preflight text m c = do m' ← send_preflight ops m; ret (m', c)
  answer (method_not_allowed methods) text m c = do
    m' ←
        send ops 405 (codes "Method Not Allowed")
          (allow_origin ∷ content_type (codes "text/plain") ∷ (codes "Allow", methods) ∷ [])
          (codes "Method Not Allowed") m
    ret (m', c)
  answer not_found text m c = do
    m' ←
        send ops 404 (codes "Not Found") (allow_origin ∷ content_type (codes "text/plain") ∷ [])
          (codes "Not Found") m
    ret (m', c)

  unfoldable pub headers_received :
      {Addr : Type 0}
      → Head Addr
      → Message Buf
      → Scope Time
      → Outcome (Option (TodoBackend × RecvMode × Time) × Message Buf × Scope Time)
  unfolding action
  headers_received request m scope = do
    todo ← action request.method request.path
    ret (some (todo, buffered 1024, deadline scope.now), m, scope)

  unfoldable pub request_received :
      TodoBackend
      → Bytes
      → Message Buf
      → Scope Time
      → Outcome (Option TodoBackend × Message Buf × Scope Time)
  unfolding answer
  request_received todo data_read m scope = do
    assert (is_utf8 data_read)
    (m', c) ← answer todo data_read m scope.context
    ret (none, m', record scope { context = c })
