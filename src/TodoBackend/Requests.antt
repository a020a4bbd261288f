-- ===== src/TodoBackend/Requests.antt =====
-- examples/todobackend.rs: a request to the handler, from its body to the answer.
use rotor_http.Prelude.{
  ℕ, ◌+◌, ◌^◌, ◌<◌, ◌≡◌, refl, Bool, true, false, ◌==◌, List, [], ◌∷◌, Bytes, codes, Option, none,
  some, Outcome, ret, ◌>>=◌, add_u64_fits,
}
use rotor_http.Buffer.{BufferOps}
use rotor_http.Message.{Message, is_bodyless_code}
use rotor_http.Message.State.{MessageState}
use rotor_http.Server.Response.ErrorPage.{unanswered}
use rotor_http.Std.Ascii.{eq_ignore_ascii_case, to_ascii_lowercase}
use rotor_http.Std.Utf8.{is_utf8}
use rotor_http.TodoBackend.Answers.{send-Ended, send_preflight-Ended}
use rotor_http.TodoBackend.Handler.{
  Json, TodoBackend, list, create, clear, preflight, not_found, get, patch_entry, delete,
  method_not_allowed, Scope, allow_origin, content_type, patch_found, list_all, create_entry,
  get_entry, update_entry, send_json, answer, request_received,
}
use rotor_http.TodoBackend.Store.{
  Todo, TodoPatch, Context, WellFormed, WellFormed-delete, WellFormed-put, WellFormed-clear,
  WellFormed-grown, create-grown, grown, set_url, patch, put, fresh_id,
}
use rotor_http.TodoBackend.Store
use rotor_http.Version.{Version}

-- serde_json writes every value of the program's types.
pub record Writes (json : Json) : Type 0 where
  pub writes_list : (ts : List Todo) → (s : Bytes) × (json.write_list ts ≡ some s)
  pub writes_todo : (t : Todo) → (s : Bytes) × (json.write_todo t ≡ some s)
  pub writes_found : (t : Option Todo) → (s : Bytes) × (json.write_found t ≡ some s)

-- The body is what the action reads.
abbrev pub Readable : Json → TodoBackend → Bytes → Type 0
Readable json create text = (t : Todo) × (json.read_todo text ≡ some t)
Readable json (patch_entry id) text = (p : TodoPatch) × (json.read_patch text ≡ some p)
Readable json _ text = Unit

module _ {Buf Time : Type 0} (ops : BufferOps Buf) (json : Json) (deadline : Time → Time)
    (writes : Writes json) where
  -- The response is complete and the context well-formed.
  abbrev Answered : Outcome (Message Buf × Context) → Type 0
  Answered o = (b : Buf) × (c : Context) × (o ≡ ret ((b, MessageState.done), c)) × WellFormed c

  Answered-send_json :
      (code : ℕ) (reason body : Bytes) (c : Context) (v : Version) (continued is_head close : Bool)
      (b : Buf)
      → (code == 100) ≡ false
      → is_bodyless_code code ≡ false
      → WellFormed c
      → Answered (
          send_json ops json deadline
            ((code, reason, body), c)
            (b, unanswered v continued is_head close))
  unfolding send_json eq_ignore_ascii_case to_ascii_lowercase
  Answered-send_json code reason body c v continued is_head close b h k well =
      let (b', sent) =
        send-Ended ops code reason (allow_origin ∷ content_type (codes "application/json") ∷ [])
          body v continued is_head close b h k (refl, (refl, tt)) in
      (b', c, rw sent, well)

  Answered-patch_found :
      (id : ℕ) (p : TodoPatch) (c : Context) (found : Option Todo) (v : Version)
      (continued is_head close : Bool) (b : Buf)
      → WellFormed c
      → Answered (do
        r ← patch_found json id p c found
        send_json ops json deadline r (b, unanswered v continued is_head close))
  unfolding patch_found
  Answered-patch_found id p c none v continued is_head close b well =
      Answered-send_json 404 _ _ c v continued is_head close b refl refl well
  Answered-patch_found id p c (some todo) v continued is_head close b well =
      let (s, written) = writes.writes_todo (patch p todo) in
      rw written (
        Answered-send_json 200 _ s (put id (patch p todo) c) v continued is_head close b refl refl
          (WellFormed-put id (patch p todo) c well))

  Answered-answer :
      (todo : TodoBackend) (text : Bytes) (c : Context) (v : Version)
      (continued is_head close : Bool) (b : Buf)
      → Readable json todo text
      → c.last_id + 1 < 2 ^ 64
      → WellFormed c
      → Answered (answer ops json deadline todo text (b, unanswered v continued is_head close) c)
  unfolding answer list_all create_entry get_entry update_entry fresh_id eq_ignore_ascii_case
      to_ascii_lowercase
  Answered-answer list text c v continued is_head close b reads word well =
      let (s, written) = writes.writes_list (json.values c.database) in
      rw written (Answered-send_json 200 _ s c v continued is_head close b refl refl well)
  Answered-answer create text c v continued is_head close b (t, reads) word well =
      let new = set_url (c.last_id + 1) t in
      let (s, written) = writes.writes_todo new in
      rw (reads, add_u64_fits c.last_id 1 word, written, create-grown new c well)
        (Answered-send_json 201 _ s (grown new c) v continued is_head close b refl refl
          (WellFormed-grown new c well))
  Answered-answer clear text c v continued is_head close b reads word well =
      Answered-send_json 200 (codes "OK") (codes "[]") (Store.clear c) v continued is_head close b
        refl refl (WellFormed-clear c)
  Answered-answer (get id) text c v continued is_head close b reads word well =
      let (s, written) = writes.writes_found (Store.get id c) in
      rw written (Answered-send_json 200 _ s c v continued is_head close b refl refl well)
  Answered-answer (patch_entry id) text c v continued is_head close b (p, reads) word well =
      rw reads (Answered-patch_found id p c (Store.get id c) v continued is_head close b well)
  Answered-answer (delete id) text c v continued is_head close b reads word well =
      Answered-send_json 200 (codes "OK") (codes "{}") (Store.delete id c) v continued is_head close
        b refl refl (WellFormed-delete id c well)
  Answered-answer preflight text c v continued is_head close b reads word well =
      let (b', sent) = send_preflight-Ended ops v continued is_head close b in
      (b', c, rw sent, well)
  Answered-answer (method_not_allowed methods) text c v continued is_head close b reads word well =
      let (b', sent) =
        send-Ended ops 405 (codes "Method Not Allowed")
          (allow_origin ∷ content_type (codes "text/plain") ∷ (codes "Allow", methods) ∷ [])
          (codes "Method Not Allowed") v continued is_head close b refl refl
          (refl, (refl, (refl, tt))) in
      (b', c, rw sent, well)
  Answered-answer not_found text c v continued is_head close b reads word well =
      let (b', sent) =
        send-Ended ops 404 (codes "Not Found")
          (allow_origin ∷ content_type (codes "text/plain") ∷ []) (codes "Not Found") v continued
          is_head close b refl refl (refl, (refl, tt)) in
      (b', c, rw sent, well)

  -- The todo list answers every request it can read, and keeps its ids: on a response that has no
  -- status line yet, with a body that is UTF-8 and, to create or to patch an entry, the JSON of one,
  -- with ids left, and with a serde_json that writes every value, `request_received` does not panic,
  -- completes the response, and leaves a database in which each key stands once and none is above the
  -- last id, if it found one.
  pub request_received-WellFormed :
      (todo : TodoBackend) (text : Bytes) (v : Version) (continued is_head close : Bool) (b : Buf)
      (scope : Scope Time)
      → is_utf8 text ≡ true
      → Readable json todo text
      → scope.context.last_id + 1 < 2 ^ 64
      → WellFormed scope.context
      → (b' : Buf) × (c : Context) × (request_received ops json deadline todo text
            (b, unanswered v continued is_head close)
            scope
          ≡ ret (none, (b', MessageState.done), record scope { context = c }))
        × WellFormed c
  unfolding request_received
  request_received-WellFormed todo text v continued is_head close b scope utf8 reads word well =
      let (b', c, answers, well') =
        Answered-answer todo text scope.context v continued is_head close b reads word well in
      (b', c, rw (utf8, answers), well')
