-- ===== src/Tests/Todos.antt =====
-- An entry created in a todo list with one entry, by a JSON that is the title.
use rotor_http.Prelude.{ℕ, ◌≡◌, refl, false, [], ◌∷◌, Bytes, codes, some, none, ret, arith}
use rotor_http.Buffer.{byte_buffer_laws}
use rotor_http.Message.State.{response_start, normal}
use rotor_http.Std.Utf8.{is_utf8_ascii}
use rotor_http.Server.Parser.Events.{bytes_read}
use rotor_http.Server.Parser.Head.{going}
use rotor_http.Server.Parser.{reading_body, buffer_fixed, intent_idle}
use rotor_http.Server.Protocol.{Env}
use rotor_http.Tests.Bodies.{logging}
use rotor_http.Tests.Connections.{holding}
use rotor_http.TodoBackend.Connection.{todo_server, bytes_read-served}
use rotor_http.TodoBackend.Handler.{Json, TodoBackend, Scope}
use rotor_http.TodoBackend.Requests.{Writes}
use rotor_http.TodoBackend.Store.{Todo, Context, WellFormed}
use rotor_http.Version.{http11}

abbrev titled : Bytes → Todo
titled title = record { url = none; title = title; completed = false; order = 0 }

abbrev titles : Json
titles = record {
  write_list = λ ts. some (codes "[]");
  write_todo = λ t. some t.title;
  write_found = λ t. some (codes "null");
  read_todo = λ s. some (titled s);
  read_patch = λ s. some (record { title = some s; completed = none; order = none });
  values = λ db. [];
}

abbrev titles_written : Writes titles
titles_written = record {
  writes_list = λ ts. (codes "[]", refl);
  writes_todo = λ t. (t.title, refl);
  writes_found = λ t. (codes "null", refl);
}

abbrev one_entry : Scope ℕ
one_entry = record {
  context = record { last_id = 7; database = (3, titled (codes "a")) ∷ [] };
  now = 0;
}

abbrev server : Env
server = todo_server logging (λ n. n) titles

bytes_read-served_example :
    (input : Bytes) × (output : Bytes) × (c : Context) × (bytes_read server
        (reading_body (record {
          machine = some TodoBackend.create;
          deadline = 7;
          response = response_start http11 normal false;
          progress = buffer_fixed 1;
          connection_close = false;
        }))
        1
        tt
        (holding (codes "bGET"))
        one_entry
      ≡ ret (
          going server
            (intent_idle server tt (record one_entry { context = c }))
            (record { input = input; output = output; peer = none })))
    × (input ≡ codes "GET")
    × WellFormed c
bytes_read-served_example =
    bytes_read-served logging byte_buffer_laws (λ n. n) titles titles_written TodoBackend.create
      (codes "b") (codes "GET") http11 false false false false 7 1 (holding (codes "bGET"))
      one_entry refl (is_utf8_ascii (codes "b") (omega arith, tt)) (titled (codes "b"), refl)
      (omega arith) (omega arith, tt)
