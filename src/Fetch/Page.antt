-- ===== src/Fetch/Page.antt =====
-- examples/client.rs: a page that is fetched, from the connection to its end.
use rotor_http.Prelude.{
  ℕ, ◌==◌, [], ◌≤◌, ◌+◌, ◌≡◌, refl, ◌∙◌, true, false, ◌++◌, append_assoc, arith, Bytes, length,
  length-append, drop_prefix, slice_middle, slice, some, none, ret, ◌>>=◌, List,
}
use rotor_http.Buffer.{BufferLaws}
use rotor_http.Client.Parser.Events.{
  create, bytes_flushed, new_task, bytes_read, head_read, read_head,
}
use rotor_http.Client.Parser.Head.{
  maybe_new_request, prepared, head_of, parse_headers, parsed_head, scanned_head, received,
}
use rotor_http.Client.Parser.Reading.{round, read_buffer_fixed, receive, after_round, read_body}
use rotor_http.Client.Parser.{
  Intent, Reply, read_headers, ReadHeaders, response, Response, buffer_fixed, flushing, intent,
  head_end, max_headers_size, start_body, body_expectation, finish,
}
use rotor_http.Client.Protocol.{Env}
use rotor_http.Client.Head.{fixed}
use rotor_http.Client.Session.{run, run-bytes_read, Incoming, Readable}
use rotor_http.Fetch.{
  UrlOps, Cli, Req, Scope, Printed, head_lines, body_lines, connection_idle, headers_received,
  response_received, print, fetching,
}
use rotor_http.Fetch.Sending.{request_text, prepare_request-done}
use rotor_http.Message.State.{MessageState}
use rotor_http.Message.{is_complete}
use rotor_http.Stream.{Delivery, Expectation}

abbrev pub page_lines : Incoming → List Printed
page_lines r =
    head_lines (head_of r.version r.code r.raw r.reason (fixed (length r.body), r.closes))
    ++ body_lines r.body

module _ (e : Env) (laws : BufferLaws e.ops) (seconds : ℕ → e.Duration) {Url : Type 0}
    (url_ops : UrlOps Url) (d : Delivery) where
  open e use {Buf, Time, ops}
  open ops use {contents, consume}
  open laws use {contents-consume}

  abbrev client : Env
  client = fetching e seconds url_ops

  -- The page was asked for.
  abbrev pub asked : Cli Url
  asked = record { seed = none }

  abbrev pub sent : Url → ReadHeaders (Req Url)
  sent url = record {
    machine = record { url = url };
    request = MessageState.done;
    is_head = some false;
  }

  -- The response is awaited.
  abbrev pub awaiting : Url → Time → Buf → Buf → Scope Time → Reply client
  awaiting url deadline inp out scope = (
    Intent.of asked (read_headers (sent url)) (Expectation.delimiter 0 head_end max_headers_size)
        deadline,
    record { input = inp; output = out },
    scope,
  )

  -- What the loop is left with: the lines are printed, and it is asked to stop.
  abbrev pub stopped : List Printed → Scope Time → Scope Time
  stopped lines scope = record scope { printed = scope.printed ++ lines; stops = true }

  requests :
      (url : Url) (path host : Bytes) (inp out : Buf) (scope : Scope Time)
      → url_ops.serialize_path url ≡ some path
      → url_ops.serialize_host url ≡ some host
      → (out' : Buf) × ((do
        (i, scope') ← create client url scope
        run client d 1 (i, record { input = inp; output = out }, scope'))
          ≡ ret (awaiting url (e.add_time scope.now (seconds 120)) inp out' scope))
        × (contents out' ≡ contents out ++ request_text path host)
  unfolding create run bytes_flushed intent connection_idle maybe_new_request prepared new_task
  requests url path host inp out scope p h =
      let (out', written, grown) =
        prepare_request-done url_ops ops laws url path host out scope p h in
      (out', rw written refl, grown)

  -- The head has been read.
  reading : Incoming → Url → Time → Response (Req Url) Time
  reading r url now = record {
    progress = buffer_fixed (length r.body);
    machine = record { url = url };
    deadline = e.add_time now (seconds 1000);
    request = MessageState.done;
  }

  abbrev head_printed : Incoming → Scope Time → Scope Time
  head_printed r scope =
      print (head_lines (head_of r.version r.code r.raw r.reason (fixed (length r.body), r.closes)))
        scope

  head_arrives :
      (r : Incoming) (q : Readable client d r) (url : Url) (inp out : Buf) (scope : Scope Time)
      (rest : Bytes)
      → contents inp ≡ r.text ++ rest
      → bytes_read client
          (read_headers (sent url))
          q.end
          asked
          (record { input = inp; output = out })
          scope
        ≡ ret (
          Intent.of asked (response (reading r url scope.now)) (Expectation.bytes (length r.body)) (
              e.min_time
                (e.add_time scope.now (seconds 1000))
                (e.add_time scope.now (seconds 120))),
          record { input = consume inp (length r.text); output = out },
          head_printed r scope,
        )
  unfolding bytes_read read_head head_read parse_headers parsed_head scanned_head received
      start_body intent body_expectation headers_received print reading
  head_arrives r q url inp out scope rest holds =
      let whole : slice 0 (q.end + 4) (r.text ++ rest) ≡ ret r.text =
        slice_middle 0 (q.end + 4) [] r.text rest refl (omega (arith, q.size)) in
      let same : (q.end + 4 == q.end + 4) ≡ true = ground arith in
      rw (holds, whole, q.reads, same, q.has_version, q.has_code, q.has_reason, q.scans, q.size)
        refl

  body_arrives :
      (r : Incoming) (url : Url) (now : Time) (inp out : Buf) (scope : Scope Time) (rest : Bytes)
      → contents inp ≡ r.body ++ rest
      → bytes_read client
          (response (reading r url now))
          (length r.body)
          asked
          (record { input = inp; output = out })
          scope
        ≡ ret (
          Intent.of asked
              (flushing (e.add_time scope.now (seconds 120)))
              (Expectation.flush 0)
              (e.add_time scope.now (seconds 120)),
          record { input = consume inp (length r.body); output = out },
          print (body_lines r.body) scope,
        )
  unfolding bytes_read read_body round read_buffer_fixed receive after_round finish is_complete
      intent response_received print reading
  body_arrives r url now inp out scope rest holds =
      rw (holds, slice_middle 0 (length r.body) [] r.body rest refl (omega arith)) refl

  responds :
      (r : Incoming) (q : Readable client d r) (url : Url) (deadline : Time) (inp out : Buf)
      (scope : Scope Time) (rest : Bytes)
      → contents inp ≡ r.text ++ (r.body ++ rest)
      → (inp' : Buf) × (run client d 3 (awaiting url deadline inp out scope)
          ≡ ret (Intent.done, record { input = inp'; output = out }, stopped (page_lines r) scope))
        × (contents inp' ≡ rest)
  unfolding run bytes_flushed new_task connection_idle maybe_new_request print
  responds r q url deadline inp out scope rest holds =
      let n = length r.text in
      let size = length-append r.text (r.body ++ rest) in
      let left : contents (consume inp n) ≡ r.body ++ rest =
        contents-consume inp n (rw holds (omega (arith, size)))
        ∙ rw holds (drop_prefix n r.text (r.body ++ rest) refl) in
      let size' = length-append r.body rest in
      let room : length r.body ≤ length (contents (consume inp n)) =
        rw left (omega (arith, size')) in
      (
        consume (consume inp n) (length r.body),
        run-bytes_read client d 2 q.end asked (read_headers (sent url))
              (Expectation.delimiter 0 head_end max_headers_size) deadline
              (record { input = inp; output = out }) scope _ tt (rw holds (q.ends (r.body ++ rest)))
              (head_arrives r q url inp out scope (r.body ++ rest) holds)
            ∙ run-bytes_read client d 1 (length r.body) asked (response (reading r url scope.now))
                (Expectation.bytes (length r.body)) _
                (record { input = consume inp n; output = out }) _ _ tt
                (d.deliver_bytes (length r.body) _ room)
                (body_arrives r url scope.now (consume inp n) out (head_printed r scope) rest left)
            ∙ rw
                (append_assoc scope.printed
                  (head_lines
                    (head_of r.version r.code r.raw r.reason (fixed (length r.body), r.closes)))
                  (body_lines r.body))
                refl,
        contents-consume (consume inp n) (length r.body) room
            ∙ rw left (drop_prefix (length r.body) r.body rest refl),
      )

  -- The example client fetches one page: from its start, the first flush of its connection leads to
  -- the wait for a response, with exactly one request written, GET of HTTP/1.1 for the path and the
  -- host of its URL. Then, whatever the clock and the output are, when a response has arrived whose
  -- head the transport delimits and httparse reads, and whose headers declare the length of its body,
  -- then three more events end the connection, with just the response taken from the input: the
  -- status, the headers and the body are printed, with a line end if the body has none, the loop is
  -- asked to stop, and nothing more is written.
  pub fetch-responds :
      (url : Url) (path host : Bytes) (inp out : Buf) (scope : Scope Time) (r : Incoming)
      (deadline : Time) (inp₁ out₁ : Buf) (later : Scope Time) (rest : Bytes)
      → url_ops.serialize_path url ≡ some path
      → url_ops.serialize_host url ≡ some host
      → Readable client d r
      → contents inp₁ ≡ r.text ++ (r.body ++ rest)
      → (out' : Buf) × (inp' : Buf) × ((do
        (i, scope') ← create client url scope
        run client d 1 (i, record { input = inp; output = out }, scope'))
          ≡ ret (awaiting url (e.add_time scope.now (seconds 120)) inp out' scope))
        × (contents out' ≡ contents out ++ request_text path host)
        × (run client d 3 (awaiting url deadline inp₁ out₁ later)
            ≡ ret
                (Intent.done, record { input = inp'; output = out₁ }, stopped (page_lines r) later))
        × (contents inp' ≡ rest)
  fetch-responds url path host inp out scope r deadline inp₁ out₁ later rest p h q holds =
      let (out', asks, grown) = requests url path host inp out scope p h in
      let (inp', ends, left) = responds r q url deadline inp₁ out₁ later rest holds in
      (out', inp', asks, grown, ends, left)
