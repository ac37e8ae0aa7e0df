-- ===== src/Examples/Requests.antt =====
-- A request that times out, meets an overloaded server, and is then answered.
use ozint.Base.{false, nat_eq, if◌then◌else◌, arith, none, some, List, [], ◌∷◌}
use ozint.Fetch.Attempts.{max_body_bytes, Chunk, Sent, Network, read_capped_body}
use ozint.Fetch.Retries.{Reads, read_capped_body-Reads}

abbrev body : List Chunk
body = Chunk.chunk (123 ∷ []) ∷ Chunk.chunk (125 ∷ []) ∷ []

abbrev network : Network
network = record {
  is_cancelled = λ i. false;
  send = λ i.
      if nat_eq i 1
      then Sent.send_timeout
      else if nat_eq i 2
      then Sent.responded 503 "text/plain" [] (some "busy")
      else Sent.responded 200 "application/json" body none;
  elapsed_ms = λ i. 100;
}

-- A stream that breaks off after its first chunk.
abbrev broken : List Chunk
broken = Chunk.chunk (123 ∷ []) ∷ Chunk.stream_failed "reset" ∷ Chunk.chunk (125 ∷ []) ∷ []

read_capped_body-Reads_example :
    Reads max_body_bytes [] broken (read_capped_body max_body_bytes broken [])
read_capped_body-Reads_example =
    read_capped_body-Reads max_body_bytes broken [] (omega arith) (omega arith)
