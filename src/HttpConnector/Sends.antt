-- ===== src/HttpConnector/Sends.antt =====
-- `Send` of the connectors in cpp/jsonrpc/json-rpc-cxx/examples/conn.
use code_study_example.HttpConnector.{
  HttpResponse, in_memory_send, post_action, response_body, http_send,
}
use code_study_example.Shared.Texts.{Text}
use code_study_example.Shared.{◌≡◌, refl, ap, ◌∙◌, List, [], ◌∷◌, Option, some, map}

-- Requests in turn, with what `Send` makes of each.
abbrev pub send_all : {H R : Type 0} → (Text → H → R × H) → List Text → H → List R × H
send_all send [] h = ([], h)
send_all send (request ∷ requests) h =
    let (r, h') = send request h in let (rs, h'') = send_all send requests h' in (r ∷ rs, h'')

module _ {H : Type 0} (handle : H → Text → Text × H) where
  -- A network that carries every request to `PostAction` and its response back.
  abbrev pub Delivers : (Text → H → Option HttpResponse × H) → Type 0
  Delivers post =
      (request : Text) (h : H)
      → post request h ≡ (some (post_action handle request h).0, (post_action handle request h).1)

  http_send_lem :
      (post : Text → H → Option HttpResponse × H) (request : Text) (h : H)
      → Delivers post
      → http_send post request h
        ≡ (some (in_memory_send handle request h).0, (in_memory_send handle request h).1)
  unfolding http_send in_memory_send response_body post_action
  http_send_lem post request h d = rw (d request h) refl

  -- Over a network that carries requests and responses, HTTP makes no difference: whatever is
  -- sent, the client gets, without an exception, what the connector in memory gives, and the server
  -- is left as that leaves it.
  pub http_as_in_memory :
      (post : Text → H → Option HttpResponse × H) (requests : List Text) (h : H)
      → Delivers post
      → send_all (http_send post) requests h ≡ (
        map some (send_all (in_memory_send handle) requests h).0,
        (send_all (in_memory_send handle) requests h).1,
      )
  http_as_in_memory post [] h d = refl
  http_as_in_memory post (request ∷ requests) h d =
      let (r, h') = in_memory_send handle request h in
      ap
        (λ (p : Option Text × H). (
          p.0 ∷ (send_all (http_send post) requests p.1).0,
          (send_all (http_send post) requests p.1).1,
        ))
        (http_send_lem post request h d)
      ∙ ap (λ (p : List (Option Text) × H). (some r ∷ p.0, p.1))
          (http_as_in_memory post requests h' d)
