-- ===== src/Server/Response.antt =====
-- The device's own copy of a response with a chain (src/apps/RSServerCommunication.cpp).
use labyrinthus.Base.{
  ℕ, ◌+◌, ◌%◌, ◌<◌, ◌≡◌, refl, Bytes, true, [], done, arith, length, length-append, append-nil,
}
use labyrinthus.Base.Words.{int_limit}
use labyrinthus.Object.Value.{Object}
use labyrinthus.Object.Encode.{encode}
use labyrinthus.Object.Access.{assign}
use labyrinthus.Object.Shape.{normalize, depth}
use labyrinthus.Object.Copies.{assign-normalize}
use labyrinthus.Defines.Table.{structs, nesting}
use labyrinthus.Defines.Objects.{address, get_chains_response, get_chains_response-IsSound}
use labyrinthus.Server.Peeling.{layer}

module _ (status : ℕ) (key : Bytes) (method t : ℕ) (name : Bytes) (u : ℕ) (a : Bytes) (m : ℕ)
    (p : Bytes) where
  abbrev pub response_of : Object
  response_of = get_chains_response status key method (address t name) (layer u a m p)

  pub response_bytes :
      length (encode response_of) ≡ length key + length name + length a + length p + 21
  unfolding encode
  response_bytes = simp (length-append, append-nil) (omega arith)

  abbrev pub cut_response : Object
  cut_response =
      get_chains_response (status % 256) key (method % 256) (address (t % 256) name)
        (layer (u % 256) a (m % 256) p)

  pub assigned :
      length (encode response_of) < int_limit
      → assign nesting structs
          (get_chains_response 0 [] 0 (address 0 []) (layer 0 [] 0 []))
          response_of
        ≡ done (cut_response, true)
  unfolding normalize depth
  assigned small =
      let whole = response_bytes in
      assign-normalize nesting structs (get_chains_response 0 [] 0 (address 0 []) (layer 0 [] 0 []))
        response_of
        (get_chains_response-IsSound 0 [] 0 0 [] 0 [] 0 [] (omega arith) (omega arith) (omega arith)
          (omega arith))
        (get_chains_response-IsSound status key method t name u a m p (omega (arith, small, whole))
          (omega (arith, small, whole)) (omega (arith, small, whole)) (omega (arith, small, whole)))
        refl (omega arith) (omega arith) small
