-- ===== src/Control/Tests.antt =====
-- Runs of the control protocol, and its theorems at a map of two receivers.
use netbench.Base.{◌≡◌, refl, none, List, [], ◌∷◌, ◌++◌, take, arith, replicate}
use netbench.Base.Results.{ok, err, not_enough_data}
use netbench.Control.{Bytes, PortMap, encode, decode, sent, serve, got, receive}
use netbench.Control.Roundtrip.{Fits, Distinct, decode-encode}
use netbench.Control.Truncated.{decode_cut}
use netbench.Control.Transfer.{serve_all, receive_closed}

-- Port 10001 with a name of three bytes, and port 10002 with none.
abbrev two : PortMap
two = (10001, 101 ∷ 112 ∷ 111 ∷ []) ∷ (10002, []) ∷ []

encode-two :
    encode two
    ≡ 2 ∷ 0 ∷ 0 ∷ 0 ∷ 17 ∷ 39 ∷ 3 ∷ 0 ∷ 0 ∷ 0 ∷ 101 ∷ 112 ∷ 111 ∷ 18 ∷ 39 ∷ 0 ∷ 0 ∷ 0 ∷ 0 ∷ []
unfolding encode
encode-two = refl

two-Fits : Fits two
two-Fits = omega arith

two-Distinct : Distinct two
two-Distinct = (refl, (refl, tt))

decode-encode_example : decode (encode two ++ (9 ∷ [])) ≡ ok two
decode-encode_example = decode-encode two (9 ∷ []) two-Fits two-Distinct (omega arith)

decode_cut_example : decode (take 12 (encode two)) ≡ err not_enough_data
unfolding encode
decode_cut_example = decode_cut two 12 two-Fits (omega arith) (omega arith)

serve_all_example : serve (sent 1 ∷ sent 2 ∷ []) (7 ∷ 8 ∷ []) ≡ (7 ∷ 8 ∷ [], [])
serve_all_example =
    serve_all (sent 1 ∷ sent 2 ∷ []) (7 ∷ 8 ∷ []) (omega arith) (omega arith) (omega arith)

-- The body in two pieces.
abbrev cut_in_two : List Bytes
cut_in_two =
    (2 ∷ 0 ∷ 0 ∷ 0 ∷ 17 ∷ 39 ∷ 3 ∷ [])
    ∷ (0 ∷ 0 ∷ 0 ∷ 101 ∷ 112 ∷ 111 ∷ 18 ∷ 39 ∷ 0 ∷ 0 ∷ 0 ∷ 0 ∷ [])
    ∷ []

receive_closed_example : receive (replicate 5 (got [])) 3 (1 ∷ []) ≡ none
receive_closed_example = receive_closed 5 3 (1 ∷ []) (omega arith)
