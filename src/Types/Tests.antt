-- ===== src/Types/Tests.antt =====
-- Concrete values.
use ttn.Base.{ℕ, ◌≡◌, refl, List, [], ◌∷◌, ◌++◌, ok, arith}
use ttn.Types.DataRate.{DataRate, parse_data_rate, to_string, parse_data_rate-to_string}
use ttn.Types.FixedBytes.{
  marshal_text, unmarshal_text, unmarshal_binary, unmarshal, dev_nonce, unmarshal-marshal,
}
use ttn.Types.DevAddr.{DevAddrPrefix}

abbrev sf9 : DataRate
sf9 = record { spreading_factor = 9; bandwidth = 125 }

parse_data_rate-to_string_example : parse_data_rate (to_string sf9 ++ 33 ∷ []) ≡ ok sf9
parse_data_rate-to_string_example = parse_data_rate-to_string sf9 (33 ∷ []) (ground arith)

unmarshal-marshal_example :
    (unmarshal_text dev_nonce (7 ∷ 8 ∷ []) (marshal_text dev_nonce (1 ∷ 255 ∷ []))
      ≡ (1 ∷ 255 ∷ [], ok tt))
    × (unmarshal_binary dev_nonce (7 ∷ 8 ∷ []) (1 ∷ 255 ∷ []) ≡ (1 ∷ 255 ∷ [], ok tt))
    × (unmarshal dev_nonce (7 ∷ 8 ∷ []) (1 ∷ 255 ∷ []) ≡ (1 ∷ 255 ∷ [], ok tt))
unmarshal-marshal_example =
    unmarshal-marshal dev_nonce (7 ∷ 8 ∷ []) (1 ∷ 255 ∷ []) ((omega arith, (omega arith, tt)), refl)
      refl

abbrev address : List ℕ
address = 1 ∷ 2 ∷ 3 ∷ 4 ∷ []

abbrev prefix : DevAddrPrefix
prefix = record { dev_addr = 38 ∷ 0 ∷ 16 ∷ 0 ∷ []; length = 20 }
