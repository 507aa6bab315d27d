-- ===== src/Ethereum/Tests.antt =====
-- `downcast_nonce` and `to_arrays` at concrete numbers.
use minter_hub.Crates.Examples.{plain_num}
use minter_hub.Error.{PeggyError}
use minter_hub.Ethereum.{Token, downcast_nonce, to_arrays}
use minter_hub.Ethereum.Arrays.{padded, to_arrays_lem}
use minter_hub.Ethereum.Nonces.{downcast_nonce_lem}
use minter_hub.Outcome.{ok}
use minter_hub.Prelude.{List, [], arith, none, ◌∷◌, ◌≡◌}
use minter_hub.Valset.{PeggySignature}

abbrev sigs : List PeggySignature
sigs =
    record { power = 3; eth_address = 5; v = 27; r = 11; s = 12 }
    ∷ record { power = 1; eth_address = 0; v = 0; r = 0; s = 0 }
    ∷ []

downcast_nonce_lem_example :
    downcast_nonce {E = PeggyError} plain_num 18446744073709551615 ≡ ok none
downcast_nonce_lem_example = downcast_nonce_lem plain_num 18446744073709551615

to_arrays_lem_example :
    to_arrays {E = PeggyError} plain_num sigs
    ≡ ok (record {
      addresses = 5 ∷ 0 ∷ [];
      powers = 3 ∷ 1 ∷ [];
      v = Token.dynamic_uint (27 ∷ 0 ∷ []);
      r = Token.dynamic_bytes (padded plain_num 11 ∷ padded plain_num 0 ∷ []);
      s = Token.dynamic_bytes (padded plain_num 12 ∷ padded plain_num 0 ∷ []);
    })
to_arrays_lem_example =
    to_arrays_lem plain_num sigs ((omega arith, omega arith), ((omega arith, omega arith), tt))
