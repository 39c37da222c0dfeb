-- ===== src/Bitcoin.antt =====
-- The remote service BitcoinUtils that the program calls, as an interface: the client is generated
-- from bitcoin/bitcoin_utils.thrift. Every call names the port of its connection, may change the
-- world, may throw and may not return. All texts and numbers are byte strings.
use zkfactorization.Prelude.{ℕ, List, Bool}
use zkfactorization.Prelude.Result.{Run}

-- `TransactionAndScripts` and `IntegerPair`
pub record TransactionAndScripts : Type 0 where
  pub tx : List ℕ
  pub original_script : List ℕ
  pub script : List ℕ

pub record IntegerPair : Type 0 where
  pub r : List ℕ
  pub s : List ℕ

pub record BitcoinUtils : Type 1 where
  pub World : Type 0
  pub fresh_address : ℕ → Run World (List ℕ)
  -- coordinates x and y of the keys, and the value
  pub create_send : ℕ → List (List ℕ) → List (List ℕ) → ℕ → Run World TransactionAndScripts
  -- a transaction, the coordinates and the destination
  pub create_send_transaction_to_address :
      ℕ → List ℕ → List (List ℕ) → List (List ℕ) → List ℕ → Run World (List ℕ)
  -- a transaction, the coordinates and the script
  pub hash_for_signature : ℕ → List ℕ → List (List ℕ) → List (List ℕ) → List ℕ → Run World (List ℕ)
  -- a transaction, the coordinates, the signatures' numbers r and s, and both scripts
  pub get_signed_transaction :
      ℕ
      → List ℕ
      → List (List ℕ)
      → List (List ℕ)
      → List (List ℕ)
      → List (List ℕ)
      → List ℕ
      → List ℕ
      → Run World (List ℕ)
  pub broadcast_transaction : ℕ → List ℕ → Run World Bool
  -- a transaction, the script, the coordinates and the value
  pub verify_transaction : ℕ → List ℕ → List ℕ → List (List ℕ) → List (List ℕ) → ℕ → Run World Bool
  -- a transaction or an address, and the depth
  pub wait_for_transaction : ℕ → List ℕ → ℕ → Run World Bool
  pub wait_for_transaction_by_output : ℕ → List ℕ → ℕ → Run World Bool
  -- an address and the number of signatures
  pub get_signatures : ℕ → List ℕ → ℕ → Run World (List IntegerPair)
  -- a transaction, its script, the secret key, the coordinates of the key and the number of keys
  pub redeem_transaction : ℕ → List ℕ → List ℕ → List ℕ → List ℕ → List ℕ → ℕ → Run World Bool

-- `SingleSeller::base_party` and `SingleBuyer::base_party`
abbrev pub seller_port : ℕ
seller_port = 9091

abbrev pub buyer_port : ℕ
buyer_port = 9092
