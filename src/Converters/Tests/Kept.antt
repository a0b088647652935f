-- ===== src/Converters/Tests/Kept.antt =====
-- The theorem on temporalio/converter/_extstore.py at a concrete input.
use sdk_python.Prelude.{
  ◌≡◌, refl, ℕ, zero, suc, String, none, some, List, [], ◌∷◌, string_eq, nat_eq, arith, Option,
}
use sdk_python.Prelude.Int.{pos}
use sdk_python.Prelude.Result.{Result, ok, err}
use sdk_python.Prelude.Dict.{lookup, insert}
use sdk_python.Converters.Storage.{
  Storage, Reference, StorageLibrary, make_storage, store_payload, retrieve_payload,
  decode_reference,
}
use sdk_python.Converters.Storage.Stored.{StorageLaws, retrieve_payload-store_payload}

-- A payload of some size, or a reference. A claim is the size, and the world counts what is stored.
data Content : Type 0 where
  plain : (size : ℕ) → Content
  refers : (driver_name : String) (claim : ℕ) → Content

abbrev driver_name : ℕ → String
driver_name zero = "s3"
driver_name (suc _) = "gcs"

abbrev keep : ℕ → List Content → ℕ → Result String (List ℕ) × ℕ
keep driver (plain size ∷ []) w = (ok (size ∷ []), suc w)
keep driver _ w = (err "not kept", w)

abbrev give : ℕ → List ℕ → ℕ → Result String (List Content)
give driver (size ∷ []) w = ok (plain size ∷ [])
give driver _ w = err "not there"

abbrev size_of : Content → ℕ
size_of (plain size) = size
size_of (refers _ _) = 1

abbrev encoding_of : Content → String
encoding_of (plain _) = "binary/plain"
encoding_of (refers _ _) = "json/protobuf"

abbrev type_of : Content → String
type_of (plain _) = ""
type_of (refers _ _) = "temporal.api.sdk.v1.ExternalStorageReference"

abbrev read_reference : Content → Result String (Option (Reference ℕ))
read_reference (plain _) = ok none
read_reference (refers name claim) = ok (some (record { driver_name = name; claim_data = claim }))

abbrev counting : StorageLibrary ℕ ℕ Content ℕ String
counting = record {
  name = driver_name;
  store = keep;
  retrieve = give;
  byte_size = size_of;
  encoding = encoding_of;
  message_type = type_of;
  to_payload = λ ref size. ok (some (refers ref.driver_name ref.claim_data));
  from_proto = read_reference;
  from_legacy = λ p. err "no legacy reference";
}

counting_keeps :
    (r : ℕ) (p : Content) (w v c : ℕ)
    → keep r (p ∷ []) w ≡ (ok (c ∷ []), v)
    → give r (c ∷ []) v ≡ ok (p ∷ [])
counting_keeps r (plain size) w v c h = ground arith
counting_keeps r (refers name claim) w v c h = absurd (ground arith)

counting_laws : StorageLaws counting
counting_laws = record {
  keeps = counting_keeps;
  encodes = λ ref size q h. ground arith;
  typed = λ ref size q h. ground arith;
  reads = λ ref size q h. ground arith;
}

abbrev two_drivers : Storage ℕ Content String
two_drivers = record {
  drivers = 0 ∷ 1 ∷ [];
  driver_selector = some (λ p. ok (some 1));
  payload_size_threshold = 10;
  driver_map = ("s3", 0) ∷ ("gcs", 1) ∷ [];
}

retrieve_payload-store_payload_example :
    retrieve_payload counting two_drivers (refers "gcs" 20) 1 ≡ ok (plain 20)
unfolding string_eq nat_eq lookup insert make_storage store_payload decode_reference
retrieve_payload-store_payload_example =
    retrieve_payload-store_payload counting (0 ∷ 1 ∷ []) (some (λ p. ok (some 1))) (pos 10)
      two_drivers (plain 20) (refers "gcs" 20) 0 1 counting_laws refl refl refl
