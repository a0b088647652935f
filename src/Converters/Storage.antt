-- ===== src/Converters/Storage.antt =====
-- temporalio/converter/_extstore.py: large payloads are kept by storage drivers, and references to
-- them take their place. What the drivers keep is a world `W`; `P` are payloads, `C` the data of a
-- claim, `X` what the code outside raises, and `R` the drivers. The metrics of the operations are left
-- out.
use sdk_python.Prelude.{
  ℕ, String, Bool, true, false, ◌&&◌, Option, none, some, List, [], ◌∷◌, length, ltb, string_eq, Eq,
  ◌==◌, if◌then◌else◌,
}
use sdk_python.Prelude.Int.{ℤ, pos, negsuc}
use sdk_python.Prelude.Result.{Result, ok, err}
use sdk_python.Prelude.Dict.{Dict, lookup, insert}
pub mod Stored

pub data StorageError (X : Type 0) : Type 0 where
  no_drivers negative_threshold no_selector : StorageError X
  same_name not_registered not_found : (name : String) → StorageError X
  wrong_length : (name : String) (given wanted : ℕ) → StorageError X
  not_serialized : (name : String) → StorageError X
  raised : X → StorageError X

-- `ExternalStorage`, once it is checked.
pub record Storage (R P X : Type 0) : Type 0 where
  pub drivers : List R
  pub driver_selector : Option (P → Result X (Option R))
  pub payload_size_threshold : ℕ
  pub driver_map : Dict String R

-- A reference: the name of the driver and the claim's data.
pub record Reference (C : Type 0) : Type 0 where
  pub driver_name : String
  pub claim_data : C

-- What the drivers, protobuf and the converters of references do. `to_payload` takes the size of the payload, which
-- the reference then carries; `from_proto` and `from_legacy` give none for what is no reference.
pub record StorageLibrary (R W P C X : Type 0) : Type 0 where
  pub name : R → String
  pub store : R → List P → W → Result X (List C) × W
  pub retrieve : R → List C → W → Result X (List P)
  pub byte_size : P → ℕ
  pub encoding : P → String
  pub message_type : P → String
  pub to_payload : Reference C → (size : ℕ) → Result X (Option P)
  pub from_proto : P → Result X (Option (Reference C))
  pub from_legacy : P → Result X (Option (Reference C))

module _ {R W P C X : Type 0} (lib : StorageLibrary R W P C X) where
  unfoldable pub add_drivers : List R → Dict String R → Result (StorageError X) (Dict String R)
  unfolding lookup insert
  add_drivers [] d = ok d
  add_drivers (driver ∷ drivers) d =
      let rest = add_drivers drivers (insert (lib.name driver) driver d) in
      elim (lookup (lib.name driver) d) [ some _ ↦ err (same_name (lib.name driver)) | none ↦ rest ]

  unfoldable pub several : List R → Bool
  several (_ ∷ _ ∷ _) = true
  several _ = false

  -- `__post_init__`
  unfoldable pub make_storage :
      List R → Option (P → Result X (Option R)) → ℤ → Result (StorageError X) (Storage R P X)
  unfolding add_drivers several
  make_storage [] selector threshold = err no_drivers
  make_storage (driver ∷ drivers) selector (negsuc _) = err negative_threshold
  make_storage (driver ∷ drivers) selector (pos threshold) =
      if several (driver ∷ drivers) && (elim selector [ none ↦ true | some _ ↦ false ])
      then err no_selector
      else elim (add_drivers (driver ∷ drivers) []) [
        | err e ↦ err e
        | ok d ↦ ok (record {
          drivers = driver ∷ drivers;
          driver_selector = selector;
          payload_size_threshold = threshold;
          driver_map = d;
        })
      ]

module _ {R W P C X : Type 0} ⦃same : Eq R⦄ (lib : StorageLibrary R W P C X)
    (st : Storage R P X) where
  -- The driver that the selector gives must be the one that is known by its name.
  unfoldable pub registered : R → Result (StorageError X) (Option R)
  unfolding lookup
  registered driver = elim (lookup (lib.name driver) st.driver_map) [
    | none ↦ err (not_registered (lib.name driver))
    | some known ↦
        if known == driver then ok (some driver) else err (not_registered (lib.name driver))
  ]

  unfoldable pub first_driver : List R → Option R
  first_driver [] = none
  first_driver (driver ∷ _) = some driver

  unfoldable pub check_selected : Result X (Option R) → Result (StorageError X) (Option R)
  unfolding registered
  check_selected (err e) = err (raised e)
  check_selected (ok none) = ok none
  check_selected (ok (some driver)) = registered driver

  -- `_select_driver`
  unfoldable pub select_driver : P → Result (StorageError X) (Option R)
  unfolding check_selected first_driver
  select_driver p =
      if ltb (lib.byte_size p) st.payload_size_threshold then ok none else elim st.driver_selector [
        | none ↦ ok (first_driver st.drivers)
        | some selector ↦ check_selected (selector p)
      ]

  -- `_get_driver_by_name`
  unfoldable pub get_driver_by_name : String → Result (StorageError X) R
  unfolding lookup
  get_driver_by_name name = elim (lookup name st.driver_map) [
    | none ↦ err (not_found name)
    | some driver ↦ ok driver
  ]

  -- The payload that refers to a claim.
  unfoldable pub reference_payload : R → C → (size : ℕ) → Result (StorageError X) P
  reference_payload driver claim size =
      elim (lib.to_payload (record { driver_name = lib.name driver; claim_data = claim }) size) [
        | err e ↦ err (raised e)
        | ok none ↦ err (not_serialized (lib.name driver))
        | ok (some p) ↦ ok p
      ]

  -- `_validate_claim_length`, for one claim.
  unfoldable pub one_claim : R → P → List C → Result (StorageError X) P
  unfolding reference_payload
  one_claim driver p (claim ∷ []) = reference_payload driver claim (lib.byte_size p)
  one_claim driver p claims = err (wrong_length (lib.name driver) (length claims) 1)

  unfoldable pub store_with : R → P → Result X (List C) → Result (StorageError X) P
  unfolding one_claim
  store_with driver p (err e) = err (raised e)
  store_with driver p (ok claims) = one_claim driver p claims

  -- `_store_payload`
  unfoldable pub store_payload : P → W → Result (StorageError X) P × W
  unfolding select_driver store_with
  store_payload p w = elim (select_driver p) [
    | err e ↦ (err e, w)
    | ok none ↦ (ok p, w)
    | ok (some driver) ↦ let r = lib.store driver (p ∷ []) w in (store_with driver p r.0, r.1)
  ]

  -- `_decode_reference`
  unfoldable pub decode_reference : P → Result X (Option (Reference C))
  decode_reference p =
      if lib.encoding p == "json/external-storage-reference"
      then lib.from_legacy p
      else if lib.encoding p == "json/protobuf"
          && lib.message_type p == "temporal.api.sdk.v1.ExternalStorageReference"
      then lib.from_proto p
      else ok none

  unfoldable pub one_payload : String → Result X (List P) → Result (StorageError X) P
  one_payload name (err e) = err (raised e)
  one_payload name (ok (p ∷ [])) = ok p
  one_payload name (ok ps) = err (wrong_length name (length ps) 1)

  -- `_retrieve_payload`
  unfoldable pub retrieve_payload : P → W → Result (StorageError X) P
  unfolding decode_reference get_driver_by_name one_payload
  retrieve_payload p w = elim (decode_reference p) [
    | err e ↦ err (raised e)
    | ok none ↦ ok p
    | ok (some ref) ↦ (elim (get_driver_by_name ref.driver_name) [
      | err e ↦ err e
      | ok driver ↦ one_payload (lib.name driver) (lib.retrieve driver (ref.claim_data ∷ []) w)
    ])
  ]
