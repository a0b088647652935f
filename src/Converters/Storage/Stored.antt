-- ===== src/Converters/Storage/Stored.antt =====
-- temporalio/converter/_extstore.py: a payload that is stored comes back.
use sdk_python.Prelude.{
  ◌≡◌, refl, sym, ap, ◌∙◌, subst, ℕ, String, Option, none, some, List, [], ◌∷◌, ltb, string_eq, Eq,
  ==_eq, ==_refl, arith, Option-cases, Bool-cases, inl, inr,
}
use sdk_python.Prelude.Int.{ℤ, pos, negsuc}
use sdk_python.Prelude.Result.{Result, ok, err, Result-cases}
use sdk_python.Prelude.Dict.{Dict, lookup, insert, lookup-insert}
use sdk_python.Converters.Storage.{
  StorageError, Storage, Reference, StorageLibrary, add_drivers, make_storage, registered,
  first_driver, check_selected, select_driver, get_driver_by_name, reference_payload, one_claim,
  store_with, store_payload, decode_reference, one_payload, retrieve_payload,
}

module _ {R W P C X : Type 0} ⦃same : Eq R⦄ (lib : StorageLibrary R W P C X) where
  -- The drivers already there stay under their names.
  add_drivers-keeps :
      (drivers : List R) (d m : Dict String R) (name : String) (driver : R)
      → add_drivers lib drivers d ≡ ok m
      → lookup name d ≡ some driver
      → lookup name m ≡ some driver
  unfolding add_drivers
  add_drivers-keeps [] d m name driver made held = ground arith
  add_drivers-keeps (r ∷ rs) d m name driver made held =
      elim (Option-cases (lookup (lib.name r) d)) [
        | inr (x, taken) ↦ absurd (ground arith)
        | inl free ↦
            add_drivers-keeps rs (insert (lib.name r) r d) m name driver (ground arith)
              (ground (arith, lookup-insert name (lib.name r) r d))
      ]

  add_drivers-first :
      (r : R) (rs : List R) (m : Dict String R)
      → add_drivers lib (r ∷ rs) [] ≡ ok m
      → lookup (lib.name r) m ≡ some r
  unfolding add_drivers
  add_drivers-first r rs m made =
      add_drivers-keeps rs (insert (lib.name r) r []) m (lib.name r) r made
        (lookup-insert (lib.name r) (lib.name r) r [] ∙ rw (==_refl (lib.name r)) refl)

  -- The driver that is used where there is no selector is known by its name.
  IsChecked : Storage R P X → Type 0
  IsChecked st =
      (driver : R)
      → first_driver lib st st.drivers ≡ some driver
      → lookup (lib.name driver) st.driver_map ≡ some driver

  make_storage-IsChecked :
      (drivers : List R) (selector : Option (P → Result X (Option R))) (threshold : ℤ)
      (st : Storage R P X)
      → make_storage lib drivers selector threshold ≡ ok st
      → IsChecked st
  unfolding IsChecked make_storage first_driver
  make_storage-IsChecked [] selector threshold st made driver first = absurd (ground arith)
  make_storage-IsChecked (r ∷ rs) selector (negsuc n) st made driver first = absurd (ground arith)
  make_storage-IsChecked (r ∷ rs) selector (pos n) st made driver first =
      elim (Result-cases (add_drivers lib (r ∷ rs) [])) [
        | inr (e, fails) ↦ absurd (ground arith)
        | inl (m, added) ↦ ground (arith, add_drivers-first r rs m added)
      ]

  registered-known :
      (st : Storage R P X) (driver d : R)
      → registered lib st driver ≡ ok (some d)
      → lookup (lib.name d) st.driver_map ≡ some d
  unfolding registered
  registered-known st driver d h = elim (Option-cases (lookup (lib.name driver) st.driver_map)) [
    | inl none_known ↦ absurd (ground arith)
    | inr (known, found) ↦ ground (arith, ==_eq known driver)
  ]

  check_selected-known :
      (st : Storage R P X) (r : Result X (Option R)) (d : R)
      → check_selected lib st r ≡ ok (some d)
      → lookup (lib.name d) st.driver_map ≡ some d
  unfolding check_selected
  check_selected-known st (err e) d h = absurd (ground arith)
  check_selected-known st (ok none) d h = absurd (ground arith)
  check_selected-known st (ok (some driver)) d h = registered-known st driver d h

  select_driver-known :
      (st : Storage R P X) (p : P) (d : R)
      → IsChecked st
      → select_driver lib st p ≡ ok (some d)
      → lookup (lib.name d) st.driver_map ≡ some d
  unfolding IsChecked select_driver
  select_driver-known st p d checked h =
      elim (Bool-cases (ltb (lib.byte_size p) st.payload_size_threshold)) [
        | inl small ↦ absurd (ground arith)
        | inr large ↦ (elim (Option-cases st.driver_selector) [
          | inl no_selector ↦ checked d (ground arith)
          | inr (selector, is) ↦ check_selected-known st (selector p) d (ground arith)
        ])
      ]

  -- A driver that is selected is the one that is known by its name.
  pub selected_known :
      (drivers : List R) (selector : Option (P → Result X (Option R))) (threshold : ℤ)
      (st : Storage R P X) (p : P) (d : R)
      → make_storage lib drivers selector threshold ≡ ok st
      → select_driver lib st p ≡ ok (some d)
      → lookup (lib.name d) st.driver_map ≡ some d
  selected_known drivers selector threshold st p d made h =
      select_driver-known st p d (make_storage-IsChecked drivers selector threshold st made) h

  -- What is asked of the drivers and of the references: a claim that was stored is retrieved from
  -- what the driver keeps since, and a payload made of a reference is read as that reference.
  pub record StorageLaws : Type 0 where
    pub keeps :
        (r : R) (p : P) (w v : W) (c : C)
        → lib.store r (p ∷ []) w ≡ (ok (c ∷ []), v)
        → lib.retrieve r (c ∷ []) v ≡ ok (p ∷ [])
    pub encodes :
        (ref : Reference C) (size : ℕ) (q : P)
        → lib.to_payload ref size ≡ ok (some q)
        → lib.encoding q ≡ "json/protobuf"
    pub typed :
        (ref : Reference C) (size : ℕ) (q : P)
        → lib.to_payload ref size ≡ ok (some q)
        → lib.message_type q ≡ "temporal.api.sdk.v1.ExternalStorageReference"
    pub reads :
        (ref : Reference C) (size : ℕ) (q : P)
        → lib.to_payload ref size ≡ ok (some q)
        → lib.from_proto q ≡ ok (some ref)

  err-ne-ok : (e : StorageError X) (q : P) → ◌≡◌ {A = Result (StorageError X) P} (err e) (ok q) → ⊥
  err-ne-ok e q h = ground arith

  ok-injective : (p q : P) → ◌≡◌ {A = Result (StorageError X) P} (ok p) (ok q) → p ≡ q
  ok-injective p q h = ground arith

  module _ (laws : StorageLaws) (st : Storage R P X) where
    decode_reference-to_payload :
        (ref : Reference C) (size : ℕ) (q : P)
        → lib.to_payload ref size ≡ ok (some q)
        → decode_reference lib st q ≡ ok (some ref)
    unfolding decode_reference string_eq
    decode_reference-to_payload ref size q h =
        rw (decode_reference, laws.encodes ref size q h, laws.typed ref size q h)
          (laws.reads ref size q h)

    retrieve_payload-plain :
        (p : P) (w : W) → decode_reference lib st p ≡ ok none → retrieve_payload lib st p w ≡ ok p
    unfolding retrieve_payload
    retrieve_payload-plain p w plain = rw (retrieve_payload, plain) refl

    retrieve_payload-reference :
        (driver : R) (ref : Reference C) (p q : P) (w : W)
        → decode_reference lib st q ≡ ok (some ref)
        → lookup ref.driver_name st.driver_map ≡ some driver
        → lib.retrieve driver (ref.claim_data ∷ []) w ≡ ok (p ∷ [])
        → retrieve_payload lib st q w ≡ ok p
    unfolding retrieve_payload get_driver_by_name one_payload
    retrieve_payload-reference driver ref p q w decoded known kept =
        rw (retrieve_payload, decoded, get_driver_by_name, known, kept, one_payload) refl

    reference_payload-made :
        (driver : R) (c : C) (size : ℕ) (q : P)
        → reference_payload lib st driver c size ≡ ok q
        → lib.to_payload (record { driver_name = lib.name driver; claim_data = c }) size
          ≡ ok (some q)
    unfolding reference_payload
    reference_payload-made driver c size q h =
        elim (Result-cases
          (lib.to_payload (record { driver_name = lib.name driver; claim_data = c }) size)) [
            | inr (e, fails) ↦ absurd (ground arith)
            | inl (none, is) ↦ absurd (ground arith)
            | inl (some x, is) ↦ ground arith
          ]

    store_with-made :
        (driver : R) (p q : P) (r : Result X (List C))
        → store_with lib st driver p r ≡ ok q
        → (c : C) × (r ≡ ok (c ∷ []))
          × (lib.to_payload
                (record { driver_name = lib.name driver; claim_data = c })
                (lib.byte_size p)
              ≡ ok (some q))
    unfolding store_with one_claim
    store_with-made driver p q (err e) h = absurd (ground arith)
    store_with-made driver p q (ok []) h = absurd (ground arith)
    store_with-made driver p q (ok (c ∷ [])) h =
        (c, refl, reference_payload-made driver c (lib.byte_size p) q h)
    store_with-made driver p q (ok (c ∷ b ∷ cs)) h = absurd (ground arith)

    store_payload-chosen :
        (driver : R) (p : P) (w : W)
        → select_driver lib st p ≡ ok (some driver)
        → store_payload lib st p w ≡ (
          store_with lib st driver p (lib.store driver (p ∷ []) w).0,
          (lib.store driver (p ∷ []) w).1,
        )
    unfolding store_payload
    store_payload-chosen driver p w chosen = rw (store_payload, chosen) refl

    store_payload-external :
        (driver : R) (p q : P) (w v : W)
        → select_driver lib st p ≡ ok (some driver)
        → store_payload lib st p w ≡ (ok q, v)
        → (store_with lib st driver p (lib.store driver (p ∷ []) w).0 ≡ ok q)
          × ((lib.store driver (p ∷ []) w).1 ≡ v)
    store_payload-external driver p q w v chosen h =
        let e = sym (store_payload-chosen driver p w chosen) ∙ h in
        (ap (λ r. r.0) e, ap (λ r. r.1) e)

    store_payload-raises :
        (p q : P) (w v : W) (e : StorageError X)
        → select_driver lib st p ≡ err e
        → store_payload lib st p w ≡ (ok q, v)
        → ⊥
    unfolding store_payload
    store_payload-raises p q w v e fails h =
        let raises : store_payload lib st p w ≡ (err e, w) = rw (store_payload, fails) refl in
        err-ne-ok e q (ap (λ r. r.0) (sym raises ∙ h))

    store_payload-inline :
        (p q : P) (w v : W)
        → select_driver lib st p ≡ ok none
        → store_payload lib st p w ≡ (ok q, v)
        → (p ≡ q) × (w ≡ v)
    unfolding store_payload
    store_payload-inline p q w v chosen h =
        let kept : store_payload lib st p w ≡ (ok p, w) = rw (store_payload, chosen) refl in
        let e = sym kept ∙ h in (ok-injective p q (ap (λ r. r.0) e), ap (λ r. r.1) e)

  -- A payload that is stored, be it by a driver or inline, is retrieved as it was: in a storage that
  -- was checked, for a payload that is no reference itself. The drivers keep what they store, and
  -- references are read back.
  pub retrieve_payload-store_payload :
      (drivers : List R) (selector : Option (P → Result X (Option R))) (threshold : ℤ)
      (st : Storage R P X) (p q : P) (w v : W)
      → StorageLaws
      → make_storage lib drivers selector threshold ≡ ok st
      → decode_reference lib st p ≡ ok none
      → store_payload lib st p w ≡ (ok q, v)
      → retrieve_payload lib st q v ≡ ok p
  unfolding store_payload
  retrieve_payload-store_payload drivers selector threshold st p q w v laws made plain h =
      elim (Result-cases (select_driver lib st p)) [
        | inr (e, fails) ↦ absurd (store_payload-raises laws st p q w v e fails h)
        | inl (none, inline) ↦
            let (same_payload, same_world) = store_payload-inline laws st p q w v inline h in
            subst (λ q. retrieve_payload lib st q v ≡ ok p) same_payload
              (retrieve_payload-plain laws st p v plain)
        | inl (some driver, chosen) ↦
            let (wrote, moved) = store_payload-external laws st driver p q w v chosen h in
            let (c, claimed, refers) = store_with-made laws st driver p q _ wrote in
            let ref : Reference C = record { driver_name = lib.name driver; claim_data = c } in
            let stored : lib.store driver (p ∷ []) w ≡ (ok (c ∷ []), v) =
              λ i. (claimed i, moved i) in
            retrieve_payload-reference laws st driver ref p q v
              (decode_reference-to_payload laws st ref (lib.byte_size p) q refers)
              (selected_known drivers selector threshold st p driver made chosen)
              (laws.keeps driver p w v c stored)
      ]
