-- ===== src/Mongo/Maps.antt =====
-- A map of strings through a document of the database.
use linkedon_push.Common.{
  Distinct, insert_new-append, find_rest, find-append_none, bytes_eq_refl, ◌≡◌, refl, ◌∙◌, sym, [],
  ◌∷◌, ◌++◌, none, some, Bytes, c_str, find, bytes_key, StringMap, append_assoc, append-nil, ap,
  codes, take, bytes_eq, bytes_eq_iff, Bool-cases, inl, inr, arith,
}
use linkedon_push.Mongo.{Driver, oid, oid_text, json_to_map, members_map, value_text}
use linkedon_push.Mongo.Client.{excute}

-- No key and no value of the map has a NUL.
abbrev pub CTexts : StringMap → Type 0
CTexts [] = Unit
CTexts ((k, v) ∷ m) = (c_str k ≡ k) × (c_str v ≡ v) × CTexts m

module _ (mongo : Driver) where
  members_map-append :
      (rest front : StringMap)
      → ((k v : Bytes) → find k rest ≡ some v → find k front ≡ none)
      → Distinct rest
      → CTexts rest
      → members_map mongo (excute rest) front ≡ front ++ rest
  unfolding members_map value_text excute
  members_map-append [] front apart d c = sym (append-nil front)
  members_map-append ((k, v) ∷ rest) front apart (fresh, d) (key, text, c) =
      let here : find k ((k, v) ∷ rest) ≡ some v = rw (bytes_eq_refl k) refl in
      rw (key, text, insert_new-append k v front (apart k v here))
        (members_map-append rest (front ++ ((k, v) ∷ []))
            (λ j w e.
              find-append_none j k v front (apart j w (find_rest k v j w rest fresh e).1)
                (find_rest k v j w rest fresh e).0)
            d c
          ∙ append_assoc front ((k, v) ∷ []) rest)

  -- For a map of strings that has each key once, no key `_id`, and no NUL in a key or a value, and the document that
  -- has an id first and then what `excute` makes of the map: if the driver reads this document back
  -- from the text that it prints of it, `jsonToMap` of that text gives the map, with the text of the
  -- id's first twelve bytes under `_id` in front.
  pub json_to_map-excute :
      (m : StringMap) (id : Bytes)
      → let stored = (codes "_id", oid id) ∷ excute m in
        mongo.from_json (mongo.as_json stored) ≡ stored
        → Distinct m
        → CTexts m
        → find (codes "_id") m ≡ none
        → json_to_map mongo (mongo.as_json stored) ≡ (codes "_id", oid_text (take 12 id)) ∷ m
  unfolding json_to_map members_map value_text
  json_to_map-excute m id back d c no_id =
      rw back (members_map-append m ((codes "_id", oid_text (take 12 id)) ∷ []) apart d c)
    where
      apart :
          (k v : Bytes)
          → find k m ≡ some v
          → find k ((codes "_id", oid_text (take 12 id)) ∷ []) ≡ none
      apart k v e = elim (Bool-cases (bytes_eq (codes "_id") k)) [
        | inr differs ↦ rw differs refl
        | inl same ↦
            let absent : find k m ≡ none =
              ap (λ t. find t m) (sym ((bytes_eq_iff (codes "_id") k).0 same)) ∙ no_id in
            absurd (ground (arith, absent))
      ]
