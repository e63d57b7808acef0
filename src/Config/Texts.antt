-- ===== src/Config/Texts.antt =====
-- A map of strings through its JSON text.
use linkedon_push.Common.{
  Distinct, insert_new-append, find_rest, find-append_none, ◌≡◌, refl, ap, ◌∙◌, sym, List, [], ◌∷◌,
  ◌++◌, none, some, Bytes, find, bytes_key, StringMap, append_assoc, append-nil, bytes_eq_refl,
}
use linkedon_push.Source.Message.{Members}
use linkedon_push.Config.{
  Root, Parsed, read, insert_members, map_of, json_str_to_map, person_of, map_to_json_str,
}

abbrev pub keys_of : StringMap → List Bytes
keys_of [] = []
keys_of ((k, v) ∷ m) = k ∷ keys_of m

-- The parser reads the printer's text of a map as an object with the same members in the same order.
abbrev pub IsTextLibrary : (Members → Bytes) → (Bytes → Parsed) → Type 0
IsTextLibrary to_styled_string reader =
    (m : StringMap)
    → (root : Root) × (reader (to_styled_string (person_of m)) ≡ read root)
      × (root.member_names ≡ keys_of m)
      × ((k v : Bytes) → find k m ≡ some v → root.as_string k ≡ some v)

insert_members_lem :
    (root : Root) (rest front : StringMap)
    → ((k v : Bytes) → find k rest ≡ some v → root.as_string k ≡ some v)
    → ((k v : Bytes) → find k rest ≡ some v → find k front ≡ none)
    → Distinct rest
    → insert_members root (keys_of rest) front ≡ some (front ++ rest)
unfolding insert_members
insert_members_lem root [] front reads apart d = ap some (sym (append-nil front))
insert_members_lem root ((k, v) ∷ rest) front reads apart (fresh, d) =
    let here : find k ((k, v) ∷ rest) ≡ some v = rw (bytes_eq_refl k) refl in
    rw (reads k v here, insert_new-append k v front (apart k v here))
      (insert_members_lem root rest (front ++ ((k, v) ∷ []))
          (λ j w e. reads j w (find_rest k v j w rest fresh e).1)
          (λ j w e.
            find-append_none j k v front (apart j w (find_rest k v j w rest fresh e).1)
              (find_rest k v j w rest fresh e).0)
          d
        ∙ ap some (append_assoc front ((k, v) ∷ []) rest))

-- For a JSON library whose parser reads the styled text of a map back as the same members, in the
-- order of the map, `jsonStrToMap` of `mapToJsonStr` gives back every map of strings, empty strings
-- included.
pub json_str_to_map-map_to_json_str :
    (to_styled_string : Members → Bytes) (reader : Bytes → Parsed) (m : StringMap)
    → IsTextLibrary to_styled_string reader
    → Distinct m
    → json_str_to_map reader (map_to_json_str to_styled_string m) ≡ some m
unfolding json_str_to_map map_to_json_str map_of
json_str_to_map-map_to_json_str to_styled_string reader m library d =
    let (root, parsed, names, reads) = library m in
    rw (parsed, map_of, names) (insert_members_lem root m [] reads (λ k v e. refl) d)
